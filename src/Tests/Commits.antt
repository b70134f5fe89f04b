-- ===== src/Tests/Commits.antt =====
-- A transaction from its calls to the server and back.
use regatta_go.Prelude.{
  String, all, ◌&&◌, pos, ◌≡◌, refl, true, false, some, none, List, [], ◌∷◌, ◌++◌, ℕ,
}
use regatta_go.Go.{ok, panic, codes}
use regatta_go.Go.Run.{Run}
use regatta_go.Env.{Env, Reply, resp, fail}
use regatta_go.Proto.{TxnRequest, RequestOp, request_range, request_put}
use regatta_go.Proto
use regatta_go.Op.Requests.{fits_txn}
use regatta_go.Op.{op_txn, is_get, is_put, is_delete, Cmp}
use regatta_go.Kv.{KvClient, kv_do}
use regatta_go.Txn.{Builder, fresh, txn_commit}
use regatta_go.Txn.Order.{Call, if_, then_, else_, run, then_in, else_in}
use regatta_go.Txn.Commits.{txn_commit-sends, txn_commit-refuses}
use regatta_go.Tests.Services.{env_over}
use regatta_go.Tests.Traffic.{put_a, get_a}

abbrev a_cmp : Cmp
a_cmp = record { compare = 0 }

abbrev calls : List Call
calls = if_ (a_cmp ∷ []) ∷ then_ (put_a ∷ get_a ∷ []) ∷ else_ (get_a ∷ []) ∷ []

abbrev as_get : RequestOp
as_get = request_range (record {
  key = codes "a";
  range_end = none;
  limit = pos 0;
  keys_only = false;
  count_only = false;
})

abbrev as_put : RequestOp
as_put = request_put (record { key = codes "a"; value = codes "v"; prev_kv = false })

abbrev done : Proto.TxnResponse
done = record { header = none; succeeded = true; responses = [] }

-- A server that says that the comparisons held; the world lists the transactions that it got.
abbrev listing : Env
listing = env_over (List TxnRequest)

abbrev silent : {A : Type 0} → Run (List TxnRequest) (Reply ℕ A)
silent w = (ok (fail 1), w)

abbrev holding : KvClient listing
holding = record {
  range = λ ctx req opts. silent;
  iterate_range = λ ctx req opts. silent;
  put = λ ctx req opts. silent;
  delete_range = λ ctx req opts. silent;
  txn = λ ctx req opts w. (ok (resp done), w ++ req ∷ []);
  recv = λ s. silent;
}

abbrev sent : TxnRequest
sent = record {
  table = codes "t";
  compare = 0 ∷ [];
  success = as_put ∷ as_get ∷ [];
  failure = as_get ∷ [];
}

calls-fit : (all fits_txn (then_in calls) && all fits_txn (else_in calls)) ≡ true
unfolding is_get is_put is_delete
calls-fit = refl

txn_commit-sends_example :
    (b : Builder) × (run fresh calls ≡ ok b)
    × (txn_commit listing
          (record { kv = kv_do listing holding []; ctx = tt; table = codes "t"; builder = b })
          []
        ≡ (ok (some (record { header = none; succeeded = true; responses = [] }), none), sent ∷ []))
txn_commit-sends_example =
    txn_commit-sends listing holding [] tt (codes "t") calls [] (sent ∷ []) (resp done) refl
      calls-fit refl

-- A transaction within a transaction.
abbrev nesting : List Call
nesting = then_ (put_a ∷ op_txn [] [] [] ∷ []) ∷ else_ (get_a ∷ []) ∷ []

nesting-unfit : (all fits_txn (then_in nesting) && all fits_txn (else_in nesting)) ≡ false
unfolding op_txn is_get is_put is_delete
nesting-unfit = refl

txn_commit-refuses_example :
    (b : Builder) × (run fresh nesting ≡ ok b)
    × (m : String) × (txn_commit listing
          (record { kv = kv_do listing holding []; ctx = tt; table = codes "t"; builder = b })
          []
        ≡ (panic m, []))
txn_commit-refuses_example =
    txn_commit-refuses listing holding [] tt (codes "t") nesting [] refl nesting-unfit

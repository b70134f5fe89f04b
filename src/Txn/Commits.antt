-- ===== src/Txn/Commits.antt =====
-- A transaction from the calls that build it to the request that `Commit` sends, and the reply back.
use regatta_go.Prelude.{
  String, all, ◌&&◌, false, ◌≡◌, refl, ap, ◌∙◌, sym, true, Option, none, some, List, map,
  Option-cases, inl, inr,
}
use mathlib.Core.Path.{ap₂}
use regatta_go.Go.{Go, panic, is_ok, ok, Bytes}
use regatta_go.Go.Run.{>>=-known, >>=-panics}
use regatta_go.Env.{Env, Reply, resp, fail, to_err, to_err_code}
use regatta_go.Proto
use regatta_go.Proto.{RequestOp, TxnRequest}
use regatta_go.Retry.{CallOption}
use regatta_go.Responses.{TxnResponse, txn_of}
use regatta_go.Op.{t_txn, Cmp, Op, to_request_ops, to_txn_request, op_txn}
use regatta_go.Op.Requests.{list_of-ops_of, fits_txn, to_txn_request-accepts}
use regatta_go.Kv.{KvClient, kv_do, do_op, answer, OpResponse, no_response}
use regatta_go.Txn.{Builder, fresh, txn_commit, committed}
use regatta_go.Env.Reported.{reported_error, to_err-reported_error}
use regatta_go.Txn.Messages.{messages, both, to_request_ops-messages, txn_response, txn_of-eq}
use regatta_go.Txn.Order.{Call, run, rises, cmps_in, then_in, else_in, run-holds}

abbrev pub txn_request : Bytes → List Cmp → List RequestOp → List RequestOp → TxnRequest
txn_request table cmps ts es = record {
  table = table;
  compare = map (λ c. c.compare) cmps;
  success = ts;
  failure = es;
}

to_txn_request-eq :
    (table : Bytes) (cmps : List Cmp) (thens elses : List Op) (ts es : List RequestOp)
    → to_request_ops thens ≡ ok ts
    → to_request_ops elses ≡ ok es
    → to_txn_request (op_txn cmps thens elses) table ≡ ok (txn_request table cmps ts es)
unfolding to_txn_request op_txn
to_txn_request-eq table cmps thens elses ts es p q =
    rw (list_of-ops_of thens, list_of-ops_of elses, p, q)

module _ (env : Env) (remote : KvClient env) (copts : List (CallOption env)) (ctx : env.Ctx) where
  open env use {World, Err}

  -- What `Commit` makes of a reply.
  abbrev commit_result : Reply Err Proto.TxnResponse → World → Option TxnResponse × Option Err
  commit_result (resp m) w = (some (txn_of m), none)
  commit_result (fail e) w = (none, to_err env ctx (some e) w)

  to_err-some : (e : Err) (w : World) → (e' : Err) × (to_err env ctx (some e) w ≡ some e')
  unfolding to_err
  to_err-some e w = elim (Option-cases (env.from_error e)) [
    | inl n ↦ (e, rw (n, to_err) refl)
    | inr (st, h) ↦ (to_err_code env ctx e st.code w, rw (h, to_err) refl)
  ]

  abbrev do_result : Reply Err Proto.TxnResponse → World → OpResponse env × Option Err
  do_result (resp m) w = (record (no_response env) { txn = some (txn_of m) }, none)
  do_result (fail e) w = (no_response env, to_err env ctx (some e) w)

  do_op-txn :
      (table : Bytes) (o : Op) (req : TxnRequest) (w w' : World) (r : Reply Err Proto.TxnResponse)
      → to_txn_request o table ≡ ok req
      → remote.txn ctx req copts w ≡ (ok r, w')
      → do_op env remote copts ctx table o t_txn w ≡ (ok (do_result r w'), w')
  unfolding do_op answer
  do_op-txn table o req w w' (resp m) p h = rw p (>>=-known (remote.txn ctx req copts) _ w h)
  do_op-txn table o req w w' (fail e) p h = rw p (>>=-known (remote.txn ctx req copts) _ w h)

  kv_do-txn :
      (table : Bytes) (b : Builder) (req : TxnRequest) (w w' : World)
      (r : Reply Err Proto.TxnResponse)
      → to_txn_request (op_txn b.cmps b.sus b.fas) table ≡ ok req
      → remote.txn ctx req copts w ≡ (ok r, w')
      → kv_do env remote copts ctx table (op_txn b.cmps b.sus b.fas) w ≡ (ok (do_result r w'), w')
  unfolding kv_do op_txn
  kv_do-txn table b req w w' r p h = do_op-txn table (op_txn b.cmps b.sus b.fas) req w w' r p h

  commit-request :
      (table : Bytes) (b : Builder) (ts es : List RequestOp) (w w' : World)
      (r : Reply Err Proto.TxnResponse)
      → to_request_ops b.sus ≡ ok ts
      → to_request_ops b.fas ≡ ok es
      → remote.txn ctx (txn_request table b.cmps ts es) copts w ≡ (ok r, w')
      → txn_commit env
          (record { kv = kv_do env remote copts; ctx = ctx; table = table; builder = b })
          w
        ≡ (ok (commit_result r w'), w')
  unfolding txn_commit committed to_err
  commit-request table b ts es w w' r p q h =
      let done =
        kv_do-txn table b _ w w' r (to_txn_request-eq table b.cmps b.sus b.fas ts es p q) h in
      >>=-known (kv_do env remote copts ctx table (op_txn b.cmps b.sus b.fas)) _ w done ∙ by_reply r
    where
      by_reply :
          (r : Reply Err Proto.TxnResponse)
          → committed env (do_result r w').0.txn (do_result r w').1 w'
            ≡ (ok (commit_result r w'), w')
      by_reply (resp m) = refl
      by_reply (fail e) =
          let (e', h') = to_err-some e w' in
          ap (λ x. committed env none x w') h' ∙ ap (λ x. (ok (none, x), w')) (sym h')

  -- What a caller sees of a reply.
  abbrev pub shown : Reply Err Proto.TxnResponse → World → Option TxnResponse × Option Err
  shown (resp m) w = (some (txn_response m), none)
  shown (fail e) w = (none, some (reported_error env ctx e w))

  commit_result-shown :
      (r : Reply Err Proto.TxnResponse) (w : World) → commit_result r w ≡ shown r w
  commit_result-shown (resp m) w = ap (λ t. (some t, none)) (txn_of-eq m)
  commit_result-shown (fail e) w = ap (λ o. (none, o)) (to_err-reported_error env ctx e w)

  -- Calls in order that build a transaction of nothing but gets, puts and deletes are accepted, and its
  -- `Commit` makes one call of the stub: a transaction under the caller's table with the comparisons of
  -- `If`, and with one message for each operation of `Then` and for each of `Else`, in order, that has
  -- the operation's kind and fields. If that call returns, its answer comes back field by field, each
  -- single response in its place without a header and those of no type left out; an error comes back
  -- as it is, or as the context's own where its code is of a context that is over.
  pub txn_commit-sends :
      (table : Bytes) (cs : List Call) (w w' : World) (r : Reply Err Proto.TxnResponse)
      → rises 0 cs ≡ true
      → (all fits_txn (then_in cs) && all fits_txn (else_in cs)) ≡ true
      → remote.txn ctx
          (txn_request table (cmps_in cs) (messages (then_in cs)) (messages (else_in cs)))
          copts
          w
        ≡ (ok r, w')
      → (b : Builder) × (run fresh cs ≡ ok b)
        × (txn_commit env
              (record { kv = kv_do env remote copts; ctx = ctx; table = table; builder = b })
              w
            ≡ (ok (shown r w'), w'))
  txn_commit-sends table cs w w' r ordered fit h =
      let (b, built, cmps, sus, fas, writes) = run-holds cs ordered in
      let (fit_then, fit_else) = both (all fits_txn (then_in cs)) (all fits_txn (else_in cs)) fit in
      let ts = messages (then_in cs) in
      let es = messages (else_in cs) in
      (
        b,
        built,
        commit-request table b ts es w w' r
              (ap to_request_ops sus ∙ to_request_ops-messages (then_in cs) fit_then)
              (ap to_request_ops fas ∙ to_request_ops-messages (else_in cs) fit_else)
              (ap (λ c. remote.txn ctx (txn_request table c ts es) copts w) cmps ∙ h)
            ∙ ap (λ x. (ok x, w')) (commit_result-shown r w'),
      )

  panics : {A : Type 0} (g : Go A) → is_ok g ≡ false → (m : String) × (g ≡ panic m)
  panics (ok a) h = cc
  panics (panic m) h = (m, refl)

  do_op-panics :
      (table : Bytes) (o : Op) (w : World) (m : String)
      → to_txn_request o table ≡ panic m
      → do_op env remote copts ctx table o t_txn w ≡ (panic m, w)
  unfolding do_op
  do_op-panics table o w m h = rw h

  kv_do-panics :
      (table : Bytes) (b : Builder) (w : World) (m : String)
      → to_txn_request (op_txn b.cmps b.sus b.fas) table ≡ panic m
      → kv_do env remote copts ctx table (op_txn b.cmps b.sus b.fas) w ≡ (panic m, w)
  unfolding kv_do op_txn
  kv_do-panics table b w m p = do_op-panics table (op_txn b.cmps b.sus b.fas) w m p

  -- Calls in order that build a transaction with something else among its operations than gets, puts
  -- and deletes are accepted, and then its `Commit` panics before anything is sent or changed.
  pub txn_commit-refuses :
      (table : Bytes) (cs : List Call) (w : World)
      → rises 0 cs ≡ true
      → (all fits_txn (then_in cs) && all fits_txn (else_in cs)) ≡ false
      → (b : Builder) × (run fresh cs ≡ ok b)
        × (m : String) × (txn_commit env
              (record { kv = kv_do env remote copts; ctx = ctx; table = table; builder = b })
              w
            ≡ (panic m, w))
  unfolding txn_commit
  txn_commit-refuses table cs w ordered unfit =
      let (b, built, cmps, sus, fas, writes) = run-holds cs ordered in
      let refused =
        to_txn_request-accepts b.cmps b.sus b.fas table
        ∙ ap₂ (λ x y. all fits_txn x && all fits_txn y) sus fas
        ∙ unfit in
      let (m, p) = panics (to_txn_request (op_txn b.cmps b.sus b.fas) table) refused in
      (
        b,
        built,
        m,
        >>=-panics (kv_do env remote copts ctx table (op_txn b.cmps b.sus b.fas)) _ w
            (kv_do-panics table b w m p),
      )

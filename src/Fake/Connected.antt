-- ===== src/Fake/Connected.antt =====
-- A client whose connection leads to the fake server: what its calls leave there, and what they
-- bring back.
use regatta_go.Prelude.{◌≡◌, refl, ap, ◌∙◌, List, [], ◌∷◌, ◌++◌, map}
use regatta_go.Go.{ok, >>=-eq_ok, ok-injective, Bytes}
use regatta_go.Go.Run.{Run, >>=-world}
use regatta_go.Env.{Env, Reply, resp, fail}
use regatta_go.Proto.{RangeRequest, PutRequest, DeleteRangeRequest, TxnRequest}
use regatta_go.Retry.{CallOption}
use regatta_go.Op.{
  OpType, t_invalid, t_range, t_iterate_range, t_put, t_delete_range, t_txn, Op, fields,
  to_range_request, to_txn_request,
}
use regatta_go.Kv.{KvClient, KvDo, OpResponse, kv_do, do_op, answer, retry_kv_client, new_kv}
use regatta_go.Fake.{FakeKvServer, fake_range, fake_put, fake_delete_range, fake_txn}
use regatta_go.Fake.Cycle.{Request, no_streams, serve, serve_all, serve_all-records}
use regatta_go.Fake.Messages.{
  Call, message_as, message_of, messages_of, recorded, messages_of-records,
}

module _ (env : Env) where
  open env use {World, Err, Ctx}

  -- A call that runs a handler of the server once and brings back what it replies.
  abbrev pub Served :
      {B : Type 0}
      → (World → FakeKvServer env)
      → Run World (Reply Err B)
      → Run (FakeKvServer env) (Reply Err B)
      → Type 0
  Served {B = B} server call handler =
      (w : World)
      → (server (call w).1 ≡ (handler (server w)).1)
        × ((m : B) → (handler (server w)).0 ≡ ok (resp m) → (call w).0 ≡ ok (resp m))

  -- gRPC's part: a connection that carries each message to the server unchanged, once, and waits for
  -- the reply. (One with the interceptor for retries carries a message again after some errors.)
  pub record Connected (client : KvClient env) (server : World → FakeKvServer env) : Type 0 where
    pub range :
        (ctx : Ctx) (req : RangeRequest) (opts : List (CallOption env))
        → Served server (client.range ctx req opts) (fake_range env req)
    pub put :
        (ctx : Ctx) (req : PutRequest) (opts : List (CallOption env))
        → Served server (client.put ctx req opts) (fake_put env req)
    pub delete_range :
        (ctx : Ctx) (req : DeleteRangeRequest) (opts : List (CallOption env))
        → Served server (client.delete_range ctx req opts) (fake_delete_range env req)
    pub txn :
        (ctx : Ctx) (req : TxnRequest) (opts : List (CallOption env))
        → Served server (client.txn ctx req opts) (fake_txn env req)

  answer-world :
      {A : Type 0} (ctx : Ctx) (f : A → OpResponse env) (r : Reply Err A) (w : World)
      → (answer env ctx f r w).1 ≡ w
  unfolding answer
  answer-world ctx f (resp a) w = refl
  answer-world ctx f (fail e) w = refl

  -- The world after some calls of `Do`, whatever they return.
  pub after : Ctx → KvDo env → World → List Call → World
  after ctx kv w [] = w
  after ctx kv w ((table, o) ∷ cs) = after ctx kv (kv ctx table o w).1 cs

  module _ (remote : KvClient env) (server : World → FakeKvServer env)
      (connected : Connected remote server) (copts : List (CallOption env)) (ctx : Ctx) where
    -- `Do` leaves the server as the handler of its message does.
    do_op-serves :
        (t : OpType) (table : Bytes) (o : Op) (r : Request) (w : World)
        → message_as t table o ≡ ok r
        → server (do_op env remote copts ctx table o t w).1
          ≡ serve env (no_streams env) (server w) r
    unfolding do_op serve
    do_op-serves t_range table o r w h =
        let (req, p, e) = >>=-eq_ok (to_range_request o table) _ h in
        rw (p, ← ok-injective _ _ e)
          (ap server (>>=-world (remote.range ctx req copts) _ w (answer-world ctx _))
            ∙ (connected.range ctx req copts w).0)
    do_op-serves t_put table o r w h = rw (← ok-injective _ _ h) (
        ap server (>>=-world (remote.put ctx _ copts) _ w (answer-world ctx _))
        ∙ (connected.put ctx _ copts w).0)
    do_op-serves t_delete_range table o r w h = rw (← ok-injective _ _ h) (
        ap server (>>=-world (remote.delete_range ctx _ copts) _ w (answer-world ctx _))
        ∙ (connected.delete_range ctx _ copts w).0)
    do_op-serves t_txn table o r w h =
        let (req, p, e) = >>=-eq_ok (to_txn_request o table) _ h in
        rw (p, ← ok-injective _ _ e)
          (ap server (>>=-world (remote.txn ctx req copts) _ w (answer-world ctx _))
            ∙ (connected.txn ctx req copts w).0)
    do_op-serves t_invalid table o r w h = cc
    do_op-serves t_iterate_range table o r w h = cc

    pub after-serves :
        (cs : List Call) (rs : List Request) (w : World)
        → messages_of cs ≡ ok rs
        → server (after ctx (kv_do env remote copts) w cs)
          ≡ serve_all env (no_streams env) (server w) rs
    unfolding after messages_of serve_all kv_do
    after-serves [] rs w h = rw (← ok-injective _ _ h)
    after-serves ((table, o) ∷ cs) rs w h =
        let (r, p, k) = >>=-eq_ok (message_of (table, o)) _ h in
        let (rs', q, e) = >>=-eq_ok (messages_of cs) _ k in
        rw (← ok-injective _ _ e) (
          after-serves cs rs' _ q
          ∙ ap (λ s. serve_all env (no_streams env) s rs')
              (do_op-serves (fields o).t table o r w p))

module _ (env : Env) (remote : KvClient env) (server : env.World → FakeKvServer env) where
  pub retry-Connected :
      Connected env remote server → Connected env (retry_kv_client env remote) server
  unfolding retry_kv_client
  retry-Connected c = record {
    range = λ ctx req opts. c.range ctx req _;
    put = c.put;
    delete_range = c.delete_range;
    txn = c.txn;
  }

  -- Gets, puts, deletes and transactions that `Do` of a new client without hooks is given, on a
  -- connection that carries each message to the fake server once, are recorded there in order
  -- behind what was recorded, if each can be translated to a message, and whatever the server
  -- answers: each under its table, a get without what a range request does not carry, the
  -- operations of a transaction with what a transaction carries.
  pub new_kv-recorded :
      (connected : Connected env remote server) (copts : List (CallOption env)) (ctx : env.Ctx)
      (cs : List Call) (rs : List Request) (w : env.World)
      → messages_of cs ≡ ok rs
      → (server (after env ctx (new_kv env remote copts []) w cs)).recorded_requests
        ≡ (server w).recorded_requests ++ map recorded cs
  unfolding new_kv
  new_kv-recorded connected copts ctx cs rs w h =
      ap (λ s. s.recorded_requests)
        (after-serves env (retry_kv_client env remote) server (retry-Connected connected) copts ctx
          cs rs w h)
      ∙ rw (serve_all-records, messages_of-records cs rs h)

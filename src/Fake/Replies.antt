-- ===== src/Fake/Replies.antt =====
-- What a client reads from the fake server: the prepared responses, in turn.
use native.Mathlib.Nat.{zero-add}
use regatta_go.Prelude.{
  ◌%◌, ◌≡◌, refl, ap, ◌∙◌, Bool, Option, none, some, List, [], ◌∷◌, map, length, length-map,
  get_elem?,
}
use regatta_go.Go.{ok, >>=-eq_ok, Bytes}
use regatta_go.Go.Run.{Run, ◌>>=◌, ◌>>◌, >>=-known}
use regatta_go.Env.{Env, Reply, resp}
use regatta_go.Proto.{ResponseHeader, KeyValue, TxnRequest}
use regatta_go.Retry.{CallOption}
use regatta_go.Responses.{
  GetResponse, PutResponse, DeleteResponse, TxnResponse, AnyResponse, new_response_op, put_of,
  delete_of, txn_of,
}
use regatta_go.Op.{
  OpType, t_invalid, t_range, t_iterate_range, t_put, t_delete_range, t_txn, Op, fields,
  to_range_request, to_txn_request,
}
use regatta_go.Kv.{KvClient, OpResponse, kv_do, do_op, answer, retry_kv_client, new_kv}
use regatta_go.Kv.Methods.{of_get, of_put, of_delete, of_txn}
use regatta_go.Recorded.{RecordedRequest}
use regatta_go.Recorded.RoundTrip.{conv_key_values-proto, conv_response_ops-proto, headless}
use regatta_go.Fake.{
  FakeResponse, FakeKvServer, new_fake, note_request, next_response, answer_with, range_message,
  put_message, delete_message, txn_message, copy_key_value, fake_range, fake_put, fake_delete_range,
  fake_txn,
}
use regatta_go.Fake.Answers.{get_of-message, conv_to_header_proto-eq, prepared-get}
use regatta_go.Fake.Cycle.{
  Request, no_streams, records_of, serve_all, serve_all-records, turn, next_response-eq,
}
use regatta_go.Fake.Messages.{
  Call, message_as, message_of, messages_of, recorded, messages_of-records,
  conv_txn_to_request-sent,
}
use regatta_go.Fake.Connected.{Connected, after, after-serves, retry-Connected}

module _ (env : Env) where
  open env use {World, Err, Ctx}

  copy_key_value-eq : (kv : Option KeyValue) → copy_key_value env kv ≡ kv
  unfolding copy_key_value
  copy_key_value-eq none = refl
  copy_key_value-eq (some kv) = refl

  put_of-message : (p : PutResponse) → put_of (put_message env p) ≡ p
  unfolding put_of put_message
  put_of-message p = rw (conv_to_header_proto-eq, copy_key_value-eq)

  delete_of-message : (d : DeleteResponse) → delete_of (delete_message env d) ≡ d
  unfolding delete_of delete_message
  delete_of-message d = rw (conv_to_header_proto-eq, conv_key_values-proto)

  txn_of-message :
      (h : Option ResponseHeader) (b : Bool) (rs : List AnyResponse)
      → txn_of (
          txn_message env
            (record { header = h; succeeded = b; responses = map new_response_op rs }))
        ≡ record { header = h; succeeded = b; responses = map new_response_op (map headless rs) }
  unfolding txn_of txn_message
  txn_of-message h b rs = rw (conv_to_header_proto-eq, conv_response_ops-proto rs)

  -- What a caller of an operation of a type reads of a prepared response of that type. The responses
  -- in a transaction lose their headers.
  pub data Reads : OpType → OpResponse env → OpResponse env → Type 0 where
    get : {o : OpResponse env} {g : GetResponse} → o.get ≡ some g → Reads t_range o (of_get env g)
    put : {o : OpResponse env} {p : PutResponse} → o.put ≡ some p → Reads t_put o (of_put env p)
    del :
        {o : OpResponse env} {d : DeleteResponse}
        → o.del ≡ some d
        → Reads t_delete_range o (of_delete env d)
    txn :
        {o : OpResponse env} (h : Option ResponseHeader) (b : Bool) (rs : List AnyResponse)
        → o.txn ≡ some (record { header = h; succeeded = b; responses = map new_response_op rs })
        → Reads t_txn o (
            of_txn env (record {
              header = h;
              succeeded = b;
              responses = map new_response_op (map headless rs);
            }))

  -- The common end of the handlers, when the next response is of the right kind.
  handler-reply :
      {A B : Type 0} (kind : OpResponse env → Option A) (conv : A → B) (empty : B)
      (q : RecordedRequest) (s : FakeKvServer env) (a : FakeResponse env) (x : A)
      → turn env s.fake_responses s.fake_responses_idx ≡ some a
      → a.err ≡ none
      → kind a.response ≡ some x
      → ((note_request env q
            >> (next_response env >>= answer_with env kind (λ y. ok (conv y)) empty))
          s).0
        ≡ ok (resp (conv x))
  unfolding note_request answer_with
  handler-reply kind conv empty q s a x at no_err is_kind =
      ap (λ p. p.0) (>>=-known (next_response env) _ _ (next_response-eq env _))
      ∙ rw at (prepared-get env conv a.err (kind a.response) x _ no_err is_kind)

  txn-reply :
      (o : Op) (table : Bytes) (req : TxnRequest) (s : FakeKvServer env) (a : FakeResponse env)
      (x : TxnResponse)
      → to_txn_request o table ≡ ok req
      → turn env s.fake_responses s.fake_responses_idx ≡ some a
      → a.err ≡ none
      → a.response.txn ≡ some x
      → (fake_txn env req s).0 ≡ ok (resp (txn_message env x))
  unfolding fake_txn
  txn-reply o table req s a x p at no_err k =
      rw (conv_txn_to_request-sent o table req p)
        (handler-reply (λ r. r.txn) (txn_message env) _ _ s a x at no_err k)

  -- A call that is answered is translated.
  call-reply :
      {A : Type 0} (call : Run World (Reply Err A)) (ctx : Ctx) (f : A → OpResponse env) (w : World)
      (m : A)
      → (call w).0 ≡ ok (resp m)
      → ((call >>= answer env ctx f) w).0 ≡ ok (f m, none)
  unfolding answer
  call-reply call ctx f w m h =
      ap (λ p. p.0) (>>=-known call (answer env ctx f) w (λ i. (h i, (call w).1)))

  module _ (remote : KvClient env) (server : World → FakeKvServer env)
      (connected : Connected env remote server) (copts : List (CallOption env)) (ctx : Ctx) where
    do_op-reads :
        (t : OpType) (table : Bytes) (o : Op) (m : Request) (w : World) (a : FakeResponse env)
        (x : OpResponse env)
        → message_as t table o ≡ ok m
        → turn env (server w).fake_responses (server w).fake_responses_idx ≡ some a
        → a.err ≡ none
        → Reads t a.response x
        → (do_op env remote copts ctx table o t w).0 ≡ ok (x, none)
    unfolding of_get of_put of_delete of_txn do_op fake_range fake_put fake_delete_range fake_txn
    do_op-reads t_range table o m w a _ h at no_err (get {g = g} k) =
        let (req, p, e) = >>=-eq_ok (to_range_request o table) _ h in
        let reply =
          (connected.range ctx req copts w).1 (range_message env g)
            (handler-reply (λ r. r.get) (range_message env) _ _ _ a g at no_err k) in
        rw p (
          call-reply (remote.range ctx req copts) ctx _ w _ reply
          ∙ ap (λ y. ok (of_get env y, none)) (get_of-message env g))
    do_op-reads t_put table o m w a _ h at no_err (put {p = g} k) =
        let reply =
          (connected.put ctx _ copts w).1 (put_message env g)
            (handler-reply (λ r. r.put) (put_message env) _ _ _ a g at no_err k) in
        call-reply (remote.put ctx _ copts) ctx _ w _ reply
        ∙ ap (λ y. ok (of_put env y, none)) (put_of-message g)
    do_op-reads t_delete_range table o m w a _ h at no_err (del {d = g} k) =
        let reply =
          (connected.delete_range ctx _ copts w).1 (delete_message env g)
            (handler-reply (λ r. r.del) (delete_message env) _ _ _ a g at no_err k) in
        call-reply (remote.delete_range ctx _ copts) ctx _ w _ reply
        ∙ ap (λ y. ok (of_delete env y, none)) (delete_of-message g)
    do_op-reads t_txn table o m w a _ h at no_err (txn head b rs k) =
        let (req, p, e) = >>=-eq_ok (to_txn_request o table) _ h in
        let reply =
          (connected.txn ctx req copts w).1 (txn_message env _)
            (txn-reply o table req (server w) a _ p at no_err k) in
        rw p (
          call-reply (remote.txn ctx req copts) ctx _ w _ reply
          ∙ ap (λ y. ok (of_txn env y, none)) (txn_of-message head b rs))
    do_op-reads t_invalid table o m w a _ h at no_err r = elim r [ ]
    do_op-reads t_iterate_range table o m w a _ h at no_err r = elim r [ ]

    after-turn :
        (r : FakeResponse env) (rs : List (FakeResponse env)) (cs : List Call) (ms : List Request)
        (w : World)
        → server w ≡ new_fake env (r ∷ rs)
        → messages_of cs ≡ ok ms
        → (let s = server (after env ctx (kv_do env remote copts) w cs) in
            turn env s.fake_responses s.fake_responses_idx)
          ≡ get_elem? (r ∷ rs) (length cs % length (r ∷ rs))
    unfolding new_fake
    after-turn r rs cs ms w fresh sent =
        let length-records : length (records_of ms) ≡ length cs =
          ap length (messages_of-records cs ms sent) ∙ length-map recorded cs in
        ap (λ s. turn env s.fake_responses s.fake_responses_idx)
          (after-serves env remote server connected copts ctx cs ms w sent
            ∙ ap (λ s. serve_all env (no_streams env) s ms) fresh
            ∙ serve_all-records env (no_streams env) _ ms)
        ∙ rw (zero-add, length-records)

  -- After calls of `Do` of a new client without hooks, on a connection that carries each message to
  -- a new fake server once, the next call returns the prepared response whose position is the
  -- number of calls modulo the number of responses, as a caller reads it, if that holds a response
  -- of the call's kind and no error. Each call must have a message: gets, puts, deletes and
  -- transactions that can be translated.
  pub new_kv-turn :
      (remote : KvClient env) (server : World → FakeKvServer env)
      (connected : Connected env remote server) (copts : List (CallOption env)) (ctx : Ctx)
      (r : FakeResponse env) (rs : List (FakeResponse env)) (cs : List Call) (ms : List Request)
      (table : Bytes) (o : Op) (m : Request) (w : World) (a : FakeResponse env) (x : OpResponse env)
      → server w ≡ new_fake env (r ∷ rs)
      → messages_of cs ≡ ok ms
      → message_of (table, o) ≡ ok m
      → get_elem? (r ∷ rs) (length cs % length (r ∷ rs)) ≡ some a
      → a.err ≡ none
      → Reads (fields o).t a.response x
      → (let kv = new_kv env remote copts [] in (kv ctx table o (after env ctx kv w cs)).0)
        ≡ ok (x, none)
  unfolding new_kv kv_do
  new_kv-turn remote server connected copts ctx r rs cs ms table o m w a x fresh sent this at no_err
        reads =
      let c = retry-Connected env remote server connected in
      let retrying = retry_kv_client env remote in
      do_op-reads retrying server c copts ctx (fields o).t table o m _ a x this
        (after-turn retrying server c copts ctx r rs cs ms w fresh sent ∙ at) no_err reads

-- ===== src/Tests/Services.antt =====
-- The services at concrete inputs, in a small world: the list of the results of the calls so far.
use regatta_go.Prelude.{
  ℕ, zero, suc, ℤ, pos, ◌≤◌, ◌+◌, ◌≡◌, refl, true, false, Option, none, some, List, [], ◌∷◌, ◌++◌,
  map, length, ◌==◌,
}
use regatta_go.Go.{ok, Bytes, codes}
use regatta_go.Go.Run.{Run}
use regatta_go.Env.{Env, Code, deadline_exceeded, unavailable, other_code, Reply, fail}
use regatta_go.Retry.{
  repeatable, non_repeatable, Options, CallOption, grpc_option, filter_call_options,
}
use regatta_go.Proto.{RangeRequest, PutRequest}
use regatta_go.Responses.{GetResponse}
use regatta_go.Options.Settings.{Setting, prev_kv, options}
use regatta_go.Kv.Puts.{put_result, kv_put-sends}
use regatta_go.Table.{kv_table, table_put}
use regatta_go.Kv.Retried.{intercepted, to_reply, kv_put-attempts}
use regatta_go.Proto
use regatta_go.Kv.{new_kv, kv_put, kv_do, KvClient, no_response, retry_kv_client}
use regatta_go.Kv.CallOptions.{unary_options, stream_options, in_force, retry_options}
use regatta_go.Fake.{FakeResponse, FakeKvServer, new_fake}
use regatta_go.Fake.Cycle.{Request, no_streams, records_of, serve_all, moved, serve_all-records}
use regatta_go.Interceptor.{Invoker, unary_loop, wait_retry_backoff, is_context_error}
use regatta_go.Interceptor.Endings.{Retried, Ended}
use regatta_go.Interceptor.Attempts.{unary_loop-attempts}

-- An error is a status with one of three codes, by its number, and no message; 9 is the end of a
-- stream.
abbrev code_of : ℕ → Code
code_of zero = deadline_exceeded
code_of (suc zero) = unavailable
code_of n = other_code n

abbrev pub env_over : Type 0 → Env
env_over W = record {
  World = W;
  Err = ℕ;
  Ctx = Unit {0};
  GrpcOption = ℕ;
  Stream = ℕ;
  ctx_err = λ c w. none;
  from_error = λ e. some (record { code = code_of e; message = [] });
  status_code = code_of;
  error_text = λ e. [];
  is_eof = λ e. e == 9;
  is_deadline = λ e. e == 0;
  is_canceled = λ e. false;
  status_error = λ c m. 0;
  Metadata = Bytes × Bytes;
  from_outgoing = λ c. none;
  pairs = λ k v. (k, v);
  copy = λ m. m;
  set = λ m k v. (k, v);
  new_outgoing = λ c m. c;
  wait = λ c t w. (ok none, w);
}

abbrev small_env : Env
small_env = env_over (List (Option ℕ))

abbrev no_wait : ℕ → List (Option ℕ) → ℤ × List (Option ℕ)
no_wait n w = (pos 0, w)

abbrev once : Options small_env
once = record { retry_policy = non_repeatable; max = 10; backoff_func = no_wait; retry_auth = true }

-- A server whose first call ends in the error `e`, and whose other calls succeed.
abbrev flaky : ℕ → Invoker small_env
flaky e ctx gs [] = (ok (some e), some e ∷ [])
flaky e ctx gs (r ∷ rs) = (ok none, (r ∷ rs) ++ none ∷ [])

flaky-logs :
    (w : List (Option ℕ))
    → (r : Option ℕ) × (w' : List (Option ℕ)) × (flaky 0 tt [] w ≡ (ok r, w')) × (w' ≡ w ++ r ∷ [])
flaky-logs [] = (some 0, some 0 ∷ [], refl, refl)
flaky-logs (r ∷ rs) = (none, (r ∷ rs) ++ none ∷ [], refl, refl)

unary_loop-attempts_example :
    let p = unary_loop small_env (flaky 0) tt [] once 3 0 none [] in
    (r : Option ℕ) × (es : List (Option ℕ)) × (p.0 ≡ ok r)
    × (p.1 ≡ [] ++ map (λ r. r) es)
    × Retried small_env once es
    × (length es ≤ 3)
    × Ended small_env once tt 0 3 none r es
unary_loop-attempts_example =
    unary_loop-attempts small_env once (flaky 0) tt [] (λ r. r) (λ w. w) flaky-logs
      (λ t w. (none, w, refl, refl)) (λ a w. refl) 3 0 none []

other-not_context : is_context_error small_env 5 ≡ false
unfolding is_context_error
other-not_context = refl

deadline-of_context : is_context_error small_env 0 ≡ true
unfolding is_context_error
deadline-of_context = refl

no_wait-waited : wait_retry_backoff small_env tt 1 once (some 0 ∷ []) ≡ (ok none, some 0 ∷ [])
unfolding wait_retry_backoff
no_wait-waited = refl

abbrev got : GetResponse
got = record { header = none; kvs = []; more = false; count = pos 2 }

abbrev asks : RangeRequest
asks = record {
  table = codes "t";
  key = codes "a";
  range_end = none;
  limit = pos 0;
  linearizable = true;
  keys_only = false;
  count_only = false;
  min_mod_revision = pos 0;
  max_mod_revision = pos 0;
  min_create_revision = pos 0;
  max_create_revision = pos 0;
}

abbrev puts : PutRequest
puts = record { table = codes "t"; key = codes "a"; value = codes "v"; prev_kv = false }

abbrev refuses : FakeResponse small_env
refuses = record { response = no_response small_env; err = some 1 }

abbrev gives : FakeResponse small_env
gives = record { response = record (no_response small_env) { get = some got }; err = none }

abbrev requests : List Request
requests = Request.put puts ∷ Request.range asks ∷ Request.iterate_range asks ∷ []

abbrev fake : FakeKvServer small_env
fake = new_fake small_env (refuses ∷ gives ∷ [])

serve_all-records_example : serve_all small_env (no_streams small_env) fake requests ≡ record fake {
  recorded_requests = fake.recorded_requests ++ records_of requests;
  fake_responses_idx =
      fake.fake_responses_idx + moved small_env fake.fake_responses (length (records_of requests));
}
serve_all-records_example = serve_all-records small_env (no_streams small_env) fake requests

abbrev down : {A : Type 0} → Run (List (Option ℕ)) (Reply ℕ A)
down w = (ok (fail 1), w)

abbrev stub : KvClient small_env
stub = record {
  range = λ ctx req opts. down;
  iterate_range = λ ctx req opts. down;
  put = λ ctx req opts. down;
  delete_range = λ ctx req opts. down;
  txn = λ ctx req opts. down;
  recv = λ s. down;
}

abbrev force : Options small_env → List (CallOption small_env) → Options small_env
force = in_force small_env no_wait no_wait

abbrev own : List (CallOption small_env)
own = map grpc_option (4 ∷ 5 ∷ [])

retry_options_example :
    (o o' : List (CallOption small_env)) × ((retry_kv_client small_env stub).range tt asks own
      ≡ stub.range tt asks o)
    × ((filter_call_options small_env o).0 ≡ 4 ∷ 5 ∷ [])
    × ((force (unary_options small_env no_wait no_wait) o).retry_policy ≡ repeatable)
    × ((force (unary_options small_env no_wait no_wait) o).max ≡ 10)
    × ((retry_kv_client small_env stub).iterate_range tt asks own ≡ stub.iterate_range tt asks o')
    × ((filter_call_options small_env o').0 ≡ 4 ∷ 5 ∷ [])
    × ((force (stream_options small_env no_wait no_wait) o').retry_policy ≡ repeatable)
    × ((force (stream_options small_env no_wait no_wait) o').max ≡ 5)
    × ((force (unary_options small_env no_wait no_wait) own).retry_policy ≡ non_repeatable)
    × ((force (unary_options small_env no_wait no_wait) own).max ≡ 10)
    × ((retry_kv_client small_env stub).put ≡ stub.put)
    × ((retry_kv_client small_env stub).delete_range ≡ stub.delete_range)
    × ((retry_kv_client small_env stub).txn ≡ stub.txn)
retry_options_example = retry_options small_env no_wait no_wait stub tt (4 ∷ 5 ∷ []) asks

abbrev plain_settings : List Setting
plain_settings = prev_kv ∷ []

kv_put-sends_example :
    (kv_put small_env
        (kv_do small_env stub own)
        tt
        (codes "t")
        (codes "a")
        (codes "v")
        (options plain_settings)
        []
      ≡ (ok (put_result small_env stub own tt (fail 1) []), []))
    × (table_put small_env
          (kv_table small_env (kv_do small_env stub own) (codes "t"))
          tt
          (codes "a")
          (codes "v")
          (options plain_settings)
          []
        ≡ (ok (put_result small_env stub own tt (fail 1) []), []))
kv_put-sends_example =
    kv_put-sends small_env stub own tt (codes "t") (codes "a") (codes "v") plain_settings [] []
      (fail 1) refl refl

abbrev stored : List (Option ℕ) → Proto.PutResponse
stored w = record { header = none; prev_kv = none }

-- The flaky server behind the interceptor.
abbrev wire : Unit {0} → PutRequest → List ℕ → Run (List (Option ℕ)) (Option ℕ)
wire c req g = flaky 0 c []

abbrev through : KvClient small_env
through = record stub { put = intercepted small_env no_wait no_wait (4 ∷ []) wire stored }

kv_put-attempts_example :
    let put = kv_put small_env (new_kv small_env through (map grpc_option (4 ∷ [])) []) in
    (r : Option ℕ) × (es : List (Option ℕ)) × (w' : List (Option ℕ)) × (put tt
        (codes "t")
        (codes "a")
        (codes "v")
        (options plain_settings)
        []
      ≡ (
        ok (
            put_result small_env through
              (map grpc_option (4 ∷ []))
              tt
              (to_reply small_env no_wait no_wait (4 ∷ []) wire stored r w')
              w'),
        w',
      ))
    × (w' ≡ [] ++ map (λ r. r) es)
    × Retried small_env once es
    × (length es ≤ 10)
    × Ended small_env once tt 0 10 none r es
kv_put-attempts_example =
    kv_put-attempts small_env no_wait no_wait (4 ∷ []) wire stored tt (λ req r. r) (λ w. w)
      (λ req. flaky-logs) (λ t w. (none, w, refl, refl)) (λ a w. refl) through (codes "t")
      (codes "a") (codes "v") plain_settings [] (λ req w. refl) refl

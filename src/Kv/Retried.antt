-- ===== src/Kv/Retried.antt =====
-- A put through the interceptor for retries: from the caller's call to the calls that the server gets.
use regatta_go.Prelude.{
  ℕ, ◌≤◌, ◌≡◌, refl, ◌∙◌, ℤ, false, true, ◌||◌, Option, none, some, List, [], ◌∷◌, ◌++◌, map,
  length,
}
use regatta_go.Go.{ok, Bytes}
use regatta_go.Go.Run.{Run, ◌>>=◌, >>=-known}
use regatta_go.Env.{Env, Reply, resp, fail}
use regatta_go.Context.{with_version}
use regatta_go.Proto
use regatta_go.Proto.{PutRequest}
use regatta_go.Retry.{
  BackoffFunc, RetryOption, Options, CallOption, grpc_option, default_options,
  default_unary_max_retries, non_repeatable, reuse_or_new_with_call_options, filter_call_options,
}
use regatta_go.Options.Settings.{Setting, options, uses, is_ranged, is_prev_kv}
use regatta_go.Options.Accepts.{for_range}
use regatta_go.Interceptor.{unary_client_interceptor, Invoker, unary_loop}
use regatta_go.Interceptor.Endings.{Retried, Ended}
use regatta_go.Interceptor.Attempts.{unary_loop-attempts}
use regatta_go.Kv.{KvClient, kv_put, retry_kv_client, new_kv}
use regatta_go.Kv.CallOptions.{filter-only}
use regatta_go.Kv.Puts.{put_result, kv_put-sends}

abbrev pub request : Bytes → Bytes → Bytes → List Setting → PutRequest
request table key val ss = record {
  table = table;
  key = key;
  value = val;
  prev_kv = uses is_prev_kv ss;
}

module _ (env : Env) (bf rr : BackoffFunc env) (gs : List env.GrpcOption)
    (wire : env.Ctx → PutRequest → List env.GrpcOption → Run env.World (Option env.Err))
    (out : env.World → Proto.PutResponse) where
  open env use {World, Err, Ctx}

  -- The options that `dialSetupOpts` gives the interceptor.
  abbrev pub retry_funcs : List (RetryOption env)
  retry_funcs =
      (λ o. record o { max = default_unary_max_retries })
      ∷ (λ o. record o { backoff_func = rr })
      ∷ []

  -- gRPC's part of a stub's call: the interceptor stands around the wire, and the reply is what the
  -- wire has written.
  abbrev pub reply_of : Option Err → Run World (Reply Err Proto.PutResponse)
  reply_of none w = (ok (resp (out w)), w)
  reply_of (some e) w = (ok (fail e), w)

  abbrev pub intercepted :
      Ctx → PutRequest → List (CallOption env) → Run World (Reply Err Proto.PutResponse)
  intercepted ctx req opts =
      unary_client_interceptor env (default_options env bf) retry_funcs (λ c g. wire c req g) ctx
        opts
      >>= reply_of

  abbrev pub to_reply : Option Err → World → Reply Err Proto.PutResponse
  to_reply none w = resp (out w)
  to_reply (some e) w = fail e

  reply_of-eq : (r : Option Err) (w : World) → reply_of r w ≡ (ok (to_reply r w), w)
  reply_of-eq none w = refl
  reply_of-eq (some e) w = refl

  -- The options in force for a put.
  abbrev pub put_options : Options env
  put_options = record {
    retry_policy = non_repeatable;
    max = default_unary_max_retries;
    backoff_func = rr;
    retry_auth = true;
  }

  interceptor-loop :
      (ctx : Ctx) (req : PutRequest)
      → unary_client_interceptor env
          (default_options env bf)
          retry_funcs
          (λ c g. wire c req g)
          ctx
          (map grpc_option gs)
        ≡ unary_loop env (λ c g. wire c req g) (with_version env ctx) gs put_options 10 0 none
  unfolding unary_client_interceptor reuse_or_new_with_call_options default_options
      filter_call_options
  interceptor-loop ctx req = rw (filter-only env bf rr gs) refl

  -- Each put that reaches the server adds an entry with its message and its result; waiting adds none
  -- and does not panic.
  module _ (ctx : Ctx) {Entry : Type 0} (entry : PutRequest → Option Err → Entry)
      (log : World → List Entry)
      (calls : (req : PutRequest) (w : World)
        → (r : Option Err) × (w' : World) × (wire (with_version env ctx) req gs w ≡ (ok r, w'))
          × (log w' ≡ log w ++ entry req r ∷ []))
      (waits : (t : ℤ) (w : World)
        → (r : Option Err) × (w' : World) × (env.wait (with_version env ctx) t w ≡ (ok r, w'))
          × (log w' ≡ log w))
      (chooses : (a : ℕ) (w : World) → log (rr a w).1 ≡ log w) where
    intercepted-attempts :
        (req : PutRequest) (w : World)
        → (r : Option Err) × (es : List (Option Err)) × (w' : World) × (intercepted ctx req
              (map grpc_option gs)
              w
            ≡ (ok (to_reply r w'), w'))
          × (log w' ≡ log w ++ map (entry req) es)
          × Retried env put_options es
          × (length es ≤ 10)
          × Ended env put_options (with_version env ctx) 0 10 none r es
    intercepted-attempts req w =
        let invoker : Invoker env = λ c g. wire c req g in
        let loop = unary_loop env invoker (with_version env ctx) gs put_options 10 0 none in
        let (r, es, e, l, retried, le, end) =
          unary_loop-attempts env put_options invoker (with_version env ctx) gs (entry req) log
            (calls req) waits chooses 10 0 none w in
        let w' = (loop w).1 in
        (
          r,
          es,
          w',
          rw (interceptor-loop ctx req) (>>=-known loop reply_of w (λ i. (e i, w')))
              ∙ reply_of-eq r w',
          l,
          retried,
          le,
          end,
        )

    -- A put with accepted options, through a client without hooks whose stub has the interceptor
    -- for retries in front, ends, if each call of the server returns and adds an entry to the log,
    -- and waiting and choosing a wait neither panic nor add one: the server has got at most ten puts,
    -- all with the same message, which has the caller's table, key and value, each but the last
    -- answered by an error with the code of a context's end or one that is safe for a call that is not
    -- repeatable. The caller gets the response of the last one, or an error. Why there was no further
    -- put is said by `Ended`: the result is that of the last put, and it is no error to retry after, or
    -- ten were sent, or the context is over; or else a wait between two puts was interrupted. So there
    -- is at least one put, and a response only if the last one succeeded.
    pub kv_put-attempts :
        (client : KvClient env) (table key val : Bytes) (ss : List Setting) (w : World)
        → ((req : PutRequest) (w : World)
            → client.put ctx req (map grpc_option gs) w
              ≡ intercepted ctx req (map grpc_option gs) w)
        → (uses is_ranged ss || for_range ss) ≡ false
        → let req = request table key val ss in
          (r : Option Err) × (es : List (Option Err)) × (w' : World) × (kv_put env
              (new_kv env client (map grpc_option gs) [])
              ctx
              table
              key
              val
              (options ss)
              w
            ≡ (ok (put_result env client (map grpc_option gs) ctx (to_reply r w') w'), w'))
          × (log w' ≡ log w ++ map (entry req) es)
          × Retried env put_options es
          × (length es ≤ 10)
          × Ended env put_options (with_version env ctx) 0 10 none r es
    unfolding new_kv retry_kv_client
    kv_put-attempts client table key val ss w stub accepted =
        let req = request table key val ss in
        let (r, es, w', e, l, retried, le, end) = intercepted-attempts req w in
        (
          r,
          es,
          w',
          (kv_put-sends env (retry_kv_client env client) (map grpc_option gs) ctx table key val ss w
              w' (to_reply r w') accepted (stub req w ∙ e)).0,
          l,
          retried,
          le,
          end,
        )

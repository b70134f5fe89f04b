-- ===== src/Kv/CallOptions.antt =====
-- The retry options that reach the interceptors for each kind of call: those of the client
-- (client.go, `dialSetupOpts`) changed by those that `retryKVClient` adds to the call.
use mathlib.Core.List.{append-nil}
use regatta_go.Prelude.{◌≡◌, refl, List, [], ◌∷◌, ◌++◌, map}
use regatta_go.Env.{Env}
use regatta_go.Proto.{RangeRequest}
use regatta_go.Retry.{
  repeatable, non_repeatable, Options, CallOption, grpc_option, BackoffFunc, with_repeatable,
  with_max, default_options, reuse_or_new_with_call_options, filter_call_options,
  default_unary_max_retries, iterate_range_retries,
}
use regatta_go.Kv.{KvClient, retry_kv_client}

module _ (env : Env) (bf rr : BackoffFunc env) where
  open env use {GrpcOption, Ctx}

  -- `unaryClientInterceptor(withMax(defaultUnaryMaxRetries), rrBackoff)`
  abbrev pub unary_options : Options env
  unary_options = reuse_or_new_with_call_options env (default_options env bf) (
      (λ o. record o { max = default_unary_max_retries })
      ∷ (λ o. record o { backoff_func = rr })
      ∷ [])

  -- `streamClientInterceptor(withMax(0), rrBackoff)`
  abbrev pub stream_options : Options env
  stream_options =
      reuse_or_new_with_call_options env (default_options env bf)
        ((λ o. record o { max = 0 }) ∷ (λ o. record o { backoff_func = rr }) ∷ [])

  -- What an interceptor works with for a call with these options.
  abbrev pub in_force : Options env → List (CallOption env) → Options env
  in_force int_opts opts =
      reuse_or_new_with_call_options env int_opts (filter_call_options env opts).1

  filter-map :
      (gs : List GrpcOption) (opts : List (CallOption env))
      → filter_call_options env (map grpc_option gs ++ opts)
        ≡ (let (gs', rs) = filter_call_options env opts in (gs ++ gs', rs))
  unfolding filter_call_options
  filter-map [] opts = refl
  filter-map (g ∷ gs) opts = rw (filter-map gs opts)

  pub filter-only : (gs : List GrpcOption) → filter_call_options env (map grpc_option gs) ≡ (gs, [])
  unfolding filter_call_options
  filter-only [] = refl
  filter-only (g ∷ gs) = rw (filter-only gs)

  -- The client's own options, none of them a retry option, reach the server side as they are, and a get
  -- is retried as a repeatable call up to 10 attempts, an iteration, whose interceptor has no retries by
  -- default, as a repeatable one up to 5, and a put, a deletion and a transaction as calls that are not
  -- repeatable up to 10.
  pub retry_options :
      (client : KvClient env) (ctx : Ctx) (gs : List GrpcOption) (req : RangeRequest)
      → (o o' : List (CallOption env)) × ((retry_kv_client env client).range ctx req
            (map grpc_option gs)
          ≡ client.range ctx req o)
        × ((filter_call_options env o).0 ≡ gs)
        × ((in_force unary_options o).retry_policy ≡ repeatable)
        × ((in_force unary_options o).max ≡ 10)
        × ((retry_kv_client env client).iterate_range ctx req (map grpc_option gs)
            ≡ client.iterate_range ctx req o')
        × ((filter_call_options env o').0 ≡ gs)
        × ((in_force stream_options o').retry_policy ≡ repeatable)
        × ((in_force stream_options o').max ≡ 5)
        × ((in_force unary_options (map grpc_option gs)).retry_policy ≡ non_repeatable)
        × ((in_force unary_options (map grpc_option gs)).max ≡ 10)
        × ((retry_kv_client env client).put ≡ client.put)
        × ((retry_kv_client env client).delete_range ≡ client.delete_range)
        × ((retry_kv_client env client).txn ≡ client.txn)
  unfolding retry_kv_client reuse_or_new_with_call_options filter_call_options default_options
      with_repeatable with_max
  retry_options client ctx gs req = (
    map grpc_option gs ++ with_repeatable env ∷ [],
    map grpc_option gs ++ with_repeatable env ∷ with_max env iterate_range_retries ∷ [],
    refl,
    rw filter-map (append-nil gs),
    rw filter-map refl,
    rw filter-map refl,
    refl,
    rw filter-map (append-nil gs),
    rw filter-map refl,
    rw filter-map refl,
    rw filter-only refl,
    rw filter-only refl,
    refl,
    refl,
    refl,
  )

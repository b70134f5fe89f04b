-- ===== src/Retry.antt =====
-- kv.go and interceptor.go: the retry options of a call, carried among its gRPC options.
use regatta_go.Prelude.{ℕ, ℤ, Bool, true, List, [], ◌∷◌, if◌then◌else◌}
use regatta_go.Go.{is_empty}
use regatta_go.Env.{Env}

-- `unknown_policy` stands for the values of the uint8 that have no name.
pub data RetryPolicy : Type 0 where
  repeatable non_repeatable unknown_policy : RetryPolicy

module _ (env : Env) where
  open env use {World, GrpcOption}

  -- The time to wait before an attempt, in nanoseconds; it may read and change the world.
  abbrev pub BackoffFunc : Type 0
  BackoffFunc = ℕ → World → ℤ × World

  pub record Options : Type 0 where
    pub retry_policy : RetryPolicy
    pub max : ℕ
    pub backoff_func : BackoffFunc
    pub retry_auth : Bool

  pub data CallOption : Type 0 where
    grpc_option : GrpcOption → CallOption
    retry_option : (Options → Options) → CallOption

  -- The applied function of a `retryOption`.
  abbrev pub RetryOption : Type 0
  RetryOption = Options → Options

  unfoldable pub with_repeatable : CallOption
  with_repeatable = retry_option (λ o. record o { retry_policy = repeatable })

  unfoldable pub with_max : ℕ → CallOption
  with_max n = retry_option (λ o. record o { max = n })

  unfoldable pub with_backoff : BackoffFunc → CallOption
  with_backoff bf = retry_option (λ o. record o { backoff_func = bf })

  -- `defaultOptions`, with its jittered backoff of 50 ms as an argument.
  unfoldable pub default_options : BackoffFunc → Options
  default_options bf = record {
    retry_policy = non_repeatable;
    max = 0;
    backoff_func = bf;
    retry_auth = true;
  }

  unfoldable pub apply_options : Options → List RetryOption → Options
  apply_options o [] = o
  apply_options o (f ∷ fs) = apply_options (f o) fs

  -- The options are copied before they are written to.
  unfoldable pub reuse_or_new_with_call_options : Options → List RetryOption → Options
  unfolding apply_options
  reuse_or_new_with_call_options o fs = if is_empty fs then o else apply_options o fs

  unfoldable pub filter_call_options : List CallOption → List GrpcOption × List RetryOption
  filter_call_options [] = ([], [])
  filter_call_options (grpc_option g ∷ os) = let (gs, rs) = filter_call_options os in (g ∷ gs, rs)
  filter_call_options (retry_option r ∷ os) = let (gs, rs) = filter_call_options os in (gs, r ∷ rs)

-- options.go
abbrev pub default_unary_max_retries : ℕ
default_unary_max_retries = 10

abbrev pub iterate_range_retries : ℕ
iterate_range_retries = 5

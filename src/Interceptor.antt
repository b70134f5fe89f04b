-- ===== src/Interceptor.antt =====
-- interceptor.go: the retries of a unary call. What the code logs is left out. An error that may be
-- nil is an `Option`.
pub mod SafeErrors
pub mod Endings
pub mod Attempts
pub mod Writes
pub mod Streams
pub mod Resends
pub mod Receives
use regatta_go.Prelude.{
  ℕ, zero, suc, ◌+◌, ℤ, pos, negsuc, Bool, true, false, not, ◌&&◌, ◌||◌, Option, none, some, List,
  [], ◌∷◌, if◌then◌else◌, ◌==◌,
}
use regatta_go.Go.{ok, Bytes, bytes_eq, codes}
use regatta_go.Go.Run.{Run, pure, gets, ◌>>=◌}
use regatta_go.Env.{Env, Code, canceled, deadline_exceeded, unavailable, unknown, StatusInfo}
use regatta_go.Retry.{
  RetryPolicy, repeatable, non_repeatable, unknown_policy, Options, CallOption, RetryOption,
  reuse_or_new_with_call_options, filter_call_options,
}
use regatta_go.Context.{with_version}

abbrev pub is_context_code : Code → Bool
is_context_code deadline_exceeded = true
is_context_code canceled = true
is_context_code _ = false

abbrev pub is_unavailable : Code → Bool
is_unavailable unavailable = true
is_unavailable _ = false

-- `waitTime > 0`
abbrev pub is_positive : ℤ → Bool
is_positive (pos zero) = false
is_positive (pos (suc n)) = true
is_positive (negsuc n) = false

module _ (env : Env) where
  open env use {
    World, Err, Ctx, GrpcOption, ctx_err, from_error, status_code, error_text, is_deadline,
    is_canceled, status_error, wait,
  }

  unfoldable pub is_context_error : Err → Bool
  is_context_error e = is_context_code (status_code e)

  unfoldable pub context_err_to_grpc_err : Err → Err
  context_err_to_grpc_err e =
      if is_deadline e
      then status_error deadline_exceeded (error_text e)
      else if is_canceled e
      then status_error canceled (error_text e)
      else status_error unknown (error_text e)

  unfoldable pub is_safe_retry_immutable_rpc : Err → Bool
  is_safe_retry_immutable_rpc e = elim (from_error e) [
    | none ↦ false
    | some ev ↦ is_unavailable ev.code
  ]

  unfoldable pub error_desc : Err → Bytes
  error_desc e = elim (from_error e) [ none ↦ error_text e | some s ↦ s.message ]

  abbrev pub no_address : Bytes
  no_address = codes "there is no address available"

  abbrev pub no_connection : Bytes
  no_connection = codes "there is no connection available"

  -- `ok && ev.Code() != codes.Unavailable`
  abbrev pub other_status : Option StatusInfo → Bool
  other_status none = false
  other_status (some ev) = not (is_unavailable ev.code)

  unfoldable pub is_safe_retry_mutable_rpc : Err → Bool
  unfolding error_desc
  is_safe_retry_mutable_rpc e =
      if other_status (from_error e)
      then false
      else bytes_eq (error_desc e) no_address || bytes_eq (error_desc e) no_connection

  by_policy : RetryPolicy → Err → Bool
  by_policy repeatable e = is_safe_retry_immutable_rpc e
  by_policy non_repeatable e = is_safe_retry_mutable_rpc e
  by_policy unknown_policy e = false

  unfoldable pub is_safe_retry : Err → Options env → Bool
  unfolding is_context_error by_policy is_safe_retry_immutable_rpc is_safe_retry_mutable_rpc
  is_safe_retry e opts = if is_context_error e then false else by_policy opts.retry_policy e

  -- The `select` on the timer and the end of the context.
  wait_time : Ctx → ℤ → Run World (Option Err)
  unfolding context_err_to_grpc_err
  wait_time ctx t =
      if is_positive t
      then (do
        e ← wait ctx t
        pure (elim e [ none ↦ none | some x ↦ some (context_err_to_grpc_err x) ]))
      else pure none

  -- No wait before attempt 0.
  unfoldable pub wait_retry_backoff : Ctx → ℕ → Options env → Run World (Option Err)
  unfolding wait_time
  wait_retry_backoff ctx zero opts = pure none
  wait_retry_backoff ctx (suc n) opts = do
    t ← (λ w. let (t, w') = opts.backoff_func (suc n) w in (ok t, w'))
    wait_time ctx t

  -- The rest of a call to the server: it changes the world and gives its error.
  abbrev pub Invoker : Type 0
  Invoker = Ctx → List GrpcOption → Run World (Option Err)

  -- What the body of the loop does with the error of an attempt: `some r` leaves the loop with
  -- the result `r`, `none` goes on.
  unfoldable pub verdict : Ctx → Options env → Option Err → Run World (Option (Option Err))
  verdict ctx opts none w = (ok (some none), w)
  verdict ctx opts (some e) w = (
    ok (
        if is_context_error e
        then (elim (ctx_err ctx w) [ none ↦ none | some c ↦ some (some e) ])
        else if is_safe_retry e opts
        then none
        else some (some e)),
    w,
  )

  -- The `for` loop with `n` attempts left.
  unfoldable pub unary_loop :
      Invoker → Ctx → List GrpcOption → Options env → ℕ → ℕ → Option Err → Run World (Option Err)
  unary_loop invoker ctx gopts opts zero attempt last = pure last
  unary_loop invoker ctx gopts opts (suc n) attempt last = do
    stopped ← wait_retry_backoff ctx attempt opts
    elim stopped [
      | some e ↦ pure (some e)
      | none ↦ do
        err ← invoker ctx gopts
        v ← verdict ctx opts err
        elim v [ some r ↦ pure r | none ↦ unary_loop invoker ctx gopts opts n (suc attempt) err ]
    ]

  unfoldable pub unary_client_interceptor :
      Options env
      → List (RetryOption env)
      → Invoker
      → Ctx
      → List (CallOption env)
      → Run World (Option Err)
  unfolding unary_loop
  unary_client_interceptor defaults opt_funcs invoker ctx opts =
      let int_opts = reuse_or_new_with_call_options env defaults opt_funcs in
      let (gopts, ropts) = filter_call_options env opts in
      let call_opts = reuse_or_new_with_call_options env int_opts ropts in
      let ctx' = with_version env ctx in
      if call_opts.max == 0
      then invoker ctx' gopts
      else unary_loop invoker ctx' gopts call_opts call_opts.max 0 none

-- ===== src/Interceptor/SafeErrors.antt =====
-- interceptor.go: after which errors a unary call may be made again, told by status codes and texts.
use regatta_go.Prelude.{
  ◌≡◌, refl, Bool, true, false, not, ◌&&◌, ◌||◌, Option, none, some, inl, inr, Option-cases,
  if◌then◌else◌,
}
use regatta_go.Go.{Bytes, bytes_eq, codes}
use regatta_go.Env.{Env, Code, canceled, unavailable, StatusInfo}
use regatta_go.Env.Reported.{ends_context}
use regatta_go.Retry.{RetryPolicy, repeatable, non_repeatable, unknown_policy, Options}
use regatta_go.Interceptor.{
  is_context_code, is_unavailable, is_context_error, by_policy, is_safe_retry_immutable_rpc,
  is_safe_retry_mutable_rpc, error_desc, is_safe_retry,
}

abbrev pub is_down : Code → Bool
is_down unavailable = true
is_down _ = false

-- The texts of an error that arises before anything is sent.
abbrev pub unsent : Bytes → Bool
unsent text =
    bytes_eq text (codes "there is no address available")
    || bytes_eq text (codes "there is no connection available")

-- The errors that are safe to retry, by their status and text: for a repeatable call that the server is
-- not available, for another one that nothing was sent.
abbrev pub safe : RetryPolicy → Option StatusInfo → Bytes → Bool
safe repeatable none text = false
safe repeatable (some st) text = is_down st.code
safe non_repeatable none text = unsent text
safe non_repeatable (some st) text = is_down st.code && unsent st.message
safe unknown_policy st text = false

-- The errors after which there may be another call: those of a context, and those that are safe.
abbrev pub may_retry : (env : Env) → Options env → Option env.Err → Bool
may_retry env opts none = false
may_retry env opts (some e) =
    ends_context (env.status_code e) || safe opts.retry_policy (env.from_error e) (env.error_text e)

ends_context-eq : (c : Code) → is_context_code c ≡ ends_context c
ends_context-eq canceled = refl
ends_context-eq _ = refl

is_down-eq : (c : Code) → is_unavailable c ≡ is_down c
is_down-eq unavailable = refl
is_down-eq _ = refl

module _ (env : Env) (opts : Options env) where
  pub context-eq : (e : env.Err) → is_context_error env e ≡ ends_context (env.status_code e)
  unfolding is_context_error
  context-eq e = ends_context-eq (env.status_code e)

  safe-immutable :
      (e : env.Err)
      → is_safe_retry_immutable_rpc env e ≡ safe repeatable (env.from_error e) (env.error_text e)
  unfolding is_safe_retry_immutable_rpc
  safe-immutable e = elim (Option-cases (env.from_error e)) [
    | inl h ↦ rw (h, is_safe_retry_immutable_rpc) refl
    | inr (st, h) ↦ rw (h, is_safe_retry_immutable_rpc) (is_down-eq st.code)
  ]

  tested : (c : Code) (x : Bool) → (if not (is_unavailable c) then false else x) ≡ (is_down c && x)
  tested unavailable x = refl
  tested _ x = refl

  safe-mutable :
      (e : env.Err)
      → is_safe_retry_mutable_rpc env e ≡ safe non_repeatable (env.from_error e) (env.error_text e)
  unfolding is_safe_retry_mutable_rpc error_desc
  safe-mutable e = elim (Option-cases (env.from_error e)) [
    | inl h ↦ rw (h, error_desc) refl
    | inr (st, h) ↦ rw (h, error_desc) (tested st.code (unsent st.message))
  ]

  by_policy-eq :
      (p : RetryPolicy) (e : env.Err)
      → by_policy env p e ≡ safe p (env.from_error e) (env.error_text e)
  unfolding by_policy
  by_policy-eq repeatable e = safe-immutable e
  by_policy-eq non_repeatable e = safe-mutable e
  by_policy-eq unknown_policy e = refl

  either : (c x : Bool) → (c || (if c then false else x)) ≡ (c || x)
  either true x = refl
  either false x = refl

  pub may_retry-eq :
      (e : env.Err)
      → (is_context_error env e || is_safe_retry env e opts) ≡ may_retry env opts (some e)
  unfolding is_safe_retry
  may_retry-eq e =
      rw (← context-eq e, ← by_policy-eq opts.retry_policy e)
        (either (is_context_error env e) (by_policy env opts.retry_policy e))

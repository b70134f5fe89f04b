-- ===== src/Interceptor/Endings.antt =====
-- interceptor.go: the results of a unary call's attempts, and why there is no further attempt.
use regatta_go.Prelude.{
  ℕ, suc, ◌+◌, ◌<◌, ◌≡◌, ap, ◌∙◌, sym, ℤ, true, false, Option, some, List, [], ◌∷◌, ◌++◌, length,
  arith,
}
use regatta_go.Go.{ok, is_set}
use regatta_go.Env.{Env}
use regatta_go.Env.Reported.{ends_context}
use regatta_go.Retry.{Options}
use regatta_go.Interceptor.{context_err_to_grpc_err}
use regatta_go.Interceptor.SafeErrors.{may_retry}

-- Each result but the last allows another attempt.
abbrev pub Retried : (env : Env) → Options env → List (Option env.Err) → Type 0
Retried env opts [] = Unit
Retried env opts (x ∷ []) = Unit
Retried env opts (x ∷ y ∷ rs) = (may_retry env opts x ≡ true) × Retried env opts (y ∷ rs)

module _ (env : Env) (opts : Options env) (ctx : env.Ctx) where
  -- A wait, not before the first call of all, reported `r`, the error of the context as a status.
  pub data Interrupted (calls : ℕ) (r : Option env.Err) : Type 0 where
    interrupted :
        (t : ℤ) (v : env.World) (x : env.Err)
        → 0 < calls
        → (env.wait ctx t v).0 ≡ ok (some x)
        → r ≡ some (context_err_to_grpc_err env x)
        → Interrupted calls r

  -- Why a loop that begins with attempt `a`, `n` attempts and the result `last`, and has made calls with
  -- the results `es`, returns `r`: it had no attempt, or a wait was interrupted, or `r` is the result of
  -- the last call and no error to retry after, or the attempts are used up, or the context is over.
  pub data Ended (a n : ℕ) (last r : Option env.Err) (es : List (Option env.Err)) : Type 0 where
    unused : n ≡ 0 → es ≡ [] → r ≡ last → Ended a n last r es
    waited : Interrupted (a + length es) r → Ended a n last r es
    final :
        (before : List (Option env.Err))
        → es ≡ before ++ r ∷ []
        → may_retry env opts r ≡ false
        → Ended a n last r es
    spent :
        (before : List (Option env.Err))
        → es ≡ before ++ r ∷ []
        → length es ≡ n
        → Ended a n last r es
    over :
        (before : List (Option env.Err)) (e : env.Err) (v : env.World)
        → es ≡ before ++ r ∷ []
        → r ≡ some e
        → ends_context (env.status_code e) ≡ true
        → is_set (env.ctx_err ctx v) ≡ true
        → Ended a n last r es

  -- A call in front.
  pub Ended-cons :
      (a n : ℕ) (last x r : Option env.Err) (es : List (Option env.Err))
      → Ended (suc a) n x r es
      → Ended a (suc n) last r (x ∷ es)
  Ended-cons a n last x r es (unused none_left empty same) =
      spent [] (λ i. sym same i ∷ empty i)
        (ap (λ xs. suc (length xs)) empty ∙ ap suc (sym none_left))
  Ended-cons a n last x r es (waited (interrupted t v y some_call h e)) =
      waited (interrupted t v y (omega arith) h e)
  Ended-cons a n last x r es (final before e h) = final (x ∷ before) (ap (λ xs. x ∷ xs) e) h
  Ended-cons a n last x r es (spent before e h) =
      spent (x ∷ before) (ap (λ xs. x ∷ xs) e) (ap suc h)
  Ended-cons a n last x r es (over before y v e s c d) =
      over (x ∷ before) y v (ap (λ xs. x ∷ xs) e) s c d

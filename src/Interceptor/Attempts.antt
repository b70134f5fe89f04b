-- ===== src/Interceptor/Attempts.antt =====
-- The attempts of a unary call: how many there are, after which errors there is another one, and why
-- there is no other.
use native.Mathlib.Nat.{add-zero}
use mathlib.Core.List.{append-nil, append_assoc}
use regatta_go.Prelude.{
  ℕ, zero, suc, ◌<◌, ◌≤◌, ◌≡◌, refl, ap, ◌∙◌, sym, ℤ, true, false, Option, none, some, List, [],
  ◌∷◌, ◌++◌, map, length, ◌⊎◌, inl, inr, Bool-cases, Option-cases, arith,
}
use regatta_go.Go.{Go, ok, is_set}
use regatta_go.Go.Run.{Run, pure, ◌>>=◌, >>=-known}
use regatta_go.Env.{Env}
use regatta_go.Env.Reported.{ends_context}
use regatta_go.Retry.{Options}
use regatta_go.Interceptor.{
  is_positive, is_context_error, context_err_to_grpc_err, is_safe_retry, wait_time,
  wait_retry_backoff, Invoker, verdict, unary_loop,
}
use regatta_go.Interceptor.Endings.{
  Retried, Interrupted, interrupted, Ended, unused, waited, final, over, Ended-cons,
}
use regatta_go.Interceptor.SafeErrors.{may_retry, context-eq, may_retry-eq}

-- `log` has an entry for each call to the server so far: a call returns and adds that of its
-- result, and neither waiting nor the choice of a waiting time adds any or panics.
module _ (env : Env) (opts : Options env) (invoker : Invoker env) (ctx : env.Ctx)
    (gopts : List env.GrpcOption) {Entry : Type 0} (entry : Option env.Err → Entry)
    (log : env.World → List Entry)
    (calls : (w : env.World)
      → (r : Option env.Err) × (w' : env.World) × (invoker ctx gopts w ≡ (ok r, w'))
        × (log w' ≡ log w ++ entry r ∷ []))
    (waits : (t : ℤ) (w : env.World)
      → (r : Option env.Err) × (w' : env.World) × (env.wait ctx t w ≡ (ok r, w'))
        × (log w' ≡ log w))
    (chooses : (a : ℕ) (w : env.World) → log (opts.backoff_func a w).1 ≡ log w) where
  -- What a wait before a call returns.
  abbrev Passed : ℕ → Option env.Err → Type 0
  Passed k none = Unit
  Passed k (some e) = Interrupted env opts ctx k (some e)

  abbrev Waits : ℕ → Go (Option env.Err) × env.World → env.World → Type 0
  Waits k p w =
      (r : Option env.Err) × (w' : env.World) × (p ≡ (ok r, w')) × (log w' ≡ log w) × Passed k r

  wait_time-Waits : (k : ℕ) (t : ℤ) (w : env.World) → 0 < k → Waits k (wait_time env ctx t w) w
  unfolding wait_time
  wait_time-Waits k t w some_call = elim (Bool-cases (is_positive t)) [
    | inr h ↦ (none, w, rw h refl, refl, tt)
    | inl h ↦ rw h (by_wait (waits t w))
  ]
    where
      by_wait :
          (r : Option env.Err) × (w' : env.World) × (env.wait ctx t w ≡ (ok r, w'))
            × (log w' ≡ log w)
          → Waits k
              ((do
                e ← env.wait ctx t
                pure (elim e [ none ↦ none | some x ↦ some (context_err_to_grpc_err env x) ]))
                w)
              w
      by_wait (none, w', h, l) = (none, w', >>=-known (env.wait ctx t) _ w h, l, tt)
      by_wait (some x, w', h, l) = (
        some (context_err_to_grpc_err env x),
        w',
        >>=-known (env.wait ctx t) _ w h,
        l,
        interrupted t w x some_call (ap (λ p. p.0) h) refl,
      )

  backoff-Waits : (a : ℕ) (w : env.World) → Waits a (wait_retry_backoff env ctx a opts w) w
  unfolding wait_retry_backoff
  backoff-Waits zero w = (none, w, refl, refl, tt)
  backoff-Waits (suc a) w =
      let p = opts.backoff_func (suc a) w in
      let (r, w', h, l, passed) = wait_time-Waits (suc a) p.0 p.1 (omega arith) in
      (r, w', h, l ∙ chooses (suc a) w, passed)

  -- What the loop makes of a result: it goes on only where a retry is allowed, and ends with it where
  -- none is, or where the context is over.
  verdict-cases :
      (r : Option env.Err) (w : env.World)
      → ((verdict env ctx opts r w ≡ (ok (some r), w)) × (may_retry env opts r ≡ false))
        ⊎ ((verdict env ctx opts r w ≡ (ok (some r), w))
            × (e : env.Err) × (r ≡ some e)
            × (ends_context (env.status_code e) ≡ true)
            × (is_set (env.ctx_err ctx w) ≡ true))
        ⊎ ((may_retry env opts r ≡ true) × (verdict env ctx opts r w ≡ (ok none, w)))
  unfolding verdict
  verdict-cases none w = inl (refl, refl)
  verdict-cases (some e) w = elim (Bool-cases (is_context_error env e)) [
    | inl c ↦ elim (Option-cases (env.ctx_err ctx w)) [
      | inl live ↦ inr (inr (rw (← may_retry-eq env opts e) (rw c refl), rw (c, live) refl))
      | inr (x, ended) ↦
          inr (inl (rw (c, ended) refl, e, refl, sym (context-eq env opts e) ∙ c, ap is_set ended))
    ]
    | inr c ↦ elim (Bool-cases (is_safe_retry env e opts)) [
      | inl safe ↦ inr (inr (rw (← may_retry-eq env opts e) (rw (c, safe) refl), rw (c, safe) refl))
      | inr unsafe ↦ inl (rw (c, unsafe) refl, rw (← may_retry-eq env opts e) (rw (c, unsafe) refl))
    ]
  ]

  loop : ℕ → ℕ → Option env.Err → Run env.World (Option env.Err)
  loop n a last = unary_loop env invoker ctx gopts opts n a last

  -- A run of the loop: it returns, and has made the calls `es`.
  abbrev Made : ℕ → ℕ → Option env.Err → Go (Option env.Err) × env.World → List Entry → Type 0
  Made n a last p before =
      (r : Option env.Err) × (es : List (Option env.Err)) × (p.0 ≡ ok r)
      × (log p.1 ≡ before ++ map entry es)
      × Retried env opts es
      × (length es ≤ n)
      × Ended env opts ctx a n last r es

  Made-nil :
      (n a : ℕ) (last r : Option env.Err) (w : env.World) (before : List Entry)
      → log w ≡ before
      → Ended env opts ctx a n last r []
      → Made n a last (ok r, w) before
  Made-nil n a last r w before h end =
      (r, [], refl, h ∙ sym (append-nil before), tt, omega arith, end)

  -- A call whose result allows a retry, in front of a run.
  Retried-cons :
      (x : Option env.Err) (es : List (Option env.Err))
      → may_retry env opts x ≡ true
      → Retried env opts es
      → Retried env opts (x ∷ es)
  Retried-cons x [] m h = tt
  Retried-cons x (y ∷ es) m h = (m, h)

  Made-cons :
      (n a : ℕ) (last x : Option env.Err) (p : Go (Option env.Err) × env.World)
      (before : List Entry)
      → may_retry env opts x ≡ true
      → Made n (suc a) x p (before ++ entry x ∷ [])
      → Made (suc n) a last p before
  Made-cons n a last x p before m (r, es, e, l, h, le, end) = (
    r,
    x ∷ es,
    e,
    l ∙ append_assoc before (entry x ∷ []) (map entry es),
    Retried-cons x es m h,
    omega arith,
    Ended-cons env opts ctx a n last x r es end,
  )

  -- The result `r` of a call, and what the loop makes of it.
  called :
      (n a : ℕ) (last : Option env.Err) (w w' : env.World) (r : Option env.Err)
      → ((verdict env ctx opts r >>= λ v. elim v [
        | some x ↦ pure x
        | none ↦ unary_loop env invoker ctx gopts opts n (suc a) r
      ])
          w')
        ≡ loop (suc n) a last w
      → log w' ≡ log w ++ entry r ∷ []
      → Made n (suc a) r (loop n (suc a) r w') (log w')
      → Made (suc n) a last (loop (suc n) a last w) (log w)
  unfolding loop
  called n a last w w' r e l ih = elim (verdict-cases r w') [
    | inl (v, h) ↦ left v (final [] refl h)
    | inr (inl (v, x, s, c, ended)) ↦ left v (over [] x w' refl s c ended)
    | inr (inr (m, v)) ↦
        rw (← (sym (>>=-known (verdict env ctx opts r) _ w' v) ∙ e))
          (Made-cons n a last r (loop n (suc a) r w') (log w) m (rw l at ih))
  ]
    where
      left :
          verdict env ctx opts r w' ≡ (ok (some r), w')
          → Ended env opts ctx a (suc n) last r (r ∷ [])
          → Made (suc n) a last (loop (suc n) a last w) (log w)
      left v end =
          rw (← (sym (>>=-known (verdict env ctx opts r) _ w' v) ∙ e))
            (r, r ∷ [], refl, l, tt, omega arith, end)

  loop-Made :
      (n a : ℕ) (last : Option env.Err) (w : env.World) → Made n a last (loop n a last w) (log w)
  unfolding loop unary_loop
  loop-Made zero a last w = Made-nil zero a last last w (log w) refl (unused refl refl refl)
  loop-Made (suc n) a last w = by_wait (loop-Made n (suc a)) (backoff-Waits a w)
    where
      by_wait :
          ((l : Option env.Err) (v : env.World) → Made n (suc a) l (loop n (suc a) l v) (log v))
          → Waits a (wait_retry_backoff env ctx a opts w) w
          → Made (suc n) a last (loop (suc n) a last w) (log w)
      by_wait ih (some e, w', h, l, i) =
          rw (>>=-known (wait_retry_backoff env ctx a opts) _ w h)
            (Made-nil (suc n) a last (some e) w' (log w) l (waited (rw add-zero i)))
      by_wait ih (none, w', h, l, i) =
          let (r, w'', c, cl) = calls w' in
          called n a last w w'' r
            (sym (
              >>=-known (wait_retry_backoff env ctx a opts) _ w h
              ∙ >>=-known (invoker ctx gopts) _ w' c))
            (cl ∙ ap (λ x. x ++ entry r ∷ []) l) (ih r w'')

  -- If every call to the server returns and adds its entry to the log, and neither gRPC's wait nor the
  -- backoff panics or adds to it, the loop of the unary interceptor returns `r`. It has then called the
  -- server at most as often as attempts were left, and after each call but the last the error had the
  -- code of a context's end, or was safe to retry under the call's policy. Why there is no other call is
  -- said by `Ended`: no attempts were given and `r` is the result handed in; or a wait that is not before
  -- attempt 0 was interrupted, and `r` is its error; or `r` is the result of the last call, and it is no
  -- error to retry after, or all attempts are used, or the context is over. So with attempts left it
  -- reports success only where the last call succeeded.
  pub unary_loop-attempts :
      (n attempt : ℕ) (last : Option env.Err) (w : env.World)
      → let p = unary_loop env invoker ctx gopts opts n attempt last w in
        (r : Option env.Err) × (es : List (Option env.Err)) × (p.0 ≡ ok r)
        × (log p.1 ≡ log w ++ map entry es)
        × Retried env opts es
        × (length es ≤ n)
        × Ended env opts ctx attempt n last r es
  unary_loop-attempts n attempt last w = unfold loop in loop-Made n attempt last w

-- ===== src/Interceptor/Writes.antt =====
-- Calls that are not repeatable: when they are made once, and when they are made again.
use regatta_go.Prelude.{ℕ, suc, ◌≡◌, refl, ◌∙◌, true, false, Option, none, some, List}
use regatta_go.Go.{ok}
use regatta_go.Go.Run.{>>=-known}
use regatta_go.Env.{Env}
use regatta_go.Retry.{Options, non_repeatable}
use regatta_go.Interceptor.{
  is_context_error, is_safe_retry, other_status, wait_retry_backoff, Invoker, verdict, unary_loop,
}

module _ (env : Env) (opts : Options env) (invoker : Invoker env) (ctx : env.Ctx)
    (gopts : List env.GrpcOption) where
  wait_retry_backoff-zero : (w : env.World) → wait_retry_backoff env ctx 0 opts w ≡ (ok none, w)
  unfolding wait_retry_backoff
  wait_retry_backoff-zero w = refl

  is_safe_retry-other :
      (e : env.Err)
      → opts.retry_policy ≡ non_repeatable
      → is_context_error env e ≡ false
      → other_status env (env.from_error e) ≡ true
      → is_safe_retry env e opts ≡ false
  unfolding is_safe_retry
  is_safe_retry-other e policy no_ctx other = rw (no_ctx, policy, other) refl

  verdict-unsafe :
      (e : env.Err) (w : env.World)
      → is_context_error env e ≡ false
      → is_safe_retry env e opts ≡ false
      → verdict env ctx opts (some e) w ≡ (ok (some (some e)), w)
  unfolding verdict
  verdict-unsafe e w no_ctx unsafe = rw (no_ctx, unsafe) refl

  verdict-live :
      (e : env.Err) (w : env.World)
      → is_context_error env e ≡ true
      → env.ctx_err ctx w ≡ none
      → verdict env ctx opts (some e) w ≡ (ok none, w)
  unfolding verdict
  verdict-live e w is_ctx live = rw (is_ctx, live) refl

  verdict-none : (w : env.World) → verdict env ctx opts none w ≡ (ok (some none), w)
  unfolding verdict
  verdict-none w = refl

  -- A call that is not repeatable and whose first error is a status other than Unavailable, and not one of a
  -- context, is made once: the loop returns that error, and the world is as the call left it.
  pub unary_loop-once :
      (n : ℕ) (last : Option env.Err) (w w' : env.World) (e : env.Err)
      → opts.retry_policy ≡ non_repeatable
      → invoker ctx gopts w ≡ (ok (some e), w')
      → is_context_error env e ≡ false
      → other_status env (env.from_error e) ≡ true
      → unary_loop env invoker ctx gopts opts (suc n) 0 last w ≡ (ok (some e), w')
  unfolding unary_loop
  unary_loop-once n last w w' e policy call no_ctx other =
      >>=-known (wait_retry_backoff env ctx 0 opts) _ w (wait_retry_backoff-zero w)
      ∙ >>=-known (invoker ctx gopts) _ w call
      ∙ >>=-known (verdict env ctx opts (some e)) _ w'
          (verdict-unsafe e w' no_ctx (is_safe_retry-other e policy no_ctx other))

  -- A call of any policy whose first error is a deadline or a cancellation of the server's, while the
  -- context of the call is alive, is made again after the wait, and a success of that second call is
  -- what the loop returns.
  pub unary_loop-again :
      (n : ℕ) (last : Option env.Err) (w w' w'' w''' : env.World) (e : env.Err)
      → invoker ctx gopts w ≡ (ok (some e), w')
      → is_context_error env e ≡ true
      → env.ctx_err ctx w' ≡ none
      → wait_retry_backoff env ctx 1 opts w' ≡ (ok none, w'')
      → invoker ctx gopts w'' ≡ (ok none, w''')
      → unary_loop env invoker ctx gopts opts (suc (suc n)) 0 last w ≡ (ok none, w''')
  unfolding unary_loop
  unary_loop-again n last w w' w'' w''' e call is_ctx live waited again =
      >>=-known (wait_retry_backoff env ctx 0 opts) _ w (wait_retry_backoff-zero w)
      ∙ >>=-known (invoker ctx gopts) _ w call
      ∙ >>=-known (verdict env ctx opts (some e)) _ w' (verdict-live e w' is_ctx live)
      ∙ >>=-known (wait_retry_backoff env ctx 1 opts) _ w' waited
      ∙ >>=-known (invoker ctx gopts) _ w'' again
      ∙ >>=-known (verdict env ctx opts none) _ w''' (verdict-none w''')

-- ===== src/Interceptor/Receives.antt =====
-- Streams with retries: how often a receive asks the server.
use regatta_go.Prelude.{
  ℕ, zero, suc, ◌+◌, ◌-◌, ◌≤◌, ◌≡◌, refl, ◌∙◌, Bool, true, false, Option, none, some, if◌then◌else◌,
  arith,
}
use regatta_go.Go.{Go, ok}
use regatta_go.Go.Run.{Run, ◌>>=◌, >>=-known}
use regatta_go.Env.{Env, Reply, resp, fail}
use regatta_go.Retry.{Options}
use regatta_go.Interceptor.{wait_retry_backoff, is_context_error, is_safe_retry}
use regatta_go.Interceptor.Streams.{
  continue_with, receive_from, after_wait, Transport, RetryingStream, stream_recv, indicate,
  receive_msg_and_indicate_retry, reestablish_stream_and_resend_buffer, recv_loop,
}

module _ (env : Env) (transport : Transport env) where
  abbrev options_of :
      Bool × Reply env.Err transport.Msg × RetryingStream env transport → Options env
  options_of d = d.2.call_opts

  -- Every reply gets a verdict, and the options of the call stay.
  indicate-total :
      (s : RetryingStream env transport) (r : Reply env.Err transport.Msg) (w : env.World)
      → (d : Bool × Reply env.Err transport.Msg × RetryingStream env transport) × (indicate env
            transport s r w
          ≡ (ok d, w))
        × (d.2.call_opts ≡ s.call_opts)
  unfolding indicate
  indicate-total s (resp m) w = (_, refl, refl)
  indicate-total s (fail e) w =
      (_, refl, kept (env.is_eof e) s.received_good (is_context_error env e) (env.ctx_err s.ctx w))
    where
      kept :
          (b c d : Bool) (o : Option env.Err)
          → options_of (
              if b
              then (false, fail e, record s { received_good = true })
              else if c
              then (false, fail e, s)
              else if d
              then (elim o [ none ↦ (true, fail e, s) | some x ↦ (false, fail e, s) ])
              else (is_safe_retry env e s.call_opts, fail e, s))
            ≡ s.call_opts
      kept true c d o = refl
      kept false true d o = refl
      kept false false true none = refl
      kept false false true (some x) = refl
      kept false false false o = refl

  -- Receives are counted; each returns, and so do waiting and reestablishing, which add none.
  module _ (count : env.World → ℕ) (opts : Options env)
      (receives : (st : env.Stream) (w : env.World)
        → (r : Reply env.Err transport.Msg) × (w' : env.World) × (transport.recv_msg st w
            ≡ (ok r, w'))
          × (count w' ≡ count w + 1))
      (waits : (ctx : env.Ctx) (a : ℕ) (w : env.World)
        → (r : Option env.Err) × (w' : env.World) × (wait_retry_backoff env ctx a opts w
            ≡ (ok r, w'))
          × (count w' ≡ count w))
      (reopens : (s : RetryingStream env transport) (w : env.World)
        → (r : Reply env.Err env.Stream) × (w' : env.World) × (reestablish_stream_and_resend_buffer
              env transport s w
            ≡ (ok r, w'))
          × (count w' ≡ count w)) where
    abbrev Ends :
        ℕ → Go (Reply env.Err transport.Msg × RetryingStream env transport) × env.World → ℕ → Type 0
    Ends n p c =
        (r : Reply env.Err transport.Msg) × (s : RetryingStream env transport) × (p.0 ≡ ok (r, s))
        × (count p.1 ≤ c + n)

    received :
        (s : RetryingStream env transport) (w : env.World)
        → (d : Bool × Reply env.Err transport.Msg × RetryingStream env transport) × (w' : env.World)
          × (receive_msg_and_indicate_retry env transport s w ≡ (ok d, w'))
          × (count w' ≡ count w + 1)
          × (d.2.call_opts ≡ s.call_opts)
    unfolding receive_msg_and_indicate_retry
    received s w =
        let (r, w', got, counted) = receives s.stream w in
        let (d, said, kept) = indicate-total s r w' in
        (d, w', >>=-known (transport.recv_msg s.stream) _ w got ∙ said, counted, kept)

    abbrev Next : Type 0
    Next =
        Reply env.Err transport.Msg
        → RetryingStream env transport
        → Run env.World (Reply env.Err transport.Msg × RetryingStream env transport)

    abbrev Bounded : ℕ → Next → Type 0
    Bounded n next =
        (r : Reply env.Err transport.Msg) (s : RetryingStream env transport) (w : env.World)
        → s.call_opts ≡ opts
        → Ends n (next r s w) (count w)

    -- One receive in front of a bounded rest.
    continue_with-Ends :
        (n : ℕ) (next : Next) (s : RetryingStream env transport) (w : env.World)
        → Bounded n next
        → s.call_opts ≡ opts
        → Ends
            (suc n)
            ((receive_msg_and_indicate_retry env transport s >>= continue_with env transport next)
              w)
            (count w)
    unfolding continue_with
    continue_with-Ends n next s w bounded same = by_result (received s w)
      where
        by_result :
            (d : Bool × Reply env.Err transport.Msg × RetryingStream env transport)
              × (w' : env.World) × (receive_msg_and_indicate_retry env transport s w ≡ (ok d, w'))
              × (count w' ≡ count w + 1)
              × (d.2.call_opts ≡ s.call_opts)
            → Ends
                (suc n)
                ((receive_msg_and_indicate_retry env transport s
                    >>= continue_with env transport next)
                  w)
                (count w)
        by_result ((true, r, t), v, got, c, kept) =
            let (r', s', e, le) = bounded r t v (kept ∙ same) in
            rw
              (>>=-known (receive_msg_and_indicate_retry env transport s)
                (continue_with env transport next) w got)
              (r', s', e, omega (arith, le, c))
        by_result ((false, r, t), v, got, c, kept) =
            rw
              (>>=-known (receive_msg_and_indicate_retry env transport s)
                (continue_with env transport next) w got)
              (r, t, refl, omega (arith, c))

    after_wait-Ends :
        (n : ℕ) (next : Next) (s : RetryingStream env transport) (stopped : Option env.Err)
        (w : env.World)
        → Bounded n next
        → s.call_opts ≡ opts
        → Ends (suc n) (after_wait env transport next s stopped w) (count w)
    unfolding after_wait receive_from
    after_wait-Ends n next s (some e) w bounded same = (fail e, s, refl, omega arith)
    after_wait-Ends n next s none w bounded same = by_result (reopens s w)
      where
        by_result :
            (r : Reply env.Err env.Stream) × (w' : env.World)
              × (reestablish_stream_and_resend_buffer env transport s w ≡ (ok r, w'))
              × (count w' ≡ count w)
            → Ends
                (suc n)
                ((reestablish_stream_and_resend_buffer env transport s
                    >>= receive_from env transport next s)
                  w)
                (count w)
        by_result (fail e, v, did, c) =
            rw
              (>>=-known (reestablish_stream_and_resend_buffer env transport s)
                (receive_from env transport next s) w did)
              (fail e, s, refl, omega (arith, c))
        by_result (resp st, v, did, c) =
            let (r', s', e, le) =
              continue_with-Ends n next (record s { stream = st }) v bounded same in
            rw
              (>>=-known (reestablish_stream_and_resend_buffer env transport s)
                (receive_from env transport next s) w did)
              (r', s', e, omega (arith, le, c))

    waits_with :
        (ctx : env.Ctx) (a : ℕ) (o : Options env) (w : env.World)
        → o ≡ opts
        → (r : Option env.Err) × (w' : env.World) × (wait_retry_backoff env ctx a o w ≡ (ok r, w'))
          × (count w' ≡ count w)
    waits_with ctx a o w same = rw same (waits ctx a w)

    loop-Ends : (n a : ℕ) → Bounded n (λ r s. recv_loop env transport n a r s)
    unfolding recv_loop
    loop-Ends zero a last s w same = (last, s, refl, omega arith)
    loop-Ends (suc n) a last s w same =
        by_result (loop-Ends n (suc a)) (waits_with s.ctx a s.call_opts w same)
      where
        by_result :
            Bounded n (λ r t. recv_loop env transport n (suc a) r t)
            → (r : Option env.Err) × (w' : env.World) × (wait_retry_backoff env s.ctx a s.call_opts
                  w
                ≡ (ok r, w'))
              × (count w' ≡ count w)
            → Ends
                (suc n)
                ((wait_retry_backoff env s.ctx a s.call_opts
                    >>= after_wait env transport (λ r t. recv_loop env transport n (suc a) r t) s)
                  w)
                (count w)
        by_result ih (stopped, v, did, c) =
            let (r', s', e, le) =
              after_wait-Ends n (λ r t. recv_loop env transport n (suc a) r t) s stopped v ih
                same in
            rw
              (>>=-known (wait_retry_backoff env s.ctx a s.call_opts)
                (after_wait env transport (λ r t. recv_loop env transport n (suc a) r t) s) w did)
              (r', s', e, omega (arith, le, c))

    -- If every receive, every wait of the call's options and every reestablishing returns, and only
    -- receives are counted, a receive with retries returns, and has asked streams at most as often as the call's options allow attempts,
    -- and at most once if they allow none.
    pub stream_recv-attempts :
        (s : RetryingStream env transport) (w : env.World)
        → s.call_opts ≡ opts
        → let p = stream_recv env transport s w in
          (r : Reply env.Err transport.Msg) × (s' : RetryingStream env transport) × (p.0
            ≡ ok (r, s'))
          × (count p.1 ≤ count w + suc (s.call_opts.max - 1))
    unfolding stream_recv
    stream_recv-attempts s w same =
        continue_with-Ends (s.call_opts.max - 1)
          (λ r t. recv_loop env transport (s.call_opts.max - 1) 1 r t) s w
          (loop-Ends (s.call_opts.max - 1) 1) same

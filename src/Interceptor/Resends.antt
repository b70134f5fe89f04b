-- ===== src/Interceptor/Resends.antt =====
-- Streams with retries: when a receive is not retried, and what a new stream is sent.
use mathlib.Core.List.{append-nil, append_assoc}
use regatta_go.Prelude.{
  ℕ, zero, suc, length, ◌≡◌, refl, ap, ◌∙◌, sym, Bool, true, false, none, List, [], ◌∷◌, ◌++◌, map,
  if◌then◌else◌,
}
use regatta_go.Go.{ok}
use regatta_go.Go.Run.{Run, pure, ◌>>=◌, >>=-known}
use regatta_go.Env.{Env, Reply, resp, fail}
use regatta_go.Interceptor.Streams.{
  Transport, RetryingStream, stream_recv, indicate, receive_msg_and_indicate_retry, resend, refill,
  reestablish_stream_and_resend_buffer,
}

-- What a stream is asked to do, with the stream.
pub data Request (S M : Type 0) : Type 0 where
  opens : S → Request S M
  sends : S → M → Request S M
  closes : S → Request S M

module _ (env : Env) (transport : Transport env) where
  indicate-good :
      (s : RetryingStream env transport) (r : Reply env.Err transport.Msg) (w : env.World)
      → s.received_good ≡ true
      → indicate env transport s r w ≡ (ok (false, r, record s { received_good = true }), w)
  unfolding indicate
  indicate-good s (resp m) w good = refl
  indicate-good s (fail e) w good = ap (λ d. (ok d, w)) (by_test (env.is_eof e) _)
    where
      by_test :
          (b : Bool) (c : Bool × Reply env.Err transport.Msg × RetryingStream env transport)
          → ◌≡◌ {A = Bool × Reply env.Err transport.Msg × RetryingStream env transport}
              (if b
                then (false, fail e, record s { received_good = true })
                else if s.received_good
                then (false, fail e, s)
                else c)
              (false, fail e, record s { received_good = true })
      by_test true c = refl
      by_test false c =
          ap (λ g. if g then (false, fail e, s) else c) good
          ∙ (λ i. (false, fail e, record s { received_good = good i }))

  stream_recv-good :
      (s : RetryingStream env transport) (w w' : env.World) (r : Reply env.Err transport.Msg)
      → s.received_good ≡ true
      → transport.recv_msg s.stream w ≡ (ok r, w')
      → stream_recv env transport s w ≡ (ok (r, record s { received_good = true }), w')
  unfolding stream_recv receive_msg_and_indicate_retry
  stream_recv-good s w w' r good got =
      >>=-known (receive_msg_and_indicate_retry env transport s) _ w (received s w w' r good got)
    where
      received :
          (s : RetryingStream env transport) (w w' : env.World) (r : Reply env.Err transport.Msg)
          → s.received_good ≡ true
          → transport.recv_msg s.stream w ≡ (ok r, w')
          → receive_msg_and_indicate_retry env transport s w
            ≡ (ok (false, r, record s { received_good = true }), w')
      received s w w' r good got =
          >>=-known (transport.recv_msg s.stream) _ w got ∙ indicate-good s r w' good

  stream_recv-first :
      (s : RetryingStream env transport) (w w' : env.World) (m : transport.Msg)
      → transport.recv_msg s.stream w ≡ (ok (resp m), w')
      → stream_recv env transport s w ≡ (ok (resp m, record s { received_good = true }), w')
  unfolding stream_recv receive_msg_and_indicate_retry indicate
  stream_recv-first s w w' m got =
      >>=-known (receive_msg_and_indicate_retry env transport s) _ w
        (>>=-known (transport.recv_msg s.stream) _ w got)

  -- `RecvMsg`, a number of times.
  abbrev pub receives :
      RetryingStream env transport
      → ℕ
      → Run env.World (List (Reply env.Err transport.Msg) × RetryingStream env transport)
  receives s zero = pure ([], s)
  receives s (suc n) =
      stream_recv env transport s >>= λ p. receives p.1 n >>= λ q. pure (p.0 ∷ q.0, q.1)

  -- Asked from `w` on, once for each, a stream replies so and leaves `w'`.
  abbrev pub Gives :
      env.Stream → env.World → List (Reply env.Err transport.Msg) → env.World → Type 0
  Gives st w [] w' = w ≡ w'
  Gives st w (r ∷ rs) w' =
      (v : env.World) × (transport.recv_msg st w ≡ (ok r, v)) × Gives st v rs w'

  receives-good :
      (s : RetryingStream env transport) (rs : List (Reply env.Err transport.Msg))
      (w w' : env.World)
      → s.received_good ≡ true
      → Gives s.stream w rs w'
      → receives s (length rs) w ≡ (ok (rs, record s { received_good = true }), w')
  receives-good s [] w w' good e = λ i. (ok ([], record s { received_good = good i }), e i)
  receives-good s (r ∷ rs) w w' good (v, got, more) =
      >>=-known (stream_recv env transport s) _ w (stream_recv-good s w v r good got)
      ∙ >>=-known (receives (record s { received_good = true }) (length rs)) _ v
          (receives-good (record s { received_good = true }) rs v w' refl more)

  -- A stream that has received a message is not retried. Where the transport's stream, asked again and
  -- again, gives a message and then any replies, errors of any kind too, the caller who receives that
  -- often gets exactly these replies, in order, and nothing else is asked of the transport, whether or
  -- not something was received before.
  pub receives-straight :
      (s : RetryingStream env transport) (m : transport.Msg)
      (rs : List (Reply env.Err transport.Msg)) (w w' : env.World)
      → Gives s.stream w (resp m ∷ rs) w'
      → receives s (suc (length rs)) w ≡ (ok (resp m ∷ rs, record s { received_good = true }), w')
  receives-straight s m rs w w' (v, got, more) =
      >>=-known (stream_recv env transport s) _ w (stream_recv-first s w v m got)
      ∙ >>=-known (receives (record s { received_good = true }) (length rs)) _ v
          (receives-good (record s { received_good = true }) rs v w' refl more)

  module _ (log : env.World → List (Request env.Stream transport.Msg))
      (sent : (st : env.Stream) (m : transport.Msg) (w : env.World)
        → (w' : env.World) × (transport.send_msg st m w ≡ (ok none, w'))
          × (log w' ≡ log w ++ sends st m ∷ []))
      (closed : (st : env.Stream) (w : env.World)
        → (w' : env.World) × (transport.close_send st w ≡ (ok none, w'))
          × (log w' ≡ log w ++ closes st ∷ [])) where
    resend-logs :
        (st : env.Stream) (ms : List transport.Msg) (w : env.World)
        → (w' : env.World) × (resend env transport st ms w ≡ (ok none, w'))
          × (log w' ≡ log w ++ map (sends st) ms)
    unfolding resend
    resend-logs st [] w = (w, refl, sym (append-nil (log w)))
    resend-logs st (m ∷ ms) w =
        let (v, did, noted) = sent st m w in
        let (w', ran, rest) = resend-logs st ms v in
        (
          w',
          >>=-known (transport.send_msg st m) _ w did ∙ ran,
          rest
              ∙ ap (λ x. x ++ map (sends st) ms) noted
              ∙ append_assoc (log w) (sends st m ∷ []) (map (sends st) ms),
        )

    -- If sending and closing succeed on any stream and are logged, a stream that is reestablished is
    -- sent every buffered message again, in order, and is then closed for sending.
    pub reestablish-resends :
        (s : RetryingStream env transport) (w v : env.World) (st : env.Stream)
        → transport.open_stream s.ctx s.gopts w ≡ (ok (resp st), v)
        → (w' : env.World) × (reestablish_stream_and_resend_buffer env transport s w
            ≡ (ok (resp st), w'))
          × (log w' ≡ log v ++ (map (sends st) s.buffered_sends ++ closes st ∷ []))
    unfolding reestablish_stream_and_resend_buffer refill
    reestablish-resends s w v st opened =
        let (u, ran, resent) = resend-logs st s.buffered_sends v in
        let (w', did, noted) = closed st u in
        (
          w',
          >>=-known (transport.open_stream s.ctx s.gopts) _ w opened
              ∙ >>=-known (resend env transport st s.buffered_sends) _ v ran
              ∙ >>=-known (transport.close_send st) _ u did,
          noted
              ∙ ap (λ x. x ++ closes st ∷ []) resent
              ∙ append_assoc (log v) (map (sends st) s.buffered_sends) (closes st ∷ []),
        )

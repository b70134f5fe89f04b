-- ===== src/Interceptor/Streams.antt =====
-- interceptor.go: the retries of a server-side stream. A method returns the stream's new state with
-- its result; the locks of the code guard single fields, and one caller uses the stream at a time.
use regatta_go.Prelude.{
  ℕ, zero, suc, ◌-◌, Bool, true, false, Option, none, some, List, [], ◌∷◌, ◌++◌, if◌then◌else◌,
  ◌==◌,
}
use regatta_go.Go.{ok, codes}
use regatta_go.Go.Run.{Run, pure, ◌>>=◌}
use regatta_go.Env.{Env, Reply, resp, fail, unimplemented}
use regatta_go.Retry.{
  Options, CallOption, RetryOption, reuse_or_new_with_call_options, filter_call_options,
}
use regatta_go.Context.{with_version}
use regatta_go.Interceptor.{is_context_error, is_safe_retry, wait_retry_backoff}

-- `grpc.ClientStream` and the `grpc.Streamer` that opens streams. What `RecvMsg` writes to its
-- argument is what it gives.
pub record Transport (env : Env) : Type 1 where
  pub Msg : Type 0
  pub open_stream : env.Ctx → List env.GrpcOption → Run env.World (Reply env.Err env.Stream)
  pub send_msg : env.Stream → Msg → Run env.World (Option env.Err)
  pub close_send : env.Stream → Run env.World (Option env.Err)
  pub recv_msg : env.Stream → Run env.World (Reply env.Err Msg)
  pub header : env.Stream → Run env.World (Reply env.Err env.Metadata)
  pub trailer : env.Stream → Run env.World env.Metadata

module _ (env : Env) (transport : Transport env) where
  open env use {World, Err, Ctx, GrpcOption, Stream, Metadata, ctx_err, is_eof, status_error}
  open transport use {Msg}

  -- The struct `serverStreamingRetryingStream`; its `streamerCall` opens a stream with `gopts`.
  pub record RetryingStream : Type 0 where
    pub stream : Stream
    pub buffered_sends : List Msg
    pub received_good : Bool
    pub was_closed_send : Bool
    pub ctx : Ctx
    pub call_opts : Options env
    pub gopts : List GrpcOption

  unfoldable pub set_stream : RetryingStream → Stream → RetryingStream
  set_stream s st = record s { stream = st }

  unfoldable pub get_stream : RetryingStream → Stream
  get_stream s = s.stream

  unfoldable pub stream_header : RetryingStream → Run World (Reply Err Metadata)
  unfolding get_stream
  stream_header s = transport.header (get_stream s)

  unfoldable pub stream_trailer : RetryingStream → Run World Metadata
  unfolding get_stream
  stream_trailer s = transport.trailer (get_stream s)

  unfoldable pub stream_send : RetryingStream → Msg → Run World (Option Err × RetryingStream)
  stream_send s m = do
    let s' = record s { buffered_sends = s.buffered_sends ++ m ∷ [] }
    err ← transport.send_msg s.stream m
    pure (err, s')

  unfoldable pub stream_close : RetryingStream → Run World (Option Err × RetryingStream)
  stream_close s = do
    err ← transport.close_send s.stream
    pure (err, record s { was_closed_send = true })

  -- What `receiveMsgAndIndicateRetry` makes of a reply: whether to try again, the reply, the state.
  unfoldable pub indicate :
      RetryingStream → Reply Err Msg → Run World (Bool × Reply Err Msg × RetryingStream)
  indicate s (resp m) w = (ok (false, resp m, record s { received_good = true }), w)
  indicate s (fail e) w = (
    ok (
        if is_eof e
        then (false, fail e, record s { received_good = true })
        else if s.received_good
        then (false, fail e, s)
        else if is_context_error env e
        then (elim (ctx_err s.ctx w) [ none ↦ (true, fail e, s) | some c ↦ (false, fail e, s) ])
        else (is_safe_retry env e s.call_opts, fail e, s)),
    w,
  )

  unfoldable pub receive_msg_and_indicate_retry :
      RetryingStream → Run World (Bool × Reply Err Msg × RetryingStream)
  unfolding indicate
  receive_msg_and_indicate_retry s = do r ← transport.recv_msg s.stream; indicate s r

  -- The loop over the buffered messages; the first error ends it.
  unfoldable pub resend : Stream → List Msg → Run World (Option Err)
  resend st [] = pure none
  resend st (m ∷ ms) = do
    err ← transport.send_msg st m
    elim err [ some e ↦ pure (some e) | none ↦ resend st ms ]

  -- An error instead of the new stream, if there is one.
  unfoldable pub or_error : Stream → Option Err → Reply Err Stream
  or_error st none = resp st
  or_error st (some e) = fail e

  unfoldable pub refill : RetryingStream → Reply Err Stream → Run World (Reply Err Stream)
  unfolding resend or_error
  refill s (fail e) = pure (fail e)
  refill s (resp st) = do
    err ← resend st s.buffered_sends
    elim err [
      | some e ↦ pure (fail e)
      | none ↦ do err' ← transport.close_send st; pure (or_error st err')
    ]

  unfoldable pub reestablish_stream_and_resend_buffer :
      RetryingStream → Run World (Reply Err Stream)
  unfolding refill
  reestablish_stream_and_resend_buffer s = do r ← transport.open_stream s.ctx s.gopts; refill s r

  -- The next attempt, if one is indicated, or the result.
  unfoldable pub continue_with :
      (Reply Err Msg → RetryingStream → Run World (Reply Err Msg × RetryingStream))
      → Bool × Reply Err Msg × RetryingStream
      → Run World (Reply Err Msg × RetryingStream)
  continue_with next (true, r, s) = next r s
  continue_with next (false, r, s) = pure (r, s)

  -- An attempt on the stream that was reestablished.
  unfoldable pub receive_from :
      (Reply Err Msg → RetryingStream → Run World (Reply Err Msg × RetryingStream))
      → RetryingStream
      → Reply Err Stream
      → Run World (Reply Err Msg × RetryingStream)
  receive_from next s (fail e) = pure (fail e, s)
  receive_from next s (resp st) =
      receive_msg_and_indicate_retry (record s { stream = st }) >>= continue_with next

  unfoldable pub after_wait :
      (Reply Err Msg → RetryingStream → Run World (Reply Err Msg × RetryingStream))
      → RetryingStream
      → Option Err
      → Run World (Reply Err Msg × RetryingStream)
  unfolding receive_from
  after_wait next s (some e) = pure (fail e, s)
  after_wait next s none = reestablish_stream_and_resend_buffer s >>= receive_from next s

  -- The `for` loop of `RecvMsg` with `n` attempts left.
  unfoldable pub recv_loop :
      ℕ → ℕ → Reply Err Msg → RetryingStream → Run World (Reply Err Msg × RetryingStream)
  unfolding after_wait
  recv_loop zero attempt last s = pure (last, s)
  recv_loop (suc n) attempt last s =
      wait_retry_backoff env s.ctx attempt s.call_opts
      >>= after_wait (λ r s'. recv_loop n (suc attempt) r s') s

  -- `RecvMsg`: attempt 0 is the call itself.
  unfoldable pub stream_recv : RetryingStream → Run World (Reply Err Msg × RetryingStream)
  unfolding recv_loop continue_with
  stream_recv s =
      receive_msg_and_indicate_retry s
      >>= continue_with (λ r s'. recv_loop (s.call_opts.max - 1) 1 r s')

  -- A stream as the interceptor hands it out: as it was opened, or with retries.
  pub data Opened : Type 0 where
    plain : Stream → Opened
    retrying : RetryingStream → Opened

  unfoldable pub opened_plain : Reply Err Stream → Reply Err Opened
  opened_plain (resp st) = resp (plain st)
  opened_plain (fail e) = fail e

  unfoldable pub opened_retrying :
      Ctx → Options env → List GrpcOption → Reply Err Stream → Reply Err Opened
  opened_retrying ctx opts gopts (fail e) = fail e
  opened_retrying ctx opts gopts (resp st) = resp (
      retrying (record {
        stream = st;
        buffered_sends = [];
        received_good = false;
        was_closed_send = false;
        ctx = ctx;
        call_opts = opts;
        gopts = gopts;
      }))

  -- `client_streams` is `desc.ClientStreams`.
  unfoldable pub stream_client_interceptor :
      Options env
      → List (RetryOption env)
      → Bool
      → Ctx
      → List (CallOption env)
      → Run World (Reply Err Opened)
  unfolding opened_plain opened_retrying
  stream_client_interceptor defaults opt_funcs client_streams ctx opts =
      let int_opts = reuse_or_new_with_call_options env defaults opt_funcs in
      let (gopts, ropts) = filter_call_options env opts in
      let call_opts = reuse_or_new_with_call_options env int_opts ropts in
      let ctx' = with_version env ctx in
      if call_opts.max == 0
      then (do r ← transport.open_stream ctx' gopts; pure (opened_plain r))
      else if client_streams
      then pure (
          fail (
            status_error unimplemented
              (codes "client/retry_interceptor: cannot retry on ClientStreams, set Disable()")))
      else (do r ← transport.open_stream ctx' gopts; pure (opened_retrying ctx' call_opts gopts r))

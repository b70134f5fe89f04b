-- ===== src/Env.antt =====
-- What the client takes from gRPC, the context package and the outside world, as one parameter.
-- `World` is all state outside the client; a context's error is read from it, since a context may
-- end at any moment.
pub mod Reported
use regatta_go.Prelude.{ℕ, ℤ, Bool, Option, none, some}
use regatta_go.Go.{Bytes}
use regatta_go.Go.Run.{Run}

-- The status codes that the client tells apart.
pub data Code : Type 0 where
  code_ok canceled unknown deadline_exceeded unimplemented unavailable : Code
  other_code : ℕ → Code

pub record StatusInfo : Type 0 where
  pub code : Code
  pub message : Bytes

pub record Env : Type 1 where
  pub World : Type 0
  pub Err : Type 0
  pub Ctx : Type 0
  -- a call option that is not one of the client's own
  pub GrpcOption : Type 0
  -- an open stream of replies
  pub Stream : Type 0
  -- `ctx.Err()`
  pub ctx_err : Ctx → World → Option Err
  -- `status.FromError(err)` at an error; `none` is its `false`
  pub from_error : Err → Option StatusInfo
  -- `status.Code(err)` at an error
  pub status_code : Err → Code
  -- `err.Error()`
  pub error_text : Err → Bytes
  -- `errors.Is` and `==` against `io.EOF`
  pub is_eof : Err → Bool
  -- `errors.Is` against the errors of the context package
  pub is_deadline : Err → Bool
  pub is_canceled : Err → Bool
  -- `status.Errorf(code, text)`
  pub status_error : Code → Bytes → Err
  -- outgoing metadata: `metadata.FromOutgoingContext`, `Pairs`, `Copy`, `Set` and
  -- `NewOutgoingContext`
  pub Metadata : Type 0
  pub from_outgoing : Ctx → Option Metadata
  pub pairs : Bytes → Bytes → Metadata
  pub copy : Metadata → Metadata
  pub set : Metadata → Bytes → Bytes → Metadata
  pub new_outgoing : Ctx → Metadata → Ctx
  -- waits for a number of nanoseconds or for the end of a context, whose error it gives then
  pub wait : Ctx → ℤ → Run World (Option Err)

-- `(resp, err)` of a call: a response, or an error that is not nil.
pub data Reply (E A : Type 0) : Type 0 where
  resp : A → Reply E A
  fail : E → Reply E A

module _ (env : Env) where
  open env use {World, Err, Ctx, ctx_err, from_error}

  unfoldable pub to_err_code : Ctx → Err → Code → World → Err
  to_err_code ctx e deadline_exceeded w = elim (ctx_err ctx w) [ none ↦ e | some e' ↦ e' ]
  to_err_code ctx e canceled w = elim (ctx_err ctx w) [ none ↦ e | some e' ↦ e' ]
  to_err_code ctx e code_ok w = e
  to_err_code ctx e unknown w = e
  to_err_code ctx e unimplemented w = e
  to_err_code ctx e unavailable w = e
  to_err_code ctx e (other_code n) w = e

  -- client.go: a deadline or a cancellation is reported as the context's own error, if it has one.
  unfoldable pub to_err : Ctx → Option Err → World → Option Err
  unfolding to_err_code
  to_err ctx none w = none
  to_err ctx (some e) w = elim (from_error e) [
    | none ↦ some e
    | some st ↦ some (to_err_code ctx e st.code w)
  ]

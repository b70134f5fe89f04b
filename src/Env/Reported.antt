-- ===== src/Env/Reported.antt =====
-- client.go: `toErr`, by the code of a status and the context.
use regatta_go.Prelude.{
  ◌≡◌, refl, Bool, true, false, Option, none, some, inl, inr, Option-cases, if◌then◌else◌,
}
use regatta_go.Env.{Env, Code, canceled, deadline_exceeded, StatusInfo, to_err, to_err_code}

-- The codes of an error that a context may be the reason of.
abbrev pub ends_context : Code → Bool
ends_context canceled = true
ends_context deadline_exceeded = true
ends_context _ = false

-- What is reported of `e`, given its status and the error of the context.
abbrev pub instead {ℓ} : {E : Type ℓ} → Option StatusInfo → Option E → E → E
instead none c e = e
instead (some st) none e = e
instead (some st) (some x) e = if ends_context st.code then x else e

module _ (env : Env) (ctx : env.Ctx) where
  -- The error that a caller sees for an error `e`.
  abbrev pub reported_error : env.Err → env.World → env.Err
  reported_error e w = instead (env.from_error e) (env.ctx_err ctx w) e

  to_err_code-eq :
      (e : env.Err) (st : StatusInfo) (c : Code) (w : env.World)
      → to_err_code env ctx e c w
        ≡ instead (some (record { code = c; message = st.message })) (env.ctx_err ctx w) e
  unfolding to_err_code
  to_err_code-eq e st c w = elim (Option-cases (env.ctx_err ctx w)) [
    | inl h ↦ rw (h, to_err_code) (live c h)
    | inr (x, h) ↦ rw (h, to_err_code) (ended c x h)
  ]
    where
      live : (c : Code) → env.ctx_err ctx w ≡ none → to_err_code env ctx e c w ≡ e
      live canceled h = rw (h, to_err_code) refl
      live deadline_exceeded h = rw (h, to_err_code) refl
      live _ h = refl

      ended :
          (c : Code) (x : env.Err)
          → env.ctx_err ctx w ≡ some x
          → to_err_code env ctx e c w ≡ (if ends_context c then x else e)
      ended canceled x h = rw (h, to_err_code) refl
      ended deadline_exceeded x h = rw (h, to_err_code) refl
      ended _ x h = refl

  pub to_err-reported_error :
      (e : env.Err) (w : env.World) → to_err env ctx (some e) w ≡ some (reported_error e w)
  unfolding to_err
  to_err-reported_error e w = elim (Option-cases (env.from_error e)) [
    | inl h ↦ rw (h, to_err) refl
    | inr (st, h) ↦ rw (h, to_err) (λ i. some (to_err_code-eq e st st.code w i))
  ]

-- ===== src/Client/Lifecycle.antt =====
-- client.go: `Close`, the handlers of statistics and `autoSync`. What a hook does is a parameter, as
-- are `cancel` and the closing of the connection.
use regatta_go.Prelude.{
  ◌≡◌, refl, inl, inr, Bool-cases, is_zero, Option, none, some, List, [], ◌∷◌, if◌then◌else◌,
}
use regatta_go.Go.{Go, ok, panic}
use regatta_go.Go.Run.{Run}
use regatta_go.Env.{Env, to_err}
use regatta_go.Proto.Admin.{Member}
use regatta_go.Hooks.{Hook, list_of, call_hooks}
use regatta_go.Client.{Client, sync, set_endpoints}

module _ (env : Env) where
  open env use {World, Err, Ctx, ctx_err}

  -- The error of closing, or that of the client's context where there is no connection.
  closed : Ctx → Option (Run World (Option Err)) → Run World (Option Err)
  closed ctx none w = (ok (ctx_err ctx w), w)
  closed ctx (some close_conn) w = after_closing (close_conn w)
    where
      after_closing : Go (Option Err) × World → Go (Option Err) × World
      after_closing (ok e, w') = (ok (to_err env ctx e w'), w')
      after_closing (panic m, w') = (panic m, w')

  unfoldable pub close :
      (World → World)
      → (Hook → World → World)
      → Ctx
      → Option (Run World (Option Err))
      → Client
      → Run World (Option Err)
  unfolding closed
  close cancel on_client_closed ctx conn c w =
      let (g, w') = closed ctx conn (cancel w) in
      (g, call_hooks (λ h. h.client_closed) (list_of c.cfg.hooks) on_client_closed w')

  unfoldable pub handle_rpc :
      {Stats : Type 0} → (Hook → Stats → World → World) → Client → Stats → World → World
  handle_rpc on_handle_rpc c stats =
      call_hooks (λ h. h.handle_rpc) (list_of c.cfg.hooks) (λ h. on_handle_rpc h stats)

  unfoldable pub handle_conn :
      {Stats : Type 0} → (Hook → Stats → World → World) → Client → Stats → World → World
  handle_conn on_handle_conn c stats =
      call_hooks (λ h. h.handle_conn) (list_of c.cfg.hooks) (λ h. on_handle_conn h stats)

-- What `autoSync` waits for: the end of the client's context, or an interval, after which the list of
-- members is asked for, with the members or an error.
pub data Wakeup : Type 0 where
  done : Wakeup
  tick : Option (List Member) → Wakeup

wake : Client → List Wakeup → Client
wake c [] = c
wake c (done ∷ es) = c
wake c (tick reply ∷ es) = wake (sync c reply) es

unfoldable pub auto_sync : Client → List Wakeup → Client
unfolding wake
auto_sync c es = if is_zero c.cfg.auto_sync_interval then c else wake c es

abbrev Agrees : Client → Type 0
Agrees c = c.resolver_endpoints ≡ c.endpoints

wake-Agrees : (c : Client) (es : List Wakeup) → Agrees c → Agrees (wake c es)
unfolding wake sync set_endpoints
wake-Agrees c [] h = h
wake-Agrees c (done ∷ es) h = h
wake-Agrees c (tick none ∷ es) h = wake-Agrees c es h
wake-Agrees c (tick (some members) ∷ es) h = wake-Agrees (sync c (some members)) es refl

-- However often it wakes up, the resolver has the client's endpoints if it had them before.
pub auto_sync-Agrees : (c : Client) (es : List Wakeup) → Agrees c → Agrees (auto_sync c es)
unfolding auto_sync
auto_sync-Agrees c es h = elim (Bool-cases (is_zero c.cfg.auto_sync_interval)) [
  | inl z ↦ rw z h
  | inr n ↦ rw n (wake-Agrees c es h)
]

-- ===== src/Client/HookedCalls.antt =====
-- The hooks of a configuration around the operations of the client that `newClient` makes of it
-- (client.go, hooks.go, kv.go).
use mathlib.Core.List.{foldl, reverse, reverse_aux-eq, append-nil, append_assoc}
use regatta_go.Prelude.{
  ◌≡◌, refl, sym, ap, ◌∙◌, Bool, true, false, if◌then◌else◌, List, [], ◌∷◌, ◌++◌, map,
}
use regatta_go.Go.{Bytes}
use regatta_go.Env.{Env}
use regatta_go.Op.{Op}
use regatta_go.Retry.{CallOption}
use regatta_go.Config.{Config}
use regatta_go.Hooks.{Hook, single, group, Hooks, nil, cons, list_of, get_hooks}
use regatta_go.Client.{Client, made, new_client}
use regatta_go.Client.Construction.{new_client-Hooked}
use regatta_go.Kv.{KvClient, KvDo, KvHook, kv_do, retry_kv_client, hooked_do, new_kv}

-- The hooks of a slice's own elements that implement `HookKVOpDo`; a slice among them implements nothing.
abbrev pub op_hooks : Hooks → List Hook
op_hooks nil = []
op_hooks (cons (single c) hs) = (if c.kv_op_do then single c ∷ [] else []) ++ op_hooks hs
op_hooks (cons (group inner) hs) = op_hooks hs

get_hooks-op_hooks : (hs : Hooks) → get_hooks (λ h. h.kv_op_do) (list_of hs) ≡ op_hooks hs
unfolding get_hooks
get_hooks-op_hooks nil = refl
get_hooks-op_hooks (cons (single c) hs) = by_test c.kv_op_do (get_hooks-op_hooks hs)
  where
    rest : List Hook
    rest = get_hooks (λ h. h.kv_op_do) (list_of hs)

    by_test :
        (b : Bool)
        → rest ≡ op_hooks hs
        → (if b then single c ∷ rest else rest) ≡ (if b then single c ∷ [] else []) ++ op_hooks hs
    by_test true e = ap (λ xs. single c ∷ xs) e
    by_test false e = e
get_hooks-op_hooks (cons (group inner) hs) = get_hooks-op_hooks hs

-- Each hook, given an operation, leaves its mark on the world and passes the operation on.
module _ (env : Env) (on : Hook → KvHook env) (note : Hook → env.World → env.World)
    (passes : (h : Hook) (ctx : env.Ctx) (table : Bytes) (o : Op) (next : KvDo env) (w : env.World)
      → on h ctx table o next w ≡ next ctx table o (note h w))
    (log : env.World → List Hook)
    (notes : (h : Hook) (w : env.World) → log (note h w) ≡ log w ++ h ∷ []) where
  -- The marks of some hooks, the last first.
  abbrev noted : List Hook → env.World → env.World
  noted [] w = w
  noted (h ∷ hs) w = note h (noted hs w)

  log-noted : (hs : List Hook) (w : env.World) → log (noted hs w) ≡ log w ++ reverse hs
  log-noted [] w = sym (append-nil (log w))
  log-noted (h ∷ hs) w =
      notes h (noted hs w)
      ∙ ap (λ x. x ++ h ∷ []) (log-noted hs w)
      ∙ append_assoc (log w) (reverse hs) (h ∷ [])
      ∙ ap (λ x. log w ++ x) (sym (reverse_aux-eq hs (h ∷ [])))

  foldl-noted :
      (d : KvDo env) (hs : List Hook) (ctx : env.Ctx) (table : Bytes) (o : Op) (w : env.World)
      → foldl (hooked_do env) d (map on hs) ctx table o w ≡ d ctx table o (noted hs w)
  unfolding hooked_do
  foldl-noted d [] ctx table o w = refl
  foldl-noted d (h ∷ hs) ctx table o w =
      foldl-noted (hooked_do env d (on h)) hs ctx table o w ∙ passes h ctx table o d (noted hs w)

  -- If each hook marks the world and passes on the operation that it is given, then an operation of a
  -- client is sent after it was given, once each, to the hooks of the configuration's own slice that
  -- implement `HookKVOpDo`, the last of them first; hooks in nested slices are not among them.
  pub new_client-marked :
      (cfg : Config) (dialled current : Bool) (c : Client) (remote : KvClient env)
      (copts : List (CallOption env)) (ctx : env.Ctx) (table : Bytes) (o : Op) (w : env.World)
      → new_client cfg dialled current ≡ made c
      → (w' : env.World) × (new_kv env remote copts (map on c.kv_hooks) ctx table o w
          ≡ kv_do env (retry_kv_client env remote) copts ctx table o w')
        × (log w' ≡ log w ++ reverse (op_hooks cfg.hooks))
  unfolding new_kv
  new_client-marked cfg dialled current c remote copts ctx table o w h =
      let (ps, e, told, around, kept, eps) = new_client-Hooked cfg dialled current c h in
      (
        noted c.kv_hooks w,
        foldl-noted _ c.kv_hooks ctx table o w,
        log-noted c.kv_hooks w
            ∙ ap (λ hs. log w ++ reverse hs) (around ∙ get_hooks-op_hooks cfg.hooks),
      )

-- ===== src/Client/Construction.antt =====
-- Which hooks and options a new client ends up with.
use regatta_go.Prelude.{
  all, ℤ, ◌≡◌, refl, ap, ◌∙◌, sym, Bool, true, false, not, ◌&&◌, ◌||◌, Option, none, some, List, [],
  ◌∷◌, map, if◌then◌else◌, inl, inr, Bool-cases, arith,
}
use mathlib.Core.Option.{some-injective, none-ne-some}
use mathlib.Core.List.{append-nil}
use regatta_go.Go.{is_empty, is_set}
use regatta_go.Hooks.{
  Hook, single, group, Hooks, nil, cons, any_interface, get_hooks, process_hooks, list_of,
}
use regatta_go.Hooks.Flatten.{leaves_of, process_hooks-leaves}
use regatta_go.Config.{Config}
use regatta_go.Client.{
  CallOpt, compressor, Client, ClientErr, old_cluster, Made, made, failed, is_positive,
  choose_call_opts, new_client, with_hooks, with_call_opts, gtb,
}

abbrev pub uses_compressor : List CallOpt → Bool
uses_compressor [] = false
uses_compressor (compressor ∷ os) = true
uses_compressor (_ ∷ os) = uses_compressor os

abbrev pub is_made : Made → Bool
is_made (made c) = true
is_made (failed e) = false

-- The receive limit is not set, or not below the send limit.
abbrev pub limits_fit : Config → Bool
limits_fit cfg =
    not (is_positive cfg.max_call_recv_msg_size)
    || not (gtb cfg.max_call_send_msg_size cfg.max_call_recv_msg_size)

choose_call_opts-fits :
    (cfg : Config)
    → is_set (choose_call_opts cfg.max_call_send_msg_size cfg.max_call_recv_msg_size)
      ≡ limits_fit cfg
unfolding choose_call_opts
choose_call_opts-fits cfg = ground arith

-- The call options that a client chooses compress its messages exactly when its configuration sets
-- no positive limit on the size of messages.
pub choose_call_opts-compressor :
    (send recv : ℤ) (os : List CallOpt)
    → choose_call_opts send recv ≡ some os
    → uses_compressor os ≡ not (is_positive send || is_positive recv)
unfolding choose_call_opts
choose_call_opts-compressor send recv os h = ground arith

-- Dialing succeeds, and the version check too where the configuration rejects old clusters.
abbrev pub lets_in : Config → Bool → Bool → Bool
lets_in cfg dialled current = dialled && (not cfg.reject_old_cluster || current)

with_hooks-made :
    (cfg : Config) (opts : List CallOpt) (dialled current : Bool) (o : Option (List Hook))
    → is_made (with_hooks cfg opts dialled current o) ≡ (is_set o && lets_in cfg dialled current)
unfolding with_hooks
with_hooks-made cfg opts dialled current none = refl
with_hooks-made cfg opts true current (some hs) = ground arith
with_hooks-made cfg opts false current (some hs) = refl

process_hooks-set : (hs : Hooks) → is_set (process_hooks hs) ≡ all any_interface (leaves_of hs)
process_hooks-set hs = rw (process_hooks-leaves hs) (by_test (all any_interface (leaves_of hs)))
  where
    by_test : (b : Bool) → is_set (if b then some (map single (leaves_of hs)) else none) ≡ b
    by_test true = refl
    by_test false = refl

with_call_opts-made :
    (cfg : Config) (dialled current : Bool) (o : Option (List CallOpt))
    → is_made (with_call_opts cfg dialled current o)
      ≡ (is_set o && (all any_interface (leaves_of cfg.hooks) && lets_in cfg dialled current))
unfolding with_call_opts
with_call_opts-made cfg dialled current none = refl
with_call_opts-made cfg dialled current (some opts) =
    with_hooks-made cfg opts dialled current (process_hooks cfg.hooks)
    ∙ ap (λ b. b && lets_in cfg dialled current) (process_hooks-set cfg.hooks)

-- A client is made exactly when there is an endpoint, a positive receive limit is not below the send
-- limit, every value among the hooks, those in nested groups included, implements some hook
-- interface, and dialing succeeds, as does the version check if old clusters are to be rejected.
pub new_client-accepts :
    (cfg : Config) (dialled current : Bool)
    → is_made (new_client cfg dialled current) ≡ (
        not (is_empty cfg.endpoints)
        && (limits_fit cfg
            && (all any_interface (leaves_of cfg.hooks) && lets_in cfg dialled current)))
unfolding new_client
new_client-accepts cfg dialled current = elim (Bool-cases (is_empty cfg.endpoints)) [
  | inl h ↦ rw h refl
  | inr h ↦ rw h (
      with_call_opts-made cfg dialled current _
      ∙ ap (λ b. b && (all any_interface (leaves_of cfg.hooks) && lets_in cfg dialled current))
          (choose_call_opts-fits cfg))
]

-- What a client that was made has of its configuration.
abbrev pub Hooked : Config → Client → Type 0
Hooked cfg c =
    (ps : List Hook) × (process_hooks cfg.hooks ≡ some ps)
    × (c.told ≡ get_hooks (λ h. h.new_client) ps)
    × (c.kv_hooks ≡ get_hooks (λ h. h.kv_op_do) (list_of cfg.hooks))
    × (c.cfg ≡ cfg)
    × (c.endpoints ≡ cfg.endpoints)

let_in :
    (refused : Bool) (d c : Client)
    → (if refused then failed old_cluster else made d) ≡ made c
    → d ≡ c
let_in true d c h = cc
let_in false d c h = cc

with_hooks-Hooked :
    (cfg : Config) (opts : List CallOpt) (dialled current : Bool) (o : Option (List Hook))
    (c : Client)
    → process_hooks cfg.hooks ≡ o
    → with_hooks cfg opts dialled current o ≡ made c
    → Hooked cfg c
unfolding with_hooks
with_hooks-Hooked cfg opts dialled current none c e h = cc
with_hooks-Hooked cfg opts true current (some ps) c e h =
    let same = let_in (cfg.reject_old_cluster && not current) _ c h in
    (
      ps,
      e,
      sym (ap (λ d. d.told) same),
      sym (ap (λ d. d.kv_hooks) same),
      sym (ap (λ d. d.cfg) same),
      sym (ap (λ d. d.endpoints) same),
    )
with_hooks-Hooked cfg opts false current (some ps) c e h = cc

with_call_opts-Hooked :
    (cfg : Config) (dialled current : Bool) (o : Option (List CallOpt)) (c : Client)
    → with_call_opts cfg dialled current o ≡ made c
    → Hooked cfg c
unfolding with_call_opts
with_call_opts-Hooked cfg dialled current none c h = cc
with_call_opts-Hooked cfg dialled current (some opts) c h =
    with_hooks-Hooked cfg opts dialled current (process_hooks cfg.hooks) c refl h

pub new_client-Hooked :
    (cfg : Config) (dialled current : Bool) (c : Client)
    → new_client cfg dialled current ≡ made c
    → Hooked cfg c
unfolding new_client
new_client-Hooked cfg dialled current c h = elim (Bool-cases (is_empty cfg.endpoints)) [
  | inl e ↦ absurd (failed-ne-made (rw e at h))
  | inr e ↦ with_call_opts-Hooked cfg dialled current _ c (rw e at h)
]
  where
    failed-ne-made : {x : ClientErr} → ¬ (failed x ≡ made c)
    failed-ne-made p = cc

process_hooks-map :
    (hs : Hooks) (ps : List Hook) → process_hooks hs ≡ some ps → ps ≡ map single (leaves_of hs)
process_hooks-map hs ps h =
    by_test (all any_interface (leaves_of hs)) (sym (process_hooks-leaves hs) ∙ h)
  where
    by_test :
        (b : Bool)
        → (if b then some (map single (leaves_of hs)) else none) ≡ some ps
        → ps ≡ map single (leaves_of hs)
    by_test true e = sym (some-injective _ _ e)
    by_test false e = absurd (none-ne-some _ e)

leaves_of-group : (hs : Hooks) → leaves_of (cons (group hs) nil) ≡ leaves_of hs
unfolding leaves_of
leaves_of-group hs = append-nil (leaves_of hs)

pub new_client-kept :
    (cfg : Config) (dialled current : Bool) (c : Client)
    → new_client cfg dialled current ≡ made c
    → (c.cfg ≡ cfg) × (c.endpoints ≡ cfg.endpoints)
new_client-kept cfg dialled current c h =
    let (ps, e, told, around, kept, eps) = new_client-Hooked cfg dialled current c h in (kept, eps)

-- A client whose hooks are given as one group tells every hook in it that implements `HookNewClient`
-- of the new client, and then calls none of them around its key-value operations, whatever they
-- implement.
pub new_client-group :
    (cfg : Config) (dialled current : Bool) (hs : Hooks) (c : Client)
    → cfg.hooks ≡ cons (group hs) nil
    → new_client cfg dialled current ≡ made c
    → (c.told ≡ get_hooks (λ h. h.new_client) (map single (leaves_of hs))) × (c.kv_hooks ≡ [])
new_client-group cfg dialled current hs c group_only h =
    let (ps, e, told, around, kept, eps) = new_client-Hooked cfg dialled current c h in
    let flat : ps ≡ map single (leaves_of hs) =
      process_hooks-map (cons (group hs) nil) ps (rw group_only at e)
      ∙ ap (map single) (leaves_of-group hs) in
    (
      told ∙ ap (get_hooks (λ x. x.new_client)) flat,
      around ∙ unfold get_hooks in rw group_only refl,
    )

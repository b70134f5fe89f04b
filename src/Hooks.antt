-- ===== src/Hooks.antt =====
-- hooks.go, and `processHooks` of config.go: hooks, found by the interfaces that they implement, and
-- groups of hooks.
pub mod Flatten
use regatta_go.Prelude.{
  ℕ, Bool, true, false, ◌||◌, Option, none, some, List, [], ◌∷◌, ◌++◌, if◌then◌else◌,
}

-- A value that is no slice of hooks: which of the five hook interfaces it implements.
pub record Caps : Type 0 where
  pub name : ℕ
  pub new_client : Bool
  pub client_closed : Bool
  pub handle_rpc : Bool
  pub handle_conn : Bool
  pub kv_op_do : Bool

mutual
  pub data Hook : Type 0 where
    single : Caps → Hook
    group : Hooks → Hook

  pub data Hooks : Type 0 where
    nil : Hooks
    cons : Hook → Hooks → Hooks

-- A slice of hooks as a list.
abbrev pub list_of : Hooks → List Hook
list_of nil = []
list_of (cons h hs) = h ∷ list_of hs

abbrev pub hooks_of : List Hook → Hooks
hooks_of [] = nil
hooks_of (h ∷ hs) = cons h (hooks_of hs)

-- The type assertion `h.(T)`, where `p` tells the interface: a slice implements none.
abbrev pub implements : (Caps → Bool) → Hook → Bool
implements p (single c) = p c
implements p (group hs) = false

unfoldable pub get_hooks : (Caps → Bool) → List Hook → List Hook
get_hooks p [] = []
get_hooks p (h ∷ hs) = let rest = get_hooks p hs in if implements p h then h ∷ rest else rest

-- `fn` changes the state of the program.
unfoldable pub call_hooks : {S : Type 0} → (Caps → Bool) → List Hook → (Hook → S → S) → S → S
call_hooks p [] fn s = s
call_hooks p (h ∷ hs) fn s = call_hooks p hs fn (if implements p h then fn h s else s)

abbrev pub any_interface : Caps → Bool
any_interface c = c.new_client || c.client_closed || c.handle_rpc || c.handle_conn || c.kv_op_do

unfoldable pub implements_any_hook : Hook → Bool
implements_any_hook h = implements any_interface h

abbrev join : {A : Type 0} → Option (List A) → Option (List A) → Option (List A)
join none r = none
join (some xs) none = none
join (some xs) (some ys) = some (xs ++ ys)

-- `none` is the error "found an argument that implements no hook interfaces".
unfoldable mutual
  pub process_hook : Hook → Option (List Hook)
  process_hook (single c) = if any_interface c then some (single c ∷ []) else none
  process_hook (group hs) = process_hooks hs

  pub process_hooks : Hooks → Option (List Hook)
  process_hooks nil = some []
  process_hooks (cons h hs) = join (process_hook h) (process_hooks hs)

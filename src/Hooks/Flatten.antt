-- ===== src/Hooks/Flatten.antt =====
-- What `processHooks` makes of nested groups.
use regatta_go.Prelude.{
  all, ◌≡◌, refl, Bool, true, false, ◌&&◌, Option, none, some, List, [], ◌∷◌, ◌++◌, map,
  if◌then◌else◌, arith,
}
use mathlib.Core.List.{map-append}
use regatta_go.Hooks.{
  Caps, Hook, single, group, Hooks, nil, cons, any_interface, join, process_hook, process_hooks,
}

-- The values in a hook or a list of hooks, from left to right.
unfoldable mutual
  pub leaves : Hook → List Caps
  leaves (single c) = c ∷ []
  leaves (group hs) = leaves_of hs

  pub leaves_of : Hooks → List Caps
  leaves_of nil = []
  leaves_of (cons h hs) = leaves h ++ leaves_of hs

-- All of the values, if each implements some hook interface.
abbrev pub checked : List Caps → Option (List Hook)
checked cs = if all any_interface cs then some (map single cs) else none

all-append :
    {A : Type 0} (p : A → Bool) (xs ys : List A) → all p (xs ++ ys) ≡ (all p xs && all p ys)
all-append p [] ys = refl
all-append p (x ∷ xs) ys = ground (arith, all-append p xs ys)

join-checked : (xs ys : List Caps) → join (checked xs) (checked ys) ≡ checked (xs ++ ys)
join-checked xs ys =
    rw (all-append any_interface xs ys, map-append)
      (by_tests (all any_interface xs) (all any_interface ys))
  where
    by_tests :
        (b c : Bool)
        → join (if b then some (map single xs) else none) (if c then some (map single ys) else none)
          ≡ (if b && c then some (map single xs ++ map single ys) else none)
    by_tests true true = refl
    by_tests true false = refl
    by_tests false c = refl

mutual
  unfolding process_hook leaves

  process_hook-checked : (h : Hook) → process_hook h ≡ checked (leaves h)
  process_hook-checked (single c) = ground arith
  process_hook-checked (group hs) = process_hooks-checked hs

  process_hooks-checked : (hs : Hooks) → process_hooks hs ≡ checked (leaves_of hs)
  process_hooks-checked nil = refl
  process_hooks-checked (cons h hs) =
      rw (process_hook-checked h, process_hooks-checked hs) (join-checked (leaves h) (leaves_of hs))

-- However deep the groups are nested, the processed hooks are the single values in them, from left
-- to right, and there is an error exactly when one of these implements no hook interface.
pub process_hooks-leaves :
    (hs : Hooks)
    → process_hooks hs
      ≡ (if all any_interface (leaves_of hs) then some (map single (leaves_of hs)) else none)
process_hooks-leaves hs = process_hooks-checked hs

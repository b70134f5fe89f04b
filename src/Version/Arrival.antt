-- ===== src/Version/Arrival.antt =====
-- client.go: `checkVersion` in any order of arrival.
use mathlib.Core.List.{Permᴰ}
use mathlib.Core.List.Permᴰ.{nil, cons, swap, trans}
use regatta_go.Prelude.{
  all, arith, ◌≡◌, refl, sym, ◌∙◌, ap, Bool, not, ◌&&◌, Option, none, some, List, [], ◌∷◌, map,
}
use regatta_go.Go.{is_set}
use regatta_go.Env.{Reply}
use regatta_go.Cluster.{StatusResponse}
use regatta_go.Version.{VersionErr, version_error, check_version}

all-Perm : {A : Type 0} (p : A → Bool) {xs ys : List A} → Permᴰ xs ys → all p xs ≡ all p ys
all-Perm p nil = refl
all-Perm p (cons {a} {b} e d) = rw (e, all-Perm p d) refl
all-Perm p (swap {a} {b} {l = l} e e') = rw (e, e') (swapped _ _ (all p l))
  where
    swapped : (a b c : Bool) → (a && (b && c)) ≡ (b && (a && c))
    swapped a b c = ground arith
all-Perm p (trans d d') = all-Perm p d ∙ all-Perm p d'

pub all-map :
    {A B : Type 0} (p : B → Bool) (f : A → B) (xs : List A)
    → all p (map f xs) ≡ all (λ x. p (f x)) xs
all-map p f [] = refl
all-map p f (x ∷ xs) = ap (λ b. p (f x) && b) (all-map p f xs)

module _ {E : Type 0} where
  abbrev pub passes : Option (VersionErr E) → Bool
  passes o = not (is_set o)

  check_version-all :
      (rs : List (Option (VersionErr E))) → passes (check_version rs) ≡ all passes rs
  unfolding check_version
  check_version-all [] = refl
  check_version-all (none ∷ rs) = check_version-all rs
  check_version-all (some e ∷ rs) = refl

  -- In whatever order the results of the endpoints arrive, the check passes exactly when every endpoint
  -- passes on its own: one that cannot be reached, or whose version cannot be read or is old, fails it.
  pub check_version-arrival :
      {Json : Type 0} (replies : List (Reply E (StatusResponse Json)))
      (arrived : List (Option (VersionErr E)))
      → Permᴰ (map version_error replies) arrived
      → passes (check_version arrived) ≡ all (λ r. passes (version_error r)) replies
  check_version-arrival replies arrived d =
      check_version-all arrived ∙ sym (all-Perm passes d) ∙ all-map passes version_error replies

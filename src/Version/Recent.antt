-- ===== src/Version/Recent.antt =====
-- client.go: which reply of an endpoint is recent enough, told apart from how the check computes it.
use regatta_go.Prelude.{
  zero, suc, ◌≡◌, refl, ℤ, pos, negsuc, Bool, true, false, Option, none, some, List, [], ◌∷◌, leb,
  arith,
}
use regatta_go.Go.{Bytes}
use regatta_go.Go.Strings.{split}
use regatta_go.Go.Decimal.{atoi}
use regatta_go.Env.{Reply, resp, fail}
use regatta_go.Cluster.{StatusResponse}
use regatta_go.Version.{VersionErr, is_old, by_numbers, by_parts, version_error}
use regatta_go.Version.Counts.{good}

-- Two numbers that were read, of at least 0 and 5, or the first of at least 1.
abbrev pub at_least : Option ℤ → Option ℤ → Bool
at_least (some (pos zero)) (some (pos n)) = leb 5 n
at_least (some (pos (suc m))) (some n) = true
at_least _ _ = false

-- The parts of a version, of which there must be two.
abbrev pub recent_parts : List Bytes → Bool
recent_parts (a ∷ b ∷ rest) = at_least (atoi a) (atoi b)
recent_parts _ = false

-- A status that was given, and whose version begins with two such numbers.
abbrev pub is_recent : {E Json : Type 0} → Reply E (StatusResponse Json) → Bool
is_recent (fail e) = false
is_recent (resp r) = recent_parts (split b'.' r.version)

module _ (E : Type 0) where
  numbers :
      (a b : Bytes) (maj minor : Option ℤ)
      → good (VersionErr E) (by_numbers a b maj minor) ≡ at_least maj minor
  unfolding by_numbers is_old
  numbers a b none none = refl
  numbers a b none (some n) = refl
  numbers a b (some (pos zero)) none = refl
  numbers a b (some (pos (suc m))) none = refl
  numbers a b (some (negsuc m)) none = refl
  numbers a b (some (pos zero)) (some (pos n)) = ground arith
  numbers a b (some (pos zero)) (some (negsuc n)) = refl
  numbers a b (some (pos (suc m))) (some n) = refl
  numbers a b (some (negsuc m)) (some n) = refl

  parts : (ps : List Bytes) → good (VersionErr E) (by_parts ps) ≡ recent_parts ps
  unfolding by_parts
  parts [] = refl
  parts (a ∷ []) = refl
  parts (a ∷ b ∷ rest) = numbers a b (atoi a) (atoi b)

  pub version_error-recent :
      {Json : Type 0} (r : Reply E (StatusResponse Json))
      → good (VersionErr E) (version_error r) ≡ is_recent r
  unfolding version_error
  version_error-recent (fail e) = refl
  version_error-recent (resp r) = parts (split b'.' r.version)

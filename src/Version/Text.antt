-- ===== src/Version/Text.antt =====
-- client.go: what `checkVersion` makes of the text of a version.
use regatta_go.Prelude.{
  ℕ, zero, suc, ◌+◌, ◌^◌, ◌<◌, ◌≡◌, refl, ◌∙◌, ap, pos, false, not, ◌&&◌, Option, none, some, List,
  [], ◌∷◌, ◌++◌, ltb, ◌==◌, arith, if◌then◌else◌,
}
use mathlib.Core.List.{append-nil}
use regatta_go.Go.{Bytes}
use regatta_go.Go.Strings.{has_byte, split, split-first, split-only}
use regatta_go.Go.Decimal.{IsDigits, value, written, atoi-written}
use regatta_go.Env.{resp}
use regatta_go.Cluster.{StatusResponse}
use regatta_go.Version.{VersionErr, old_cluster, version_error, by_parts, by_numbers, is_old}
use regatta_go.Version.Arrival.{passes}

-- What follows the two numbers: nothing, or a dot and anything.
abbrev pub ended : Option Bytes → Bytes
ended none = []
ended (some rest) = b'.' ∷ rest

no_dot : (ds : Bytes) → IsDigits ds → has_byte b'.' (written ds) ≡ false
no_dot [] h = refl
no_dot (x ∷ xs) (h, hs) = rw (differs x h, no_dot xs hs) refl
  where
    differs : (x : ℕ) → x < 10 → (x + b'0' == b'.') ≡ false
    differs x h = ground arith

second_part :
    (ds : Bytes) (rest : Option Bytes)
    → IsDigits ds
    → (more : List Bytes) × (split b'.' (written ds ++ ended rest) ≡ written ds ∷ more)
second_part ds none h =
    ([], rw (append-nil (written ds)) (split-only b'.' (written ds) (no_dot ds h)))
second_part ds (some rest) h = (split b'.' rest, split-first b'.' (written ds) rest (no_dot ds h))

floor :
    {E : Type 0} (e : VersionErr E) (maj minor : ℕ)
    → passes (if is_old (pos maj) (pos minor) then some e else none) ≡ not (maj == 0 && ltb minor 5)
unfolding is_old
floor e zero minor = ground arith
floor e (suc maj) minor = ground arith

-- An endpoint whose version begins with two decimal numbers below 2^63, a dot between them, and ends
-- there or goes on with a dot and anything, passes unless the first is 0 and the second below 5.
pub version_error-text :
    (E : Type 0) {Json : Type 0} (r : StatusResponse Json) (a b : ℕ) (as' bs : Bytes)
    (rest : Option Bytes)
    → IsDigits (a ∷ as')
    → IsDigits (b ∷ bs)
    → value 0 (a ∷ as') < 2 ^ 63
    → value 0 (b ∷ bs) < 2 ^ 63
    → r.version ≡ written (a ∷ as') ++ b'.' ∷ (written (b ∷ bs) ++ ended rest)
    → passes (version_error {E = E} (resp r))
      ≡ not (value 0 (a ∷ as') == 0 && ltb (value 0 (b ∷ bs)) 5)
unfolding version_error by_parts by_numbers
version_error-text E r a b as' bs rest ha hb va vb h =
    let (more, q) = second_part (b ∷ bs) rest hb in
    ap (λ s. passes {E = E} (by_parts (split b'.' s))) h
    ∙ ap (λ ps. passes {E = E} (by_parts ps))
        (split-first b'.' (written (a ∷ as')) (written (b ∷ bs) ++ ended rest) (no_dot (a ∷ as') ha)
          ∙ ap (λ ps. written (a ∷ as') ∷ ps) q)
    ∙ rw (atoi-written a as' ha va, atoi-written b bs hb vb)
        (floor {E = E} old_cluster (value 0 (a ∷ as')) (value 0 (b ∷ bs)))

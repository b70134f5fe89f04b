-- ===== src/Go/Strings.antt =====
-- What the client uses of the packages strings, path, net and strconv, on strings as byte lists.
use regatta_go.Prelude.{
  arith, ◌≡◌, refl, ℕ, ◌+◌, Bool, true, false, not, ◌&&◌, ◌||◌, Option, none, some, List, [], ◌∷◌,
  ◌++◌, length, drop, ◌==◌, if◌then◌else◌,
}
use regatta_go.Go.{Bytes, codes, is_empty, is_set, has_prefix}

-- `strings.IndexByte(s, c) >= 0`
abbrev pub has_byte : ℕ → Bytes → Bool
has_byte c [] = false
has_byte c (x ∷ xs) = x == c || has_byte c xs

abbrev pub push_left : ℕ → Option (Bytes × Bytes) → Option (Bytes × Bytes)
push_left x none = none
push_left x (some (a, b)) = some (x ∷ a, b)

-- `strings.SplitN(s, sep, 2)` for a separator that is not empty: the two parts, or `none` where
-- there is one part only.
abbrev pub cut : Bytes → Bytes → Option (Bytes × Bytes)
cut sep [] = none
cut sep (x ∷ xs) =
    if has_prefix (x ∷ xs) sep
    then some ([], drop (length sep) (x ∷ xs))
    else push_left x (cut sep xs)

-- `strings.Contains`
abbrev pub contains : Bytes → Bytes → Bool
contains sep s = is_set (cut sep s)

or_here : ℕ → ℕ → Bytes → Option (Bytes × Bytes) → Option (Bytes × Bytes)
or_here c x xs (some (a, b)) = some (x ∷ a, b)
or_here c x xs none = if x == c then some ([], xs) else none

-- The parts before and after the last byte `c`.
unfoldable pub cut_last : ℕ → Bytes → Option (Bytes × Bytes)
unfolding or_here
cut_last c [] = none
cut_last c (x ∷ xs) = or_here c x xs (cut_last c xs)

-- `path.Base`: the last element, after any slashes at the end are gone.
unfoldable pub strip_slashes : Bytes → Bytes
strip_slashes [] = []
strip_slashes (x ∷ xs) =
    let rest = strip_slashes xs in if is_empty rest && x == b'/' then [] else x ∷ rest

after_cut : Bytes → Option (Bytes × Bytes) → Bytes
after_cut s none = s
after_cut s (some (a, b)) = b

or_slash : Bytes → Bytes
or_slash [] = codes "/"
or_slash (x ∷ xs) = x ∷ xs

unfoldable pub base : Bytes → Bytes
unfolding strip_slashes cut_last after_cut or_slash
base [] = codes "."
base (x ∷ xs) =
    let stripped = strip_slashes (x ∷ xs) in or_slash (after_cut stripped (cut_last b'/' stripped))

-- `net.SplitHostPort` without the port; `none` is its error. `a` is what stands before the last
-- colon; in brackets, `h` is what stands before the first `]`, and `after` what follows it.
host_in_brackets : Bytes → Option (Bytes × Bytes) → Option Bytes
host_in_brackets a none = none
host_in_brackets a (some (h, after)) =
    if not (length h + 1 == length a) || is_empty after
    then none
    else if has_byte b'[' (drop 1 h) || has_byte b'[' after || has_byte b']' after
    then none
    else some (drop 1 h)

plain_host : Bytes → Bytes → Option Bytes
plain_host s a =
    if has_byte b':' a then none else if has_byte b'[' s || has_byte b']' s then none else some a

host_before : Bytes → Option (Bytes × Bytes) → Option Bytes
unfolding host_in_brackets plain_host
host_before s none = none
host_before s (some (a, port)) =
    if has_prefix s (b'[' ∷ []) then host_in_brackets a (cut (b']' ∷ []) s) else plain_host s a

unfoldable pub split_host : Bytes → Option Bytes
unfolding cut_last host_before
split_host s = host_before s (cut_last b':' s)

push_part : ℕ → List Bytes → List Bytes
push_part x [] = (x ∷ []) ∷ []
push_part x (p ∷ ps) = (x ∷ p) ∷ ps

-- `strings.Split(s, sep)` for a separator of one byte: one part more than there are separators.
unfoldable pub split : ℕ → Bytes → List Bytes
unfolding push_part
split c [] = [] ∷ []
split c (x ∷ xs) = let rest = split c xs in if x == c then [] ∷ rest else push_part x rest

neither : (a b : Bool) → (a || b) ≡ false → (a ≡ false) × (b ≡ false)
neither a b h = (ground arith, ground arith)

same : (c : ℕ) → (c == c) ≡ true
same c = ground arith

-- The first part ends at the first separator.
pub split-first :
    (c : ℕ) (p s : Bytes) → has_byte c p ≡ false → split c (p ++ c ∷ s) ≡ p ∷ split c s
unfolding split push_part
split-first c [] s h = rw (same c) refl
split-first c (x ∷ xs) s h =
    let (a, b) = neither (x == c) (has_byte c xs) h in rw (a, split-first c xs s b) refl

pub split-only : (c : ℕ) (p : Bytes) → has_byte c p ≡ false → split c p ≡ p ∷ []
unfolding split push_part
split-only c [] h = refl
split-only c (x ∷ xs) h =
    let (a, b) = neither (x == c) (has_byte c xs) h in rw (a, split-only c xs b) refl

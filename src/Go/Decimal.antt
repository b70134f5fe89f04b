-- ===== src/Go/Decimal.antt =====
-- What the client uses of the package strconv: `Atoi` on decimal digits.
use regatta_go.Prelude.{
  arith, ◌≡◌, refl, ◌<◌, map, lt→ltb, ℕ, zero, suc, ◌+◌, ◌-◌, ◌*◌, ◌^◌, ℤ, pos, negsuc, Bool, true,
  false, ◌&&◌, Option, none, some, [], ◌∷◌, drop, ltb, leb, if◌then◌else◌,
}
use regatta_go.Go.{Bytes, codes, has_prefix}

is_digit : ℕ → Bool
is_digit x = leb b'0' x && leb x b'9'

-- The value of decimal digits behind those with the value `n`.
unfoldable pub digits : ℕ → Bytes → Option ℕ
unfolding is_digit
digits n [] = some n
digits n (x ∷ xs) = let rest = digits (n * 10 + (x - b'0')) xs in if is_digit x then rest else none

above_zero : Option ℕ → Option ℤ
above_zero none = none
above_zero (some n) = if ltb n (2 ^ 63) then some (pos n) else none

below_zero : Option ℕ → Option ℤ
below_zero none = none
below_zero (some zero) = some (pos zero)
below_zero (some (suc n)) = if ltb n (2 ^ 63) then some (negsuc n) else none

one_digit : Bytes → Option ℕ
one_digit [] = none
one_digit (x ∷ xs) = digits 0 (x ∷ xs)

-- `strconv.Atoi` for an int of 64 bits; `none` is its error.
unfoldable pub atoi : Bytes → Option ℤ
unfolding above_zero below_zero one_digit digits
atoi s =
    if has_prefix s (codes "-")
    then below_zero (one_digit (drop 1 s))
    else if has_prefix s (codes "+")
    then above_zero (one_digit (drop 1 s))
    else above_zero (one_digit s)

-- Decimal digits, the number that they write, and how they are written.
abbrev pub IsDigits : Bytes → Type 0
IsDigits [] = Unit
IsDigits (x ∷ xs) = (x < 10) × IsDigits xs

abbrev pub value : ℕ → Bytes → ℕ
value n [] = n
value n (x ∷ xs) = value (n * 10 + x) xs

abbrev pub written : Bytes → Bytes
written = map (λ x. x + b'0')

is_digit-written : (x : ℕ) → x < 10 → is_digit (x + b'0') ≡ true
unfolding is_digit
is_digit-written x h = ground arith

unshifted : (n x : ℕ) → n * 10 + (x + b'0' - b'0') ≡ n * 10 + x
unshifted n x = omega arith

no_sign :
    (x : ℕ) (s : Bytes)
    → (has_prefix ((x + b'0') ∷ s) (codes "-") ≡ false)
      × (has_prefix ((x + b'0') ∷ s) (codes "+") ≡ false)
no_sign x s = (ground arith, ground arith)

digits-written : (n : ℕ) (ds : Bytes) → IsDigits ds → digits n (written ds) ≡ some (value n ds)
unfolding digits is_digit
digits-written n [] h = refl
digits-written n (x ∷ xs) (h, hs) =
    rw (is_digit-written x h, unshifted n x) (digits-written (n * 10 + x) xs hs)

pub atoi-written :
    (x : ℕ) (ds : Bytes)
    → IsDigits (x ∷ ds)
    → value 0 (x ∷ ds) < 2 ^ 63
    → atoi (written (x ∷ ds)) ≡ some (pos (value 0 (x ∷ ds)))
unfolding atoi one_digit above_zero
atoi-written x ds (h, hs) b =
    let (m, p) = no_sign x (written ds) in
    rw (m, p, digits-written 0 (x ∷ ds) (h, hs), lt→ltb _ _ b) refl

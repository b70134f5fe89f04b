-- ===== src/Go/Utf8.antt =====
-- `utf8.Valid` of the package unicode/utf8: after the first byte of a character, the bytes that are
-- still to come and the bounds of the next.
use regatta_go.Prelude.{
  ℕ, zero, suc, ◌==◌, Bool, false, ◌&&◌, Option, none, some, [], ◌∷◌, ltb, leb, if◌then◌else◌,
}
use regatta_go.Go.{Bytes}

-- The bytes after a first byte, and the bounds of the second.
lead : ℕ → Option (ℕ × ℕ × ℕ)
lead x =
    if ltb x 0x80
    then some (0, 0x80, 0xbf)
    else if ltb x 0xc2
    then none
    else if ltb x 0xe0
    then some (1, 0x80, 0xbf)
    else if x == 0xe0
    then some (2, 0xa0, 0xbf)
    else if x == 0xed
    then some (2, 0x80, 0x9f)
    else if ltb x 0xf0
    then some (2, 0x80, 0xbf)
    else if x == 0xf0
    then some (3, 0x90, 0xbf)
    else if ltb x 0xf4
    then some (3, 0x80, 0xbf)
    else if x == 0xf4
    then some (3, 0x80, 0x8f)
    else none

scan : ℕ → ℕ → ℕ → Bytes → Bool
unfolding lead
scan n low high [] = n == 0
scan zero low high (x ∷ xs) = elim (lead x) [
  | none ↦ false
  | some (n, low', high') ↦ scan n low' high' xs
]
scan (suc n) low high (x ∷ xs) = let rest = scan n 0x80 0xbf xs in (leb low x && leb x high) && rest

unfoldable pub utf8_valid : Bytes → Bool
unfolding scan
utf8_valid s = scan 0 0x80 0xbf s

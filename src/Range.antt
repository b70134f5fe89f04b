-- ===== src/Range.antt =====
-- The keys that a request selects, as the comments on `range_end` in
-- internal/proto/regatta.pb.go and internal/proto/mvcc.pb.go document it.
use regatta_go.Prelude.{
  Bool, true, false, not, ◌&&◌, ◌||◌, Option, none, some, [], ◌∷◌, ltb, ◌==◌, if◌then◌else◌,
}
use regatta_go.Go.{Bytes, bytes_eq, is_empty}

-- The lexicographic order of byte strings.
abbrev pub lex_lt : Bytes → Bytes → Bool
lex_lt [] [] = false
lex_lt [] (y ∷ ys) = true
lex_lt (x ∷ xs) [] = false
lex_lt (x ∷ xs) (y ∷ ys) = ltb x y || (x == y && lex_lt xs ys)

abbrev pub lex_le : Bytes → Bytes → Bool
lex_le a b = not (lex_lt b a)

-- No range end selects the key alone, "\0" all keys from `key` on, and any other end the keys of
-- the half-open range [key, end).
abbrev pub in_range : Bytes → Option Bytes → Bytes → Bool
in_range key none s = bytes_eq s key
in_range key (some end) s =
    if is_empty end
    then bytes_eq s key
    else if bytes_eq end (0 ∷ [])
    then lex_le key s
    else lex_le key s && lex_lt s end

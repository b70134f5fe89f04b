-- ===== src/Tests/Compression.antt =====
-- Compression at concrete inputs: a reader is the bytes that are left of its source.
use regatta_go.Prelude.{ℕ, ◌+◌, ◌≡◌, ap, Option, none, some, List, [], ◌∷◌, take, drop}
use regatta_go.Go.{Bytes, codes}
use regatta_go.Snappy.{IoErr, eof, Pools, no_items, decompress}
use regatta_go.Snappy.Owners.{once, count, none_read, handed_out, decompress-unshared}

abbrev first : List ℕ → Option (ℕ × List ℕ)
first [] = none
first (z ∷ zs) = some (z, zs)

abbrev counted_by : ℕ → Option (ℕ × List ℕ) → ℕ
counted_by i none = 0
counted_by i (some (z, zs)) = once i z + count i zs

first-picks :
    (xs : List ℕ) (z : ℕ) (rest : List ℕ)
    → first xs ≡ some (z, rest)
    → (i : ℕ) → count i xs ≡ once i z + count i rest
first-picks [] z rest h i = cc
first-picks (x ∷ xs) z rest h i = ap (counted_by i) h

abbrev read_once : Bytes → ℕ → (Bytes × Option IoErr) × Bytes
read_once [] n = (([], some eof), [])
read_once (x ∷ xs) n = ((take n (x ∷ xs), none), drop n (x ∷ xs))

abbrev take_source : Bytes → Bytes → Bytes
take_source src reader = src

abbrev opened : ℕ × Pools Bytes
opened = decompress first (λ src. src) take_source read_once (codes "ab") (no_items [])

decompress-unshared_example :
    count
      (decompress first (λ src. src) take_source read_once (codes "c") opened.1).0
      (opened.0 ∷ [])
    ≡ 0
decompress-unshared_example =
    decompress-unshared first [] (λ src. src) take_source read_once first-picks opened.1
      (opened.0 ∷ []) (codes "c") (handed_out (codes "ab") none_read)

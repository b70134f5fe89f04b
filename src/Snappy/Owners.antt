-- ===== src/Snappy/Owners.antt =====
-- internal/snappy/grpc.go: who reads from a reader.
use regatta_go.Prelude.{
  ℕ, ◌+◌, ◌≤◌, ◌≡◌, refl, ◌==◌, Option, none, some, List, [], ◌∷◌, ◌⊎◌, if◌then◌else◌, arith, inl,
  inr,
}
use regatta_go.Go.{Bytes}
use regatta_go.Snappy.{IoErr, eof, other_error, Pools, no_items, taken, decompress, if_ended, read}

abbrev pub once : ℕ → ℕ → ℕ
once i z = if i == z then 1 else 0

abbrev pub count : ℕ → List ℕ → ℕ
count i [] = 0
count i (z ∷ zs) = once i z + count i zs

once-cases : (i z : ℕ) → ((i ≡ z) × (once i z ≡ 1)) ⊎ (once i z ≡ 0)
once-cases i z = ground arith

once-same : (z : ℕ) → once z z ≡ 1
once-same z = ground arith

module _ (pick : List ℕ → Option (ℕ × List ℕ)) {Reader Source : Type 0} (zero_reader : Reader)
    (new_reader : Source → Reader) (reset : Source → Reader → Reader)
    (read_once : Reader → ℕ → (Bytes × Option IoErr) × Reader) where
  abbrev after : ℕ → ℕ → Pools Reader → (Bytes × Option IoErr) × Pools Reader
  after = read pick new_reader reset read_once

  -- The pools and the readers that are being read, in a program that reads none after its end.
  pub data Reachable : Pools Reader → List ℕ → Type 0 where
    none_read : Reachable (no_items zero_reader) []
    handed_out :
        {s : Pools Reader} {open_ones : List ℕ} (r : Source)
        → Reachable s open_ones
        → Reachable
            (decompress pick new_reader reset read_once r s).1
            ((decompress pick new_reader reset read_once r s).0 ∷ open_ones)
    went_on :
        {s : Pools Reader} {open_ones : List ℕ} (z n : ℕ)
        → Reachable s open_ones
        → (after z n s).0.1 ≡ none
        → Reachable (after z n s).1 open_ones
    stopped :
        {s : Pools Reader} {open_ones : List ℕ} (z n e : ℕ)
        → Reachable s open_ones
        → (after z n s).0.1 ≡ some (other_error e)
        → Reachable (after z n s).1 open_ones
    ended :
        {s : Pools Reader} {open_ones rest : List ℕ} (z n : ℕ)
        → Reachable s open_ones
        → ((i : ℕ) → count i open_ones ≡ once i z + count i rest)
        → (after z n s).0.1 ≡ some eof
        → Reachable (after z n s).1 rest

  -- A reader is read by one, or free, or neither, and none above `next` is either.
  abbrev Owned : Pools Reader → List ℕ → Type 0
  Owned s open_ones =
      (i : ℕ)
      → (count i open_ones + count i s.free ≤ 1)
        × (s.next ≤ i → count i open_ones + count i s.free ≡ 0)

  module _
      (picks : (xs : List ℕ) (z : ℕ) (rest : List ℕ)
        → pick xs ≡ some (z, rest)
        → (i : ℕ) → count i xs ≡ once i z + count i rest) where
    taken-Owned :
        (r : Source) (s : Pools Reader) (open_ones : List ℕ) (o : Option (ℕ × List ℕ))
        → pick s.free ≡ o
        → Owned s open_ones
        → (count (taken pick (new_reader r) (reset r) s o).0 open_ones ≡ 0)
          × Owned
              (taken pick (new_reader r) (reset r) s o).1
              ((taken pick (new_reader r) (reset r) s o).0 ∷ open_ones)
    unfolding taken
    taken-Owned r s open_ones none h own = (
      (let q = (own s.next).1 (omega arith) in omega arith),
      λ i. elim (once-cases i s.next) [
        | inl (e, o) ↦ (let q = (own i).1 (omega arith) in (omega arith, λ l. absurd (omega arith)))
        | inr o ↦
            (let q = (own i).0 in
              (omega arith, λ l. let q' = (own i).1 (omega arith) in omega arith))
      ],
    )
    taken-Owned r s open_ones (some (z, rest)) h own = (
      (let p = picks s.free z rest h z in let q = (own z).0 in let o = once-same z in omega arith),
      λ i.
          let p = picks s.free z rest h i in
          let q = (own i).0 in (omega arith, λ l. let q' = (own i).1 l in omega arith),
    )

    Reachable-Owned :
        (s : Pools Reader) (open_ones : List ℕ) → Reachable s open_ones → Owned s open_ones
    unfolding decompress read if_ended
    Reachable-Owned _ _ none_read = λ i. (omega arith, λ l. refl)
    Reachable-Owned _ _ (handed_out {s} {open_ones} r p) =
        (taken-Owned r s open_ones (pick s.free) refl (Reachable-Owned s open_ones p)).1
    Reachable-Owned _ _ (went_on {s} {open_ones} z n p e) = rw e (Reachable-Owned s open_ones p)
    Reachable-Owned _ _ (stopped {s} {open_ones} z n k p e) = rw e (Reachable-Owned s open_ones p)
    Reachable-Owned _ _ (ended {s} {open_ones} {rest} z n p c e) = rw e (λ i.
        let own = Reachable-Owned s open_ones p i in
        let q = c i in let b = own.0 in (omega arith, λ l. let b' = own.1 l in omega arith))

    -- If a pool gives out what it holds and takes it out, then in a program that reads no reader
    -- after its end the reader that `Decompress` hands out is never one that is still being read,
    -- in whatever order the readers are used, and whichever free element a pool gives.
    pub decompress-unshared :
        (s : Pools Reader) (open_ones : List ℕ) (r : Source)
        → Reachable s open_ones
        → count (decompress pick new_reader reset read_once r s).0 open_ones ≡ 0
    unfolding decompress
    decompress-unshared s open_ones r p =
        (taken-Owned r s open_ones (pick s.free) refl (Reachable-Owned s open_ones p)).0

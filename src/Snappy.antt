-- ===== src/Snappy.antt =====
-- internal/snappy/grpc.go: the pools of readers and writers. The snappy library is the parameter of each
-- part; a reader or a writer is known by its number, `next` are the numbers given out. `pick` is `Get`
-- of `sync.Pool`, which may choose any element, or none.
pub mod Owners
use regatta_go.Prelude.{
  ℕ, suc, ◌==◌, Bool, true, false, Option, none, some, List, [], ◌∷◌, if◌then◌else◌,
}
use regatta_go.Go.{Bytes, codes}

pub data IoErr : Type 0 where
  eof : IoErr
  other_error : ℕ → IoErr

pub record Pools (A : Type 0) : Type 0 where
  pub next : ℕ
  pub item : ℕ → A
  pub free : List ℕ

abbrev pub no_items : {A : Type 0} → A → Pools A
no_items a = record { next = 0; item = λ i. a; free = [] }

-- A write to an item.
abbrev pub update : {A : Type 0} → ℕ → A → Pools A → Pools A
update z a s = record s { item = λ i. if i == z then a else s.item i }

abbrev pub put : {A : Type 0} → ℕ → Pools A → Pools A
put z s = record s { free = z ∷ s.free }

abbrev pub name : Bytes
name = codes "snappy"

module _ (pick : List ℕ → Option (ℕ × List ℕ)) where
  -- An item of the pool, reset, or a new one.
  taken : {A : Type 0} → A → (A → A) → Pools A → Option (ℕ × List ℕ) → ℕ × Pools A
  taken made again s none = (s.next, update s.next made (record s { next = suc s.next }))
  taken made again s (some (z, rest)) = (z, update z (again (s.item z)) (record s { free = rest }))

  module _ {Reader Source : Type 0} (new_reader : Source → Reader)
      (reset : Source → Reader → Reader)
      (read_once : Reader → ℕ → (Bytes × Option IoErr) × Reader) where
    unfoldable pub decompress : Source → Pools Reader → ℕ × Pools Reader
    unfolding taken
    decompress r s = taken (new_reader r) (reset r) s (pick s.free)

    if_ended : ℕ → Option IoErr → Pools Reader → Pools Reader
    if_ended z none s = s
    if_ended z (some eof) s = put z s
    if_ended z (some (other_error n)) s = s

    -- `Read` of a reader, into a slice of some length.
    unfoldable pub read : ℕ → ℕ → Pools Reader → (Bytes × Option IoErr) × Pools Reader
    unfolding if_ended
    read z n s = let (out, r) = read_once (s.item z) n in (out, if_ended z out.1 (update z r s))

  module _ {Writer Sink : Type 0} (new_writer : Writer) (reset : Sink → Writer → Writer)
      (close_once : Writer → Option IoErr × Writer) where
    -- A new writer is reset, too.
    unfoldable pub compress : Sink → Pools Writer → ℕ × Pools Writer
    unfolding taken
    compress w s = taken (reset w new_writer) (reset w) s (pick s.free)

    unfoldable pub close : ℕ → Pools Writer → Option IoErr × Pools Writer
    close z s = let (err, w) = close_once (s.item z) in (err, put z (update z w s))

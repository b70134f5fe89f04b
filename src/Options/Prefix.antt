-- ===== src/Options/Prefix.antt =====
-- `getPrefix`, `WithPrefix` and `WithFromKey` of op.go: which keys the ranges they set select.
use regatta_go.Prelude.{
  ℕ, zero, suc, ◌+◌, ◌%◌, ◌<◌, ◌≡◌, refl, sym, ap, ◌∙◌, Bool, true, false, ◌&&◌, Option, none, some,
  [], ◌∷◌, ltb, length, get_or, set, take, inl, inr, ltb→lt, Bool-cases, Option-cases,
  if◌then◌else◌, arith,
}
use mathlib.Core.Option.{some-injective, none-ne-some}
use regatta_go.Go.{Bytes, IsBytes, bytes_eq, is_empty, has_prefix}
use regatta_go.Range.{lex_lt, lex_le, in_range}
use regatta_go.Op.{Op, op, fields}
use regatta_go.Options.{no_prefix_end, get_prefix_loop, get_prefix, with_prefix, with_from_key}

abbrev bump_cons : ℕ → Option Bytes → Option Bytes
bump_cons x (some ys) = some (x ∷ ys)
bump_cons x none = if ltb x 255 then some ((x + 1) % 256 ∷ []) else none

-- The next prefix, from the front: add one to the last byte that is not 0xff and stop there.
abbrev bump : Bytes → Option Bytes
bump [] = none
bump (x ∷ xs) = bump_cons x (bump xs)

-- The loop with its failure kept apart.
bump_upto : Bytes → ℕ → Option Bytes
bump_upto end zero = none
bump_upto end (suc i) =
    let rest = bump_upto end i in
    if ltb (get_or end i 0) 255
    then some (take (suc i) (set end i ((get_or end i 0 + 1) % 256)))
    else rest

abbrev or_no_prefix : Option Bytes → Bytes
or_no_prefix none = no_prefix_end
or_no_prefix (some e) = e

get_prefix_loop-bump_upto : (k : Bytes) (n : ℕ) → get_prefix_loop k n ≡ or_no_prefix (bump_upto k n)
unfolding get_prefix_loop bump_upto
get_prefix_loop-bump_upto k zero = refl
get_prefix_loop-bump_upto k (suc i) = ground (arith, get_prefix_loop-bump_upto k i)

bump_upto-cons :
    (x : ℕ) (xs : Bytes) (n : ℕ) → bump_upto (x ∷ xs) (suc n) ≡ bump_cons x (bump_upto xs n)
unfolding bump_upto
bump_upto-cons x xs zero = refl
bump_upto-cons x xs (suc i) = elim (Bool-cases (ltb (get_or xs i 0) 255)) [
  | inl h ↦ rw h refl
  | inr h ↦ rw h (bump_upto-cons x xs i)
]

bump_upto-length : (k : Bytes) → bump_upto k (length k) ≡ bump k
bump_upto-length [] = unfold bump_upto in refl
bump_upto-length (x ∷ xs) = bump_upto-cons x xs (length xs) ∙ ap (bump_cons x) (bump_upto-length xs)

get_prefix-bump : (k : Bytes) → get_prefix k ≡ or_no_prefix (bump k)
unfolding get_prefix
get_prefix-bump k = get_prefix_loop-bump_upto k (length k) ∙ ap or_no_prefix (bump_upto-length k)

-- A key of bytes 0xff has no next prefix, and every key from it on has it as a prefix.
bump-none : (k s : Bytes) → bump k ≡ none → IsBytes k → IsBytes s → has_prefix s k ≡ lex_le k s
bump-none [] [] e bk bs = refl
bump-none [] (y ∷ ys) e bk bs = refl
bump-none (x ∷ xs) [] e bk bs = refl
bump-none (x ∷ xs) (y ∷ ys) e bk bs = elim (Option-cases (bump xs)) [
  | inl n ↦ ground (arith, bump-none xs ys n bk.1 bs.1)
  | inr (e', p) ↦ cc
]

-- Where the last byte below 0xff is the first one.
bump-last :
    (x : ℕ) (xs s : Bytes)
    → bump xs ≡ none
    → x < 255
    → IsBytes xs
    → IsBytes s
    → has_prefix s (x ∷ xs) ≡ (lex_le (x ∷ xs) s && lex_lt s ((x + 1) % 256 ∷ []))
bump-last x xs [] n lt bk bs = refl
bump-last x xs (y ∷ []) n lt bk bs = ground (arith, bump-none xs [] n bk)
bump-last x xs (y ∷ z ∷ zs) n lt bk bs = ground (arith, bump-none xs (z ∷ zs) n bk bs.1)

-- Where it stands further back.
bump-later :
    (x : ℕ) (xs s e : Bytes)
    → ((ys : Bytes) → IsBytes ys → has_prefix ys xs ≡ (lex_le xs ys && lex_lt ys e))
    → IsBytes s
    → has_prefix s (x ∷ xs) ≡ (lex_le (x ∷ xs) s && lex_lt s (x ∷ e))
bump-later x xs [] e ih bs = refl
bump-later x xs (y ∷ ys) e ih bs = ground (arith, ih ys bs.1)

-- Otherwise the keys with the prefix are those from the key up to the next prefix.
bump-some :
    (k s e : Bytes)
    → bump k ≡ some e
    → IsBytes k
    → IsBytes s
    → has_prefix s k ≡ (lex_le k s && lex_lt s e)
bump-some [] s e h bk bs = cc
bump-some (x ∷ xs) s e h bk bs = elim (Option-cases (bump xs)) [
  | inl n ↦ elim (Bool-cases (ltb x 255)) [
    | inl lt ↦
        rw (← some-injective _ _ (rw (n, lt) at h)) (bump-last x xs s n (ltb→lt x 255 lt) bk.1 bs)
    | inr ge ↦ absurd (none-ne-some _ (rw (n, ge) at h))
  ]
  | inr (e', p) ↦
      rw (← some-injective _ _ (rw p at h))
        (bump-later x xs s e' (λ ys bys. bump-some xs ys e' p bk.1 bys) bs)
]

-- The next prefix is not empty, and not the end "\0" that stands for no upper bound.
bump-proper :
    (k e : Bytes)
    → bump k ≡ some e
    → IsBytes k
    → (is_empty e ≡ false) × (bytes_eq e (0 ∷ []) ≡ false)
bump-proper [] e h bk = cc
bump-proper (x ∷ xs) e h bk = elim (Option-cases (bump xs)) [
  | inl n ↦ ground (arith, ap (bump_cons x) n)
  | inr (e', p) ↦ ground (arith, ap (bump_cons x) p, bump-proper xs e' p bk.1)
]

-- For any key and any stored key of bytes, the range from the key to `getPrefix` of the key holds
-- the stored key exactly when it starts with the key; a key of bytes 0xff and the empty key too.
pub get_prefix-in_range :
    (k s : Bytes) → IsBytes k → IsBytes s → in_range k (some (get_prefix k)) s ≡ has_prefix s k
get_prefix-in_range k s bk bs = elim (Option-cases (bump k)) [
  | inl n ↦ rw (get_prefix-bump, n) (sym (bump-none k s n bk bs))
  | inr (e, p) ↦
      rw (get_prefix-bump, p, (bump-proper k e p bk).0, (bump-proper k e p bk).1)
        (sym (bump-some k s e p bk bs))
]

abbrev pub selects : Op → Bytes → Bool
selects o s = in_range (fields o).key (fields o).end s

lex_le-zero : (s : Bytes) → is_empty s ≡ false → lex_le (0 ∷ []) s ≡ true
lex_le-zero [] h = cc
lex_le-zero (y ∷ []) h = ground arith
lex_le-zero (y ∷ z ∷ zs) h = ground arith

lex_le-nil : (s : Bytes) → lex_le [] s ≡ true
lex_le-nil [] = refl
lex_le-nil (y ∷ ys) = refl

is_empty-eq_nil : (k : Bytes) → is_empty k ≡ true → k ≡ []
is_empty-eq_nil [] h = refl
is_empty-eq_nil (x ∷ xs) h = cc

-- After `WithPrefix` an operation selects, of the keys of bytes that are not empty, exactly those that
-- start with the key of bytes it had, whatever that key is.
pub with_prefix-selects :
    (o : Op) (s : Bytes)
    → IsBytes (fields o).key
    → IsBytes s
    → is_empty s ≡ false
    → selects (with_prefix o) s ≡ has_prefix s (fields o).key
unfolding with_prefix
with_prefix-selects (op f thens elses) s bk bs ne = elim (Bool-cases (is_empty f.key)) [
  | inl e ↦ rw (e, is_empty-eq_nil f.key e) (lex_le-zero s ne)
  | inr n ↦ rw n (unfold get_prefix in get_prefix-in_range f.key s bk bs)
]

-- After `WithFromKey` an operation selects, of the keys that are not empty, exactly those from the
-- key it had on.
pub with_from_key-selects :
    (o : Op) (s : Bytes)
    → is_empty s ≡ false
    → selects (with_from_key o) s ≡ lex_le (fields o).key s
unfolding with_from_key
with_from_key-selects (op f thens elses) s ne = elim (Bool-cases (is_empty f.key)) [
  | inl e ↦ rw (e, is_empty-eq_nil f.key e) (lex_le-zero s ne ∙ sym (lex_le-nil s))
  | inr n ↦ rw n refl
]

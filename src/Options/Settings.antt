-- ===== src/Options/Settings.antt =====
-- The options that op.go exports, as data, and what a list of them writes to an operation.
use regatta_go.Prelude.{
  ℤ, ◌≡◌, refl, ◌∙◌, ap, Bool, true, false, ◌||◌, Option, none, some, List, [], ◌∷◌, map, ||-assoc,
  ||-false, arith,
}
use regatta_go.Go.{Bytes, is_set}
use regatta_go.Op.{OpFields, Op, Ops, op, fields}
use regatta_go.Options.{
  OpOption, apply_opts, with_limit, with_rev, with_prefix, with_range, with_from_key,
  with_serializable, with_keys_only, with_count_only, with_prev_kv, with_count,
}

pub data Setting : Type 0 where
  limit : ℤ → Setting
  rev : ℤ → Setting
  prefix : Setting
  range : Bytes → Setting
  from_key : Setting
  serializable : Setting
  keys_only : Setting
  count_only : Setting
  prev_kv : Setting
  count : Setting

unfoldable pub option : Setting → OpOption
unfolding with_limit with_rev with_prefix with_range with_from_key with_serializable with_keys_only
    with_count_only with_prev_kv with_count
option (limit n) = with_limit n
option (rev n) = with_rev n
option prefix = with_prefix
option (range e) = with_range e
option from_key = with_from_key
option serializable = with_serializable
option keys_only = with_keys_only
option count_only = with_count_only
option prev_kv = with_prev_kv
option count = with_count

abbrev pub options : List Setting → List OpOption
options ss = map option ss

-- Whether some setting has the property.
abbrev pub uses : (Setting → Bool) → List Setting → Bool
uses p [] = false
uses p (s ∷ ss) = p s || uses p ss

-- The number that the last setting with one gives, or the number at hand.
abbrev pub latest : (Setting → Option ℤ) → ℤ → List Setting → ℤ
latest p n [] = n
latest p n (s ∷ ss) = latest p (elim (p s) [ none ↦ n | some m ↦ m ]) ss

abbrev pub is_prefix : Setting → Bool
is_prefix prefix = true
is_prefix _ = false

abbrev pub is_from_key : Setting → Bool
is_from_key from_key = true
is_from_key _ = false

abbrev pub is_ranged : Setting → Bool
is_ranged prefix = true
is_ranged (range e) = true
is_ranged from_key = true
is_ranged _ = false

abbrev pub is_serializable : Setting → Bool
is_serializable serializable = true
is_serializable _ = false

abbrev pub is_count_only : Setting → Bool
is_count_only count_only = true
is_count_only _ = false

abbrev pub is_prev_kv : Setting → Bool
is_prev_kv prev_kv = true
is_prev_kv _ = false

abbrev pub is_count : Setting → Bool
is_count count = true
is_count _ = false

abbrev pub limit_of : Setting → Option ℤ
limit_of (limit n) = some n
limit_of _ = none

abbrev pub rev_of : Setting → Option ℤ
rev_of (rev n) = some n
rev_of _ = none

-- No option writes the bounds on revisions.
abbrev pub no_number : Setting → Option ℤ
no_number s = none

abbrev pub SetsFlag : (OpFields → Bool) → (Setting → Bool) → Type 0
SetsFlag get p =
    (f : OpFields) (a b : Ops) (s : Setting) → get (fields (option s (op f a b))) ≡ (get f || p s)

abbrev pub SetsNumber : (OpFields → ℤ) → (Setting → Option ℤ) → Type 0
SetsNumber get p =
    (f : OpFields) (a b : Ops) (s : Setting)
    → get (fields (option s (op f a b))) ≡ (elim (p s) [ none ↦ get f | some m ↦ m ])

pub apply_opts-flag :
    (get : OpFields → Bool) (p : Setting → Bool)
    → SetsFlag get p
    → (o : Op) (ss : List Setting)
    → get (fields (apply_opts o (options ss))) ≡ (get (fields o) || uses p ss)
unfolding apply_opts
apply_opts-flag get p sets o [] = ||-false (get (fields o))
apply_opts-flag get p sets (op f a b) (s ∷ ss) =
    apply_opts-flag get p sets (option s (op f a b)) ss
    ∙ (ap (λ c. c || uses p ss) (sets f a b s) ∙ ||-assoc (get f) (p s) (uses p ss))

pub apply_opts-number :
    (get : OpFields → ℤ) (p : Setting → Option ℤ)
    → SetsNumber get p
    → (o : Op) (ss : List Setting)
    → get (fields (apply_opts o (options ss))) ≡ latest p (get (fields o)) ss
unfolding apply_opts
apply_opts-number get p sets o [] = refl
apply_opts-number get p sets (op f a b) (s ∷ ss) =
    apply_opts-number get p sets (option s (op f a b)) ss ∙ ap (λ n. latest p n ss) (sets f a b s)

pub count-flag : SetsFlag (λ f. f.count) is_count
unfolding option
count-flag f a b (limit n) = ground arith
count-flag f a b _ = ground arith

pub prev_kv-flag : SetsFlag (λ f. f.prev_kv) is_prev_kv
unfolding option
prev_kv-flag f a b (limit n) = ground arith
prev_kv-flag f a b _ = ground arith

pub serializable-flag : SetsFlag (λ f. f.serializable) is_serializable
unfolding option
serializable-flag f a b (limit n) = ground arith
serializable-flag f a b _ = ground arith

pub count_only-flag : SetsFlag (λ f. f.count_only) is_count_only
unfolding option
count_only-flag f a b (limit n) = ground arith
count_only-flag f a b _ = ground arith

pub prefix-flag : SetsFlag (λ f. f.is_opts_with_prefix) is_prefix
unfolding option
prefix-flag f a b (limit n) = ground arith
prefix-flag f a b _ = ground arith

pub from_key-flag : SetsFlag (λ f. f.is_opts_with_from_key) is_from_key
unfolding option
from_key-flag f a b (limit n) = ground arith
from_key-flag f a b _ = ground arith

pub range-flag : SetsFlag (λ f. is_set f.end) is_ranged
unfolding option
range-flag f a b (limit n) = ground arith
range-flag f a b _ = ground arith

pub limit-number : SetsNumber (λ f. f.limit) limit_of
unfolding option
limit-number f a b (limit n) = refl
limit-number f a b prefix = ground arith
limit-number f a b _ = refl

pub rev-number : SetsNumber (λ f. f.rev) rev_of
unfolding option
rev-number f a b (limit n) = refl
rev-number f a b prefix = ground arith
rev-number f a b _ = refl

pub min_mod_rev-number : SetsNumber (λ f. f.min_mod_rev) no_number
unfolding option
min_mod_rev-number f a b (limit n) = refl
min_mod_rev-number f a b prefix = ground arith
min_mod_rev-number f a b _ = refl

pub max_mod_rev-number : SetsNumber (λ f. f.max_mod_rev) no_number
unfolding option
max_mod_rev-number f a b (limit n) = refl
max_mod_rev-number f a b prefix = ground arith
max_mod_rev-number f a b _ = refl

pub min_create_rev-number : SetsNumber (λ f. f.min_create_rev) no_number
unfolding option
min_create_rev-number f a b (limit n) = refl
min_create_rev-number f a b prefix = ground arith
min_create_rev-number f a b _ = refl

pub max_create_rev-number : SetsNumber (λ f. f.max_create_rev) no_number
unfolding option
max_create_rev-number f a b (limit n) = refl
max_create_rev-number f a b prefix = ground arith
max_create_rev-number f a b _ = refl

pub latest-no_number : (n : ℤ) (ss : List Setting) → latest no_number n ss ≡ n
latest-no_number n [] = refl
latest-no_number n (s ∷ ss) = latest-no_number n ss

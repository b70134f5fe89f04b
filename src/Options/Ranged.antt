-- ===== src/Options/Ranged.antt =====
-- Gets, iterations and deletes: what an accepted list of options leaves of the operation.
use regatta_go.Prelude.{
  String, ℤ, pos, ◌≡◌, refl, ap, ◌∙◌, Bool, true, false, not, ◌||◌, Option, none, some, List, [],
  ◌∷◌, if◌then◌else◌, arith,
}
use regatta_go.Go.{Go, ok, panic, is_ok, is_empty, Bytes}
use regatta_go.Proto.{RangeRequest, DeleteRangeRequest}
use regatta_go.Op.{
  OpType, t_range, t_iterate_range, t_delete_range, OpFields, Op, Ops, op, fields, range_request,
}
use regatta_go.Options.{
  apply_opts, get_prefix, op_get, op_iterate, op_delete, check_range, check_delete,
}
use regatta_go.Options.Settings.{
  Setting, limit, prefix, range, from_key, keys_only, option, options, uses, latest, limit_of,
  is_count, is_prev_kv, is_serializable, is_count_only, SetsFlag, apply_opts-flag,
  apply_opts-number, serializable-flag, count_only-flag, count-flag, prev_kv-flag, limit-number,
  no_number, min_mod_rev-number, max_mod_rev-number, min_create_rev-number, max_create_rev-number,
  latest-no_number, SetsNumber,
}
use regatta_go.Options.Accepts.{both_ranges, for_range, made, op_get-accepts, op_delete-accepts}

abbrev pub is_keys_only : Setting → Bool
is_keys_only keys_only = true
is_keys_only _ = false

keys_only-flag : SetsFlag (λ f. f.keys_only) is_keys_only
unfolding option
keys_only-flag f a b (limit n) = ground arith
keys_only-flag f a b _ = ground arith

-- The key and the end of the range that the settings leave, one after the other: a prefix and a start
-- key turn an empty key into the smallest one.
abbrev pub span : Bytes → Option Bytes → List Setting → Bytes × Option Bytes
span key end [] = (key, end)
span key end (prefix ∷ ss) =
    if is_empty key then span (0 ∷ []) (some (0 ∷ [])) ss else span key (some (get_prefix key)) ss
span key end (range e ∷ ss) = span key (some e) ss
span key end (from_key ∷ ss) = span (if is_empty key then 0 ∷ [] else key) (some (0 ∷ [])) ss
span key end (_ ∷ ss) = span key end ss

option-span :
    (f : OpFields) (a b : Ops) (s : Setting) (ss : List Setting)
    → span (fields (option s (op f a b))).key (fields (option s (op f a b))).end ss
      ≡ span f.key f.end (s ∷ ss)
unfolding option
option-span f a b (limit n) ss = refl
option-span f a b prefix ss = ground arith
option-span f a b _ ss = refl

apply_opts-span :
    (o : Op) (ss : List Setting)
    → (let f = fields (apply_opts o (options ss)) in (f.key, f.end))
      ≡ span (fields o).key (fields o).end ss
unfolding apply_opts
apply_opts-span o [] = refl
apply_opts-span (op f a b) (s ∷ ss) =
    apply_opts-span (option s (op f a b)) ss ∙ option-span f a b s ss

option-t : (f : OpFields) (a b : Ops) (s : Setting) → (fields (option s (op f a b))).t ≡ f.t
unfolding option
option-t f a b (limit n) = refl
option-t f a b prefix = ground arith
option-t f a b _ = refl

apply_opts-t : (o : Op) (ss : List Setting) → (fields (apply_opts o (options ss))).t ≡ (fields o).t
unfolding apply_opts
apply_opts-t o [] = refl
apply_opts-t (op f a b) (s ∷ ss) = apply_opts-t (option s (op f a b)) ss ∙ option-t f a b s

-- The request that a get or an iteration with these settings is.
abbrev pub range_of : Bytes → Bytes → List Setting → RangeRequest
range_of table key ss = record {
  table = table;
  key = (span key none ss).0;
  range_end = (span key none ss).1;
  limit = latest limit_of (pos 0) ss;
  linearizable = not (uses is_serializable ss);
  keys_only = uses is_keys_only ss;
  count_only = uses is_count_only ss;
  min_mod_revision = pos 0;
  max_mod_revision = pos 0;
  min_create_revision = pos 0;
  max_create_revision = pos 0;
}

abbrev pub deletion_of : Bytes → Bytes → List Setting → DeleteRangeRequest
deletion_of table key ss = record {
  table = table;
  key = (span key none ss).0;
  range_end = (span key none ss).1;
  prev_kv = uses is_prev_kv ss;
  count = uses is_count ss;
}

untouched :
    (get : OpFields → ℤ)
    → SetsNumber get no_number
    → (o : Op) (ss : List Setting) → get (fields (apply_opts o (options ss))) ≡ get (fields o)
untouched get sets o ss = apply_opts-number get no_number sets o ss ∙ latest-no_number _ ss

made-range_of :
    (t : OpType) (table key : Bytes) (ss : List Setting)
    → range_request (fields (apply_opts (made t key []) (options ss))) table ≡ range_of table key ss
unfolding range_request
made-range_of t table key ss =
    let start = made t key [] in
    rw (
      ap (λ p. p.0) (apply_opts-span start ss),
      ap (λ p. p.1) (apply_opts-span start ss),
      apply_opts-number (λ f. f.limit) limit_of limit-number start ss,
      apply_opts-flag (λ f. f.serializable) is_serializable serializable-flag start ss,
      apply_opts-flag (λ f. f.keys_only) is_keys_only keys_only-flag start ss,
      apply_opts-flag (λ f. f.count_only) is_count_only count_only-flag start ss,
      untouched (λ f. f.min_mod_rev) min_mod_rev-number start ss,
      untouched (λ f. f.max_mod_rev) max_mod_rev-number start ss,
      untouched (λ f. f.min_create_rev) min_create_rev-number start ss,
      untouched (λ f. f.max_create_rev) max_create_rev-number start ss,
    )

guarded-same :
    (b : Bool) (m : String) (r : Go Op) (o : Op)
    → (is_ok r ≡ true → r ≡ ok o)
    → is_ok (if b then panic m else r) ≡ true
    → (if b then panic m else r) ≡ ok o
guarded-same b m r o same h = ground arith

check_range-same :
    (m n : String) (o : Op) → is_ok (check_range m n o) ≡ true → check_range m n o ≡ ok o
unfolding check_range
check_range-same m n o h = ground arith

check_delete-same : (o : Op) → is_ok (check_delete o) ≡ true → check_delete o ≡ ok o
unfolding check_delete
check_delete-same o h = ground arith

-- An accepted get is an operation of its type with that request.
pub op_get-made :
    (table key : Bytes) (ss : List Setting)
    → (both_ranges ss || (uses is_count ss || uses is_prev_kv ss)) ≡ false
    → (o : Op) × (op_get key (options ss) ≡ ok o)
      × ((fields o).t ≡ t_range)
      × (range_request (fields o) table ≡ range_of table key ss)
unfolding op_get
op_get-made table key ss h = (
  apply_opts (made t_range key []) (options ss),
  guarded-same _ _ _ _ (check_range-same _ _ _) ((op_get-accepts key ss).0 ∙ ap not h),
  apply_opts-t (made t_range key []) ss,
  made-range_of t_range table key ss,
)

pub op_iterate-made :
    (table key : Bytes) (ss : List Setting)
    → (both_ranges ss || (uses is_count ss || uses is_prev_kv ss)) ≡ false
    → (o : Op) × (op_iterate key (options ss) ≡ ok o)
      × ((fields o).t ≡ t_iterate_range)
      × (range_request (fields o) table ≡ range_of table key ss)
unfolding op_iterate
op_iterate-made table key ss h = (
  apply_opts (made t_iterate_range key []) (options ss),
  guarded-same _ _ _ _ (check_range-same _ _ _) ((op_get-accepts key ss).1 ∙ ap not h),
  apply_opts-t (made t_iterate_range key []) ss,
  made-range_of t_iterate_range table key ss,
)

pub op_delete-made :
    (table key : Bytes) (ss : List Setting)
    → (both_ranges ss || for_range ss) ≡ false
    → (o : Op) × (op_delete key (options ss) ≡ ok o)
      × ((fields o).t ≡ t_delete_range)
      × (record {
        table = table;
        key = (fields o).key;
        range_end = (fields o).end;
        prev_kv = (fields o).prev_kv;
        count = (fields o).count;
      }
          ≡ deletion_of table key ss)
unfolding op_delete
op_delete-made table key ss h =
    let start = made t_delete_range key [] in
    (
      apply_opts start (options ss),
      guarded-same _ _ _ _ (check_delete-same _) (op_delete-accepts key ss ∙ ap not h),
      apply_opts-t start ss,
      rw (
        ap (λ p. p.0) (apply_opts-span start ss),
        ap (λ p. p.1) (apply_opts-span start ss),
        apply_opts-flag (λ f. f.prev_kv) is_prev_kv prev_kv-flag start ss,
        apply_opts-flag (λ f. f.count) is_count count-flag start ss,
      ),
    )

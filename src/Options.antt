-- ===== src/Options.antt =====
-- op.go: the options of an operation, the constructors that apply them, and the range end of a
-- prefix. A constructor panics on options that do not fit its operation.
pub mod Prefix
pub mod Settings
pub mod Accepts
pub mod Plain
pub mod Ranged
use regatta_go.Prelude.{
  ℕ, zero, suc, ◌+◌, ◌%◌, ℤ, is_zero, String, Bool, true, not, ◌&&◌, ◌||◌, some, List, [], ◌∷◌,
  if◌then◌else◌, ltb, length, get_or, set, take,
}
use regatta_go.Go.{Go, ok, panic, Bytes, is_empty, is_set}
use regatta_go.Op.{
  OpType, t_range, t_iterate_range, t_put, t_delete_range, OpFields, Op, op, nil, fields,
  with_fields, zero_fields, new_op,
}

-- `func(*Op)`: what an option writes is its result.
abbrev pub OpOption : Type 0
OpOption = Op → Op

abbrev pub no_prefix_end : Bytes
no_prefix_end = 0 ∷ []

-- `for i := n - 1; i >= 0; i--`
unfoldable pub get_prefix_loop : Bytes → ℕ → Bytes
get_prefix_loop end zero = no_prefix_end
get_prefix_loop end (suc i) =
    let rest = get_prefix_loop end i in
    if ltb (get_or end i 0) 0xff
    then take (suc i) (set end i ((get_or end i 0 + 1) % 256))
    else rest

-- `end` starts as a copy of the key, so the key is not written to.
unfoldable pub get_prefix : Bytes → Bytes
unfolding get_prefix_loop
get_prefix key = get_prefix_loop key (length key)

unfoldable pub get_prefix_range_end : Bytes → Bytes
get_prefix_range_end prefix = get_prefix prefix

unfoldable pub apply_opts : Op → List OpOption → Op
apply_opts o [] = o
apply_opts o (opt ∷ opts) = apply_opts (opt o) opts

unfoldable pub with_limit : ℤ → OpOption
with_limit n o = with_fields o (record (fields o) { limit = n })

unfoldable pub with_rev : ℤ → OpOption
with_rev n o = with_fields o (record (fields o) { rev = n })

prefix_fields : OpFields → OpFields
unfolding get_prefix
prefix_fields f =
    if is_empty f.key
    then record f { is_opts_with_prefix = true; key = 0 ∷ []; end = some (0 ∷ []) }
    else record f { is_opts_with_prefix = true; end = some (get_prefix f.key) }

unfoldable pub with_prefix : OpOption
unfolding prefix_fields
with_prefix o = with_fields o (prefix_fields (fields o))

unfoldable pub with_range : Bytes → OpOption
with_range end_key o = with_fields o (record (fields o) { end = some end_key })

from_key_fields : OpFields → OpFields
from_key_fields f = record f {
  key = if is_empty f.key then 0 ∷ [] else f.key;
  end = some (0 ∷ []);
  is_opts_with_from_key = true;
}

unfoldable pub with_from_key : OpOption
unfolding from_key_fields
with_from_key o = with_fields o (from_key_fields (fields o))

unfoldable pub with_serializable : OpOption
with_serializable o = with_fields o (record (fields o) { serializable = true })

unfoldable pub with_keys_only : OpOption
with_keys_only o = with_fields o (record (fields o) { keys_only = true })

unfoldable pub with_count_only : OpOption
with_count_only o = with_fields o (record (fields o) { count_only = true })

unfoldable pub with_prev_kv : OpOption
with_prev_kv o = with_fields o (record (fields o) { prev_kv = true })

unfoldable pub with_count : OpOption
with_count o = with_fields o (record (fields o) { count = true })

unfoldable pub is_opts_with_prefix : List OpOption → Bool
unfolding apply_opts new_op
is_opts_with_prefix opts = (fields (apply_opts new_op opts)).is_opts_with_prefix

unfoldable pub is_opts_with_from_key : List OpOption → Bool
unfolding apply_opts new_op
is_opts_with_from_key opts = (fields (apply_opts new_op opts)).is_opts_with_from_key

-- The checks after the options were applied, one `switch` for each constructor.
check_range : String → String → Op → Go Op
check_range on_count on_prev_kv o =
    if (fields o).count
    then panic on_count
    else if (fields o).prev_kv
    then panic on_prev_kv
    else ok o

check_delete : Op → Go Op
check_delete o =
    if not (is_zero (fields o).limit)
    then panic "unexpected limit in delete"
    else if not (is_zero (fields o).rev)
    then panic "unexpected revision in delete"
    else if (fields o).serializable
    then panic "unexpected serializable in delete"
    else if (fields o).count_only
    then panic "unexpected countOnly in delete"
    else if not (is_zero (fields o).min_mod_rev) || not (is_zero (fields o).max_mod_rev)
    then panic "unexpected mod revision filter in delete"
    else if not (is_zero (fields o).min_create_rev) || not (is_zero (fields o).max_create_rev)
    then panic "unexpected create revision filter in delete"
    else ok o

check_put : Op → Go Op
check_put o =
    if is_set (fields o).end
    then panic "unexpected range in put"
    else if not (is_zero (fields o).limit)
    then panic "unexpected limit in put"
    else if not (is_zero (fields o).rev)
    then panic "unexpected revision in put"
    else if (fields o).serializable
    then panic "unexpected serializable in put"
    else if (fields o).count_only
    then panic "unexpected countOnly in put"
    else if not (is_zero (fields o).min_mod_rev) || not (is_zero (fields o).max_mod_rev)
    then panic "unexpected mod revision filter in put"
    else if not (is_zero (fields o).min_create_rev) || not (is_zero (fields o).max_create_rev)
    then panic "unexpected create revision filter in put"
    else ok o

-- `Op{t: t, key: []byte(key)}`
abbrev keyed : OpType → Bytes → Op
keyed t key = op (record zero_fields { t = t; key = key }) nil nil

-- `WithPrefix` and `WithFromKey` are not supported together.
abbrev both_ranges : List OpOption → Bool
both_ranges opts = is_opts_with_prefix opts && is_opts_with_from_key opts

unfoldable pub op_get : Bytes → List OpOption → Go Op
unfolding is_opts_with_prefix is_opts_with_from_key apply_opts check_range
op_get key opts =
    if both_ranges opts
    then panic "`WithPrefix` and `WithFromKey` cannot be set at the same time, choose one"
    else check_range "unexpected count in range, you probably meant countOnly"
        "unexpected prevKv in range" (apply_opts (keyed t_range key) opts)

unfoldable pub op_iterate : Bytes → List OpOption → Go Op
unfolding is_opts_with_prefix is_opts_with_from_key apply_opts check_range
op_iterate key opts =
    if both_ranges opts
    then panic "`WithPrefix` and `WithFromKey` cannot be set at the same time, choose one"
    else check_range "unexpected count in iterateRange, you probably meant countOnly"
        "unexpected prevKv in iterateRange" (apply_opts (keyed t_iterate_range key) opts)

unfoldable pub op_delete : Bytes → List OpOption → Go Op
unfolding is_opts_with_prefix is_opts_with_from_key apply_opts check_delete
op_delete key opts =
    if both_ranges opts
    then panic "`WithPrefix` and `WithFromKey` cannot be set at the same time, choose one"
    else check_delete (apply_opts (keyed t_delete_range key) opts)

unfoldable pub op_put : Bytes → Bytes → List OpOption → Go Op
unfolding apply_opts check_put
op_put key val opts =
    check_put
      (apply_opts (op (record zero_fields { t = t_put; key = key; val = val }) nil nil) opts)

-- ===== src/Options/Accepts.antt =====
-- Which options the constructors of op.go accept: each panics exactly on the lists that its checks
-- are meant to refuse, in whatever order the options come.
use regatta_go.Prelude.{
  String, ℤ, pos, is_zero, ◌≡◌, ◌∙◌, Bool, not, ◌&&◌, ◌||◌, List, [], Option, if◌then◌else◌, arith,
}
use regatta_go.Go.{Go, panic, is_ok, Bytes, is_set}
use mathlib.Core.Path.{ap₂}
use regatta_go.Options
use regatta_go.Op.{
  OpType, t_range, t_iterate_range, t_put, t_delete_range, OpFields, Op, op, fields, new_op,
  zero_fields, nil,
}
use regatta_go.Options.{
  is_opts_with_prefix, is_opts_with_from_key, apply_opts, check_range, check_delete, check_put,
  op_get, op_iterate, op_delete, op_put,
}
use regatta_go.Options.Settings.{
  Setting, options, uses, latest, is_prefix, is_from_key, is_ranged, is_serializable, is_count_only,
  is_prev_kv, is_count, SetsFlag, SetsNumber, limit_of, rev_of, no_number, apply_opts-flag,
  apply_opts-number, count-flag, prev_kv-flag, serializable-flag, count_only-flag, prefix-flag,
  from_key-flag, range-flag, limit-number, rev-number, min_mod_rev-number, max_mod_rev-number,
  min_create_rev-number, max_create_rev-number, latest-no_number,
}

-- `WithPrefix` together with `WithFromKey`.
abbrev pub both_ranges : List Setting → Bool
both_ranges ss = uses is_prefix ss && uses is_from_key ss

-- What every constructor but the two ranges refuses: a limit or a revision that ends up other than
-- 0, `WithSerializable` and `WithCountOnly`.
abbrev pub for_range : List Setting → Bool
for_range ss =
    not (is_zero (latest limit_of (pos 0) ss))
    || not (is_zero (latest rev_of (pos 0) ss))
    || uses is_serializable ss
    || uses is_count_only ss

-- The operation that a constructor starts from, before its options.
abbrev pub made : OpType → Bytes → Bytes → Op
made t key val = op (record zero_fields { t = t; key = key; val = val }) nil nil

both_ranges-uses : (ss : List Setting) → Options.both_ranges (options ss) ≡ both_ranges ss
unfolding is_opts_with_prefix is_opts_with_from_key
both_ranges-uses ss =
    ap₂ ◌&&◌ (apply_opts-flag _ is_prefix prefix-flag new_op ss)
      (apply_opts-flag _ is_from_key from_key-flag new_op ss)

-- A panic on `b` before a check that passes on `not c`.
guarded :
    {b b' : Bool} (c : Bool) (m : String) (r : Go Op)
    → b ≡ b'
    → is_ok r ≡ not c
    → is_ok (if b then panic m else r) ≡ not (b' || c)
guarded {b} {b'} c m r e h = ground arith

module _ (t : OpType) (key val : Bytes) (ss : List Setting) where
  abbrev done : Op
  done = apply_opts (made t key val) (options ss)

  flag :
      (get : OpFields → Bool) (p : Setting → Bool)
      → SetsFlag get p
      → get (fields done) ≡ (get (record zero_fields { t = t; key = key; val = val }) || uses p ss)
  flag get p sets = apply_opts-flag get p sets (made t key val) ss

  number :
      (get : OpFields → ℤ) (p : Setting → Option ℤ)
      → SetsNumber get p
      → get (fields done) ≡ latest p (get (record zero_fields { t = t; key = key; val = val })) ss
  number get p sets = apply_opts-number get p sets (made t key val) ss

  untouched :
      (get : OpFields → ℤ)
      → SetsNumber get no_number
      → get (fields done) ≡ get (record zero_fields { t = t; key = key; val = val })
  untouched get sets = number get no_number sets ∙ latest-no_number _ ss

  check_range-accepts :
      (m n : String) → is_ok (check_range m n done) ≡ not (uses is_count ss || uses is_prev_kv ss)
  unfolding check_range
  check_range-accepts m n =
      rw (flag (λ f. f.count) is_count count-flag, flag (λ f. f.prev_kv) is_prev_kv prev_kv-flag)
        (ground arith)

  check_delete-accepts : is_ok (check_delete done) ≡ not (for_range ss)
  unfolding check_delete
  check_delete-accepts =
      rw
        (
          number (λ f. f.limit) limit_of limit-number,
          number (λ f. f.rev) rev_of rev-number,
          flag (λ f. f.serializable) is_serializable serializable-flag,
          flag (λ f. f.count_only) is_count_only count_only-flag,
          untouched (λ f. f.min_mod_rev) min_mod_rev-number,
          untouched (λ f. f.max_mod_rev) max_mod_rev-number,
          untouched (λ f. f.min_create_rev) min_create_rev-number,
          untouched (λ f. f.max_create_rev) max_create_rev-number,
        )
        (ground arith)

  check_put-accepts : is_ok (check_put done) ≡ not (uses is_ranged ss || for_range ss)
  unfolding check_put
  check_put-accepts =
      rw
        (
          flag (λ f. is_set f.end) is_ranged range-flag,
          number (λ f. f.limit) limit_of limit-number,
          number (λ f. f.rev) rev_of rev-number,
          flag (λ f. f.serializable) is_serializable serializable-flag,
          flag (λ f. f.count_only) is_count_only count_only-flag,
          untouched (λ f. f.min_mod_rev) min_mod_rev-number,
          untouched (λ f. f.max_mod_rev) max_mod_rev-number,
          untouched (λ f. f.min_create_rev) min_create_rev-number,
          untouched (λ f. f.max_create_rev) max_create_rev-number,
        )
        (ground arith)

-- `OpGet` and `OpIterate` return an operation exactly when the options hold neither `WithCount` nor
-- `WithPrevKV`, and not both `WithPrefix` and `WithFromKey`; they panic otherwise.
pub op_get-accepts :
    (key : Bytes) (ss : List Setting)
    → (is_ok (op_get key (options ss))
        ≡ not (both_ranges ss || (uses is_count ss || uses is_prev_kv ss)))
      × (is_ok (op_iterate key (options ss))
          ≡ not (both_ranges ss || (uses is_count ss || uses is_prev_kv ss)))
unfolding op_get op_iterate
op_get-accepts key ss = (
  guarded _ _ _ (both_ranges-uses ss) (check_range-accepts t_range key [] ss _ _),
  guarded _ _ _ (both_ranges-uses ss) (check_range-accepts t_iterate_range key [] ss _ _),
)

-- `OpDelete` returns an operation exactly when the last `WithLimit` and the last `WithRev` give 0 or
-- are missing, and the options hold neither `WithSerializable` nor `WithCountOnly`, and not both
-- `WithPrefix` and `WithFromKey`; it panics otherwise.
pub op_delete-accepts :
    (key : Bytes) (ss : List Setting)
    → is_ok (op_delete key (options ss)) ≡ not (both_ranges ss || for_range ss)
unfolding op_delete
op_delete-accepts key ss =
    guarded _ _ _ (both_ranges-uses ss) (check_delete-accepts t_delete_range key [] ss)

-- `OpPut` returns an operation exactly when the options set no range end and nothing that
-- `OpDelete` refuses on its own; it panics otherwise.
pub op_put-accepts :
    (key val : Bytes) (ss : List Setting)
    → is_ok (op_put key val (options ss)) ≡ not (uses is_ranged ss || for_range ss)
unfolding op_put
op_put-accepts key val ss = check_put-accepts t_put key val ss

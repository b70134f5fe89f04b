-- ===== src/Tests/Ops.antt =====
-- op.go at concrete inputs.
use regatta_go.Prelude.{ℕ, pos, ◌≡◌, refl, some, List, [], ◌∷◌, ◌++◌, length, not, ◌||◌, arith}
use regatta_go.Go.{ok, is_ok, Bytes, IsBytes, has_prefix, codes}
use regatta_go.Go.Run.{pure, ◌>>=◌}
use regatta_go.Range.{in_range}
use regatta_go.Proto.{equal, greater}
use regatta_go.Op.{t_put, t_range, Op, op, nil, zero_fields, op_txn}
use regatta_go.Options.{get_prefix, with_prefix, op_get, op_iterate, op_delete}
use regatta_go.Options.Prefix.{selects, get_prefix-in_range, with_prefix-selects}
use regatta_go.Options.Settings.{Setting, prefix, count, limit, options, uses, is_count, is_prev_kv}
use regatta_go.Options.Accepts.{both_ranges, for_range, op_get-accepts, op_delete-accepts}
use regatta_go.Cmp.{Heap, text, value, compare, result_of}
use regatta_go.Cmp.Sharing.{comparison, compare-compare}

-- A key that ends in bytes 0xff, and a stored key that starts with it.
abbrev high : Bytes
high = 97 ∷ 255 ∷ 255 ∷ []

abbrev higher : Bytes
higher = 97 ∷ 255 ∷ 255 ∷ 7 ∷ []

high-IsBytes : IsBytes high
high-IsBytes = (omega arith, (omega arith, (omega arith, tt)))

higher-IsBytes : IsBytes higher
higher-IsBytes = (omega arith, (omega arith, (omega arith, (omega arith, tt))))

abbrev get_high : Op
get_high = op (record zero_fields { t = t_range; key = high }) nil nil

abbrev put_high : Op
put_high = op (record zero_fields { t = t_put; key = high; val = 1 ∷ [] }) nil nil

abbrev nested : Op
nested = op_txn [] (get_high ∷ []) (put_high ∷ [])

-- The end of the range is the byte after "a".
get_prefix-high : get_prefix high ≡ 98 ∷ []
unfolding get_prefix
get_prefix-high = refl

get_prefix-in_range_example : in_range high (some (get_prefix high)) higher ≡ has_prefix higher high
get_prefix-in_range_example = get_prefix-in_range high higher high-IsBytes higher-IsBytes

with_prefix-selects_example : selects (with_prefix get_high) higher ≡ has_prefix higher high
with_prefix-selects_example = with_prefix-selects get_high higher high-IsBytes higher-IsBytes refl

abbrev settings : List Setting
settings = limit (pos 5) ∷ prefix ∷ limit (pos 0) ∷ count ∷ []

op_get-accepts_example :
    (is_ok (op_get high (options settings))
      ≡ not (both_ranges settings || (uses is_count settings || uses is_prev_kv settings)))
    × (is_ok (op_iterate high (options settings))
        ≡ not (both_ranges settings || (uses is_count settings || uses is_prev_kv settings)))
op_get-accepts_example = op_get-accepts high settings

op_delete-accepts_example :
    is_ok (op_delete high (options settings)) ≡ not (both_ranges settings || for_range settings)
op_delete-accepts_example = op_delete-accepts high settings

result_of_equal : result_of (codes "=") ≡ ok equal
unfolding result_of
result_of_equal = refl

result_of_greater : result_of (codes ">") ≡ ok greater
unfolding result_of
result_of_greater = refl

abbrev heap : Heap
heap = comparison (codes "k") greater (codes "v") ∷ []

compare-compare_example :
    (do
      c ← value high
      a ← compare c (codes "=") (text (codes "a"))
      b ← compare c (codes ">") (text (codes "b"))
      pure {A = ℕ × ℕ} (a.compare, b.compare))
      heap
    ≡ (ok (length heap, length heap), heap ++ comparison high greater (codes "b") ∷ [])
compare-compare_example =
    compare-compare heap high (codes "=") (codes "a") (codes ">") (codes "b") equal greater
      result_of_equal result_of_greater

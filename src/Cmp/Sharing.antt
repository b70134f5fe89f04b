-- ===== src/Cmp/Sharing.antt =====
-- What building a comparison leaves in the heap, and what two comparisons share.
use regatta_go.Prelude.{ℕ, ◌≡◌, refl, ap, none, some, List, [], ◌∷◌, ◌++◌, length, get_elem?, set}
use regatta_go.Go.{ok, Bytes}
use regatta_go.Go.Run.{pure, ◌>>=◌}
use regatta_go.Proto.{Compare, CompareResult, CompareTarget, value_target}
use regatta_go.Cmp.{Heap, text, value, result_of, compare}

-- The message that `Compare(Value(key), r, v)` denotes.
abbrev pub comparison : Bytes → CompareResult → Bytes → Compare
comparison key r v = record {
  result = r;
  target = value_target;
  key = key;
  target_union = some v;
  range_end = none;
}

module _ {A : Type 0} where
  get_elem?-last : (xs : List A) (a : A) → get_elem? (xs ++ a ∷ []) (length xs) ≡ some a
  get_elem?-last [] a = refl
  get_elem?-last (x ∷ xs) a = get_elem?-last xs a

  set-last : (xs : List A) (a b : A) → set (xs ++ a ∷ []) (length xs) b ≡ xs ++ b ∷ []
  set-last [] a b = refl
  set-last (x ∷ xs) a b = ap (λ ys. x ∷ ys) (set-last xs a b)

is_value_target : (t : CompareTarget) → t ≡ value_target
is_value_target value_target = refl

-- `Compare` on the newest message of the heap.
compare-last :
    (h : Heap) (m : Compare) (r v : Bytes) (res : CompareResult)
    → result_of r ≡ ok res
    → compare (record { compare = length h }) r (text v) (h ++ m ∷ []) ≡ (
      ok (record { compare = length h }),
      h ++ record m { result = res; target_union = some v } ∷ [],
    )
unfolding compare
compare-last h m r v res e = simp (e, get_elem?-last, set-last, is_value_target m.target)

-- A comparison that is built in one go with a known operator is the message it denotes, at the end
-- of the heap; the other messages stay as they are.
pub compare-value :
    (h : Heap) (key r v : Bytes) (res : CompareResult)
    → result_of r ≡ ok res
    → (value key >>= λ c. compare c r (text v)) h
      ≡ (ok (record { compare = length h }), h ++ comparison key res v ∷ [])
unfolding value
compare-value h key r v res e = compare-last h _ r v res e

-- Two comparisons that are built with known operators from one `Value` are one message, and it holds
-- what the second call wrote: the operator and the value of the first are gone.
pub compare-compare :
    (h : Heap) (key r v r' v' : Bytes) (res res' : CompareResult)
    → result_of r ≡ ok res
    → result_of r' ≡ ok res'
    → (do
      c ← value key
      a ← compare c r (text v)
      b ← compare c r' (text v')
      pure {A = ℕ × ℕ} (a.compare, b.compare))
        h
      ≡ (ok (length h, length h), h ++ comparison key res' v' ∷ [])
unfolding value
compare-compare h key r v r' v' res res' e e' =
    rw (compare-last h _ r v res e, compare-last h _ r' v' res' e')

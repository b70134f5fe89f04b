-- ===== src/Cmp.antt =====
-- op.go: comparisons. A `Cmp` is a pointer to a `Compare` message, so the operations write to a
-- heap of messages that all copies of the pointer share.
pub mod Sharing
use regatta_go.Prelude.{
  ◌+◌, String, Bool, true, false, Option, none, some, List, [], ◌∷◌, ◌++◌, length, get_elem?, set,
  if◌then◌else◌,
}
use regatta_go.Go.{Go, ok, panic, Bytes, bytes_eq, codes}
use regatta_go.Go.Run.{Run, pure, raise, gets, ◌>>=◌, ◌>>◌}
use regatta_go.Proto.{
  Compare, CompareResult, equal, greater, less, not_equal, CompareTarget, value_target,
}
use regatta_go.Op.{Cmp}
use regatta_go.Options.{get_prefix}

abbrev pub Heap : Type 0
Heap = List Compare

-- An argument of type `interface{}`: a string, or a value of another type.
pub data Any : Type 0 where
  text : Bytes → Any
  other : Any

deref : Option Compare → Run Heap Compare
deref none = raise "invalid memory address or nil pointer dereference"
deref (some m) = pure m

unfoldable pub load : Cmp → Run Heap Compare
unfolding deref
load c h = deref (get_elem? h c.compare) h

unfoldable pub store : Cmp → Compare → Run Heap (Unit {0})
store c m h = (ok tt, set h c.compare m)

-- `Value(key)` allocates a message.
unfoldable pub value : Bytes → Run Heap Cmp
value key h = (
  ok (record { compare = length h }),
  h
      ++ record {
        result = equal;
        target = value_target;
        key = key;
        target_union = none;
        range_end = none;
      }
        ∷ [],
)

unfoldable pub result_of : Bytes → Go CompareResult
result_of r =
    if bytes_eq r (codes "=")
    then ok equal
    else if bytes_eq r (codes "!=")
    then ok not_equal
    else if bytes_eq r (codes ">")
    then ok greater
    else if bytes_eq r (codes "<")
    then ok less
    else panic "Unknown result op"

-- The `switch` on the target, which has one value; the operator is written by then.
set_target : CompareTarget → Cmp → Any → Run Heap Cmp
unfolding load store
set_target value_target c other = raise "bad compare value"
set_target value_target c (text v) = do
  m ← load c
  store c (record m { target_union = some v })
  pure c

unfoldable pub compare : Cmp → Bytes → Any → Run Heap Cmp
unfolding set_target load store
compare c r v = do
  res ← (λ h. (result_of r, h))
  m ← load c
  store c (record m { result = res })
  set_target m.target c v

unfoldable pub key_bytes : Cmp → Run Heap Bytes
unfolding load
key_bytes c = do m ← load c; pure m.key

unfoldable pub with_key_bytes : Cmp → Bytes → Run Heap Cmp
unfolding load store
with_key_bytes c key = do m ← load c; store c (record m { key = key }); pure c

-- Nil where the union holds no value.
unfoldable pub value_bytes : Cmp → Run Heap (Option Bytes)
unfolding load
value_bytes c = do m ← load c; pure m.target_union

-- The type assertion panics on an empty union.
write_value : Cmp → Compare → Option Bytes → Bytes → Run Heap Cmp
unfolding store
write_value c m none v = raise "interface conversion: interface is nil"
write_value c m (some u) v = do store c (record m { target_union = some v }); pure c

unfoldable pub with_value_bytes : Cmp → Bytes → Run Heap Cmp
unfolding load write_value
with_value_bytes c v = do m ← load c; write_value c m m.target_union v

unfoldable pub with_range : Cmp → Bytes → Run Heap Cmp
unfolding load store
with_range c end = do m ← load c; store c (record m { range_end = some end }); pure c

unfoldable pub with_prefix : Cmp → Run Heap Cmp
unfolding load store
with_prefix c = do m ← load c; store c (record m { range_end = some (get_prefix m.key) }); pure c

-- ===== src/Op.antt =====
-- op.go: the operation `Op`, its accessors and its translation to request messages. A method on
-- `*Op` that writes a field returns the new operation.
pub mod Requests
use regatta_go.Prelude.{
  ℤ, pos, Bool, true, false, not, ◌&&◌, ◌||◌, Option, none, List, [], ◌∷◌, map, if◌then◌else◌,
}
use regatta_go.Go.{Go, ok, panic, ◌>>=◌, Bytes}
use regatta_go.Proto.{
  ComparePtr, RangeRequest, RequestOp, request_range, request_put, request_delete_range, TxnRequest,
}

-- `t_invalid` is opType 0, of an `Op` that no constructor made.
pub data OpType : Type 0 where
  t_invalid t_range t_iterate_range t_put t_delete_range t_txn : OpType

-- A `Cmp` embeds a pointer to its message, so copies of a `Cmp` share it.
pub record Cmp : Type 0 where
  pub compare : ComparePtr

-- The fields of the struct `Op` but its lists of operations.
pub record OpFields : Type 0 where
  pub t : OpType
  pub key : Bytes
  pub end : Option Bytes
  pub limit : ℤ
  pub serializable : Bool
  pub keys_only : Bool
  pub count_only : Bool
  pub min_mod_rev : ℤ
  pub max_mod_rev : ℤ
  pub min_create_rev : ℤ
  pub max_create_rev : ℤ
  pub rev : ℤ
  pub prev_kv : Bool
  pub val : Bytes
  pub count : Bool
  pub cmps : List Cmp
  pub is_opts_with_from_key : Bool
  pub is_opts_with_prefix : Bool

-- The struct `Op`: its plain fields, its `thenOps` and its `elseOps`.
mutual
  pub data Op : Type 0 where
    op : OpFields → Ops → Ops → Op

  pub data Ops : Type 0 where
    nil : Ops
    cons : Op → Ops → Ops

-- A slice of operations.
abbrev pub ops_of : List Op → Ops
ops_of [] = nil
ops_of (x ∷ xs) = cons x (ops_of xs)

abbrev pub list_of : Ops → List Op
list_of nil = []
list_of (cons x xs) = x ∷ list_of xs

abbrev pub fields : Op → OpFields
fields (op f thens elses) = f

abbrev pub then_ops : Op → List Op
then_ops (op f thens elses) = list_of thens

abbrev pub else_ops : Op → List Op
else_ops (op f thens elses) = list_of elses

abbrev pub with_fields : Op → OpFields → Op
with_fields (op f thens elses) g = op g thens elses

-- The zero value of the struct.
abbrev pub zero_fields : OpFields
zero_fields = record {
  t = t_invalid;
  key = [];
  end = none;
  limit = pos 0;
  serializable = false;
  keys_only = false;
  count_only = false;
  min_mod_rev = pos 0;
  max_mod_rev = pos 0;
  min_create_rev = pos 0;
  max_create_rev = pos 0;
  rev = pos 0;
  prev_kv = false;
  val = [];
  count = false;
  cmps = [];
  is_opts_with_from_key = false;
  is_opts_with_prefix = false;
}

-- `op.t == …`
abbrev pub is_t_range : OpType → Bool
is_t_range t_range = true
is_t_range _ = false

abbrev pub is_t_iterate_range : OpType → Bool
is_t_iterate_range t_iterate_range = true
is_t_iterate_range _ = false

abbrev pub is_t_put : OpType → Bool
is_t_put t_put = true
is_t_put _ = false

abbrev pub is_t_delete_range : OpType → Bool
is_t_delete_range t_delete_range = true
is_t_delete_range _ = false

abbrev pub is_t_txn : OpType → Bool
is_t_txn t_txn = true
is_t_txn _ = false

unfoldable pub is_txn : Op → Bool
is_txn o = is_t_txn (fields o).t

unfoldable pub is_put : Op → Bool
is_put o = is_t_put (fields o).t

unfoldable pub is_get : Op → Bool
is_get o = is_t_range (fields o).t

unfoldable pub is_iterate : Op → Bool
is_iterate o = is_t_iterate_range (fields o).t

unfoldable pub is_delete : Op → Bool
is_delete o = is_t_delete_range (fields o).t

-- The accessor `Txn`.
unfoldable pub txn_parts : Op → List Cmp × List Op × List Op
txn_parts o = ((fields o).cmps, then_ops o, else_ops o)

unfoldable pub with_key_bytes : Op → Bytes → Op
with_key_bytes o k = with_fields o (record (fields o) { key = k })

unfoldable pub with_range_bytes : Op → Option Bytes → Op
with_range_bytes o e = with_fields o (record (fields o) { end = e })

unfoldable pub with_value_bytes : Op → Bytes → Op
with_value_bytes o v = with_fields o (record (fields o) { val = v })

unfoldable pub range_request : OpFields → Bytes → RangeRequest
range_request f table = record {
  table = table;
  key = f.key;
  range_end = f.end;
  limit = f.limit;
  linearizable = not f.serializable;
  keys_only = f.keys_only;
  count_only = f.count_only;
  min_mod_revision = f.min_mod_rev;
  max_mod_revision = f.max_mod_rev;
  min_create_revision = f.min_create_rev;
  max_create_revision = f.max_create_rev;
}

unfoldable pub to_range_request : Op → Bytes → Go RangeRequest
unfolding range_request
to_range_request o table =
    if not (is_t_range (fields o).t) && not (is_t_iterate_range (fields o).t)
    then panic "op.t != tRange|tIterateRange"
    else ok (range_request (fields o) table)

-- The `switch` of `toRequestOp`.
unfoldable pub request_op : OpType → OpFields → Go RequestOp
request_op t_range f = ok (
    request_range (record {
      key = f.key;
      range_end = f.end;
      limit = f.limit;
      keys_only = f.keys_only;
      count_only = f.count_only;
    }))
request_op t_put f = ok (request_put (record { key = f.key; value = f.val; prev_kv = f.prev_kv }))
request_op t_delete_range f = ok (
    request_delete_range
      (record { key = f.key; range_end = f.end; prev_kv = f.prev_kv; count = f.count }))
request_op _ f = panic "unsupported transaction op type"

unfoldable pub to_request_op : Op → Go RequestOp
unfolding request_op
to_request_op o = request_op (fields o).t (fields o)

-- The loops of `toTxnRequest`; the first operation that panics ends them.
unfoldable pub to_request_ops : List Op → Go (List RequestOp)
to_request_ops [] = ok []
to_request_ops (o ∷ os) = do r ← to_request_op o; rs ← to_request_ops os; ok (r ∷ rs)

unfoldable pub to_txn_request : Op → Bytes → Go TxnRequest
to_txn_request o table = do
  thens ← to_request_ops (then_ops o)
  elses ← to_request_ops (else_ops o)
  ok (record {
    table = table;
    compare = map (λ c. c.compare) (fields o).cmps;
    success = thens;
    failure = elses;
  })

unfoldable mutual
  -- `t == tTxn` looks into both lists; the loops return at the first write.
  pub is_write : Op → Bool
  is_write (op f thens elses) =
      if is_t_txn f.t then any_write thens || any_write elses else not (is_t_range f.t)

  pub any_write : Ops → Bool
  any_write nil = false
  any_write (cons o os) = is_write o || any_write os

unfoldable pub new_op : Op
new_op = op zero_fields nil nil

unfoldable pub op_txn : List Cmp → List Op → List Op → Op
op_txn cmps thens elses =
    op (record zero_fields { t = t_txn; cmps = cmps }) (ops_of thens) (ops_of elses)

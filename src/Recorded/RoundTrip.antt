-- ===== src/Recorded/RoundTrip.antt =====
-- What the fake server's conversions give back of the operations and responses that they are given.
use regatta_go.Prelude.{
  pos, ◌≡◌, refl, ap, Bool, true, false, not, none, some, List, [], ◌∷◌, map, arith,
}
use regatta_go.Go.{ok, >>=-eq_ok, ok-injective, Bytes}
use regatta_go.Proto.{KeyValue, RangeRequest, RequestOp, TxnRequest}
use regatta_go.Op.{
  OpType, t_range, t_put, t_delete_range, Cmp, OpFields, Op, op, nil, zero_fields, fields,
  range_request, to_range_request, request_op, to_request_op, to_request_ops, to_txn_request,
  op_txn, ops_of, list_of,
}
use regatta_go.Op.Requests.{list_of-ops_of}
use regatta_go.Responses.{
  AnyResponse, any_get, any_put, any_delete, new_response_op, conv_key_values, conv_response_ops,
}
use regatta_go.Recorded.{
  conv_range_to_request, conv_to_op, conv_to_ops, conv_txn_to_request, conv_key_values_to_proto,
  conv_responses_to_proto,
}

pub conv_key_values-proto :
    (kvs : List KeyValue) → conv_key_values (conv_key_values_to_proto kvs) ≡ kvs
unfolding conv_key_values conv_key_values_to_proto
conv_key_values-proto [] = refl
conv_key_values-proto (t ∷ ts) = ap (λ xs. t ∷ xs) (conv_key_values-proto ts)

-- A response without its header.
abbrev pub headless : AnyResponse → AnyResponse
headless (any_get r) = any_get (record r { header = none })
headless (any_put r) = any_put (record r { header = none })
headless (any_delete r) = any_delete (record r { header = none })

-- The responses of a transaction come back from the fake server's messages as they were, in order,
-- but without the headers of the single responses.
pub conv_response_ops-proto :
    (rs : List AnyResponse)
    → conv_response_ops (conv_responses_to_proto (map new_response_op rs))
      ≡ map new_response_op (map headless rs)
unfolding conv_responses_to_proto conv_response_ops new_response_op
conv_response_ops-proto [] = refl
conv_response_ops-proto (any_get r ∷ rs) = rw (conv_key_values-proto, conv_response_ops-proto rs)
conv_response_ops-proto (any_put r ∷ rs) = rw (conv_response_ops-proto rs)
conv_response_ops-proto (any_delete r ∷ rs) = rw (conv_key_values-proto, conv_response_ops-proto rs)

-- The fields that a range request carries.
abbrev pub as_range : OpFields → OpFields
as_range f = record f {
  t = t_range;
  rev = pos 0;
  prev_kv = false;
  val = [];
  count = false;
  cmps = [];
  is_opts_with_from_key = false;
  is_opts_with_prefix = false;
}

not-not : (b : Bool) → not (not b) ≡ b
not-not true = refl
not-not false = refl

-- A get or an iteration whose request reaches the fake server unchanged is recorded, under its table,
-- as a get that differs from it at most in the fields that a range request does not carry, the
-- revision among them.
pub conv_range_to_request-op :
    (o : Op) (table : Bytes) (req : RangeRequest)
    → to_range_request o table ≡ ok req
    → conv_range_to_request (some req)
      ≡ record { table = table; request = op (as_range (fields o)) nil nil }
unfolding to_range_request conv_range_to_request
conv_range_to_request-op o table req h =
    let e : range_request (fields o) table ≡ req = ground arith in
    rw (← e) (unfold range_request in rw not-not refl)

-- The fields that a get, a put or a delete keeps inside a transaction.
abbrev pub in_txn : OpType → OpFields → OpFields
in_txn t_range f = record zero_fields {
  t = t_range;
  key = f.key;
  end = f.end;
  limit = f.limit;
  keys_only = f.keys_only;
  count_only = f.count_only;
}
in_txn t_put f = record zero_fields { t = t_put; key = f.key; val = f.val; prev_kv = f.prev_kv }
in_txn t_delete_range f = record zero_fields {
  t = t_delete_range;
  key = f.key;
  end = f.end;
  prev_kv = f.prev_kv;
  count = f.count;
}
in_txn _ f = f

abbrev pub plain : Op → Op
plain o = op (in_txn (fields o).t (fields o)) nil nil

conv_to_op-request_op :
    (t : OpType) (f : OpFields) (r : RequestOp)
    → request_op t f ≡ ok r
    → conv_to_op r ≡ ok (op (in_txn t f) nil nil)
unfolding request_op conv_to_op
conv_to_op-request_op t_range f r h = rw (← ok-injective _ _ h)
conv_to_op-request_op t_put f r h = rw (← ok-injective _ _ h)
conv_to_op-request_op t_delete_range f r h = rw (← ok-injective _ _ h)
conv_to_op-request_op _ f r h = cc

conv_to_op-plain : (o : Op) (r : RequestOp) → to_request_op o ≡ ok r → conv_to_op r ≡ ok (plain o)
unfolding to_request_op
conv_to_op-plain o r h = conv_to_op-request_op (fields o).t (fields o) r h

conv_to_ops-plain :
    (os : List Op) (rs : List RequestOp)
    → to_request_ops os ≡ ok rs
    → conv_to_ops rs ≡ ok (map plain os)
unfolding to_request_ops conv_to_ops
conv_to_ops-plain [] rs h = rw (← ok-injective _ _ h)
conv_to_ops-plain (o ∷ os) rs h =
    let (r, p, k) = >>=-eq_ok (to_request_op o) _ h in
    let (rs', q, e) = >>=-eq_ok (to_request_ops os) _ k in
    rw (← ok-injective _ _ e, conv_to_op-plain o r p, conv_to_ops-plain os rs' q)

map-compare :
    (cs : List Cmp) → map (λ p. record { compare = p }) (map (λ (c : Cmp). c.compare) cs) ≡ cs
map-compare [] = refl
map-compare (c ∷ cs) = ap (λ xs. c ∷ xs) (map-compare cs)

-- A transaction whose request reaches the fake server unchanged is recorded under its table with the
-- same comparisons and the same operations in the same order, each with the fields that a
-- transaction carries.
pub conv_txn_to_request-op_txn :
    (cmps : List Cmp) (thens elses : List Op) (table : Bytes) (req : TxnRequest)
    → to_txn_request (op_txn cmps thens elses) table ≡ ok req
    → conv_txn_to_request (some req)
      ≡ ok (record { table = table; request = op_txn cmps (map plain thens) (map plain elses) })
unfolding conv_txn_to_request to_txn_request op_txn
conv_txn_to_request-op_txn cmps thens elses table req h =
    let (ts, p, k) = >>=-eq_ok (to_request_ops (list_of (ops_of thens))) _ h in
    let (es, q, e) = >>=-eq_ok (to_request_ops (list_of (ops_of elses))) _ k in
    rw (
      ← ok-injective _ _ e,
      conv_to_ops-plain thens ts (rw list_of-ops_of at p),
      conv_to_ops-plain elses es (rw list_of-ops_of at q),
      map-compare,
    )

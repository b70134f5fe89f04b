-- ===== src/Txn/Messages.antt =====
-- The messages of a transaction's operations, and what is read from the server's answer, field by field.
use regatta_go.Prelude.{
  all, Bool, true, false, ◌&&◌, ◌||◌, ◌≡◌, refl, ap, none, some, List, [], ◌∷◌, ◌++◌,
}
use regatta_go.Go.{ok}
use regatta_go.Proto
use regatta_go.Proto.{
  KeyValue, RequestOp, request_range, request_put, request_delete_range, response_range,
  response_put, response_delete_range, unset_response,
}
use regatta_go.Responses.{
  TxnResponse, ResponseOp, new_response_op, conv_key_values, conv_response_ops, txn_of,
}
use regatta_go.Op.{
  OpType, t_invalid, t_range, t_iterate_range, t_put, t_delete_range, t_txn, is_t_range, is_t_put,
  is_t_delete_range, OpFields, Op, op, request_op, to_request_op, to_request_ops, is_get, is_put,
  is_delete,
}
use regatta_go.Op.Requests.{fits_txn}

-- The message of an operation; there is one for a get, a put and a delete only.
abbrev pub message : OpType → OpFields → List RequestOp
message t_range f =
    request_range (record {
      key = f.key;
      range_end = f.end;
      limit = f.limit;
      keys_only = f.keys_only;
      count_only = f.count_only;
    })
    ∷ []
message t_put f = request_put (record { key = f.key; value = f.val; prev_kv = f.prev_kv }) ∷ []
message t_delete_range f =
    request_delete_range
      (record { key = f.key; range_end = f.end; prev_kv = f.prev_kv; count = f.count })
    ∷ []
message _ f = []

abbrev pub messages : List Op → List RequestOp
messages [] = []
messages (op f thens elses ∷ os) = message f.t f ++ messages os

one :
    (t : OpType) (f : OpFields)
    → (is_t_range t || is_t_put t || is_t_delete_range t) ≡ true
    → (r : RequestOp) × (request_op t f ≡ ok r) × (message t f ≡ r ∷ [])
unfolding request_op
one t_range f h = (_, refl, refl)
one t_put f h = (_, refl, refl)
one t_delete_range f h = (_, refl, refl)
one t_invalid f h = cc
one t_iterate_range f h = cc
one t_txn f h = cc

pub both : (a b : Bool) → (a && b) ≡ true → (a ≡ true) × (b ≡ true)
both true b h = (refl, h)
both false b h = cc

pub to_request_ops-messages :
    (os : List Op) → all fits_txn os ≡ true → to_request_ops os ≡ ok (messages os)
unfolding to_request_ops to_request_op is_get is_put is_delete
to_request_ops-messages [] h = refl
to_request_ops-messages (op f a b ∷ os) h =
    let (fits, rest) = both (fits_txn (op f a b)) (all fits_txn os) h in
    let (r, e, m) = one f.t f fits in rw (e, m, to_request_ops-messages os rest) refl

-- The answer to one operation, without a header; one of no type is left out.
abbrev pub response : Proto.ResponseOp → List ResponseOp
response (response_range r) =
    record {
      get = some (record { header = none; kvs = r.kvs; more = r.more; count = r.count });
      put = none;
      delete = none;
    }
    ∷ []
response (response_put r) =
    record { get = none; put = some (record { header = none; prev_kv = r.prev_kv }); delete = none }
    ∷ []
response (response_delete_range r) =
    record {
      get = none;
      put = none;
      delete = some (record { header = none; deleted = r.deleted; prev_kvs = r.prev_kvs });
    }
    ∷ []
response unset_response = []

abbrev pub responses : List Proto.ResponseOp → List ResponseOp
responses [] = []
responses (t ∷ ts) = response t ++ responses ts

abbrev pub txn_response : Proto.TxnResponse → TxnResponse
txn_response r = record {
  header = r.header;
  succeeded = r.succeeded;
  responses = responses r.responses;
}

same : (kvs : List KeyValue) → conv_key_values kvs ≡ kvs
unfolding conv_key_values
same [] = refl
same (kv ∷ kvs) = ap (λ xs. kv ∷ xs) (same kvs)

conv_response_ops-eq : (ts : List Proto.ResponseOp) → conv_response_ops ts ≡ responses ts
unfolding conv_response_ops new_response_op
conv_response_ops-eq [] = refl
conv_response_ops-eq (response_range r ∷ ts) = rw (same r.kvs, conv_response_ops-eq ts) refl
conv_response_ops-eq (response_put r ∷ ts) = rw (conv_response_ops-eq ts) refl
conv_response_ops-eq (response_delete_range r ∷ ts) =
    rw (same r.prev_kvs, conv_response_ops-eq ts) refl
conv_response_ops-eq (unset_response ∷ ts) = conv_response_ops-eq ts

pub txn_of-eq : (r : Proto.TxnResponse) → txn_of r ≡ txn_response r
unfolding txn_of
txn_of-eq r = rw (conv_response_ops-eq r.responses) refl

-- ===== src/Responses.antt =====
-- kv.go: the responses of the client and their translation from the messages of the server. The
-- conversions of `KeyValue` and `ResponseHeader` change a pointer's type only.
use regatta_go.Prelude.{ℤ, Bool, Option, none, some, List, [], ◌∷◌}
use regatta_go.Go.{is_set}
use regatta_go.Proto
use regatta_go.Proto.{
  ResponseHeader, KeyValue, RangeResponse, DeleteRangeResponse, response_range, response_put,
  response_delete_range, unset_response,
}

pub record GetResponse : Type 0 where
  pub header : Option ResponseHeader
  pub kvs : List KeyValue
  pub more : Bool
  pub count : ℤ

pub record DeleteResponse : Type 0 where
  pub header : Option ResponseHeader
  pub deleted : ℤ
  pub prev_kvs : List KeyValue

pub record PutResponse : Type 0 where
  pub header : Option ResponseHeader
  pub prev_kv : Option KeyValue

pub record ResponseOp : Type 0 where
  pub get : Option GetResponse
  pub put : Option PutResponse
  pub delete : Option DeleteResponse

pub record TxnResponse : Type 0 where
  pub header : Option ResponseHeader
  pub succeeded : Bool
  pub responses : List ResponseOp

-- The cases of the type switch in `NewResponseOp`.
pub data AnyResponse : Type 0 where
  any_get : GetResponse → AnyResponse
  any_put : PutResponse → AnyResponse
  any_delete : DeleteResponse → AnyResponse

unfoldable pub new_response_op : AnyResponse → ResponseOp
new_response_op (any_get r) = record { get = some r; put = none; delete = none }
new_response_op (any_put r) = record { get = none; put = some r; delete = none }
new_response_op (any_delete r) = record { get = none; put = none; delete = some r }

unfoldable pub is_get : ResponseOp → Bool
is_get x = is_set x.get

unfoldable pub is_put : ResponseOp → Bool
is_put x = is_set x.put

unfoldable pub is_delete : ResponseOp → Bool
is_delete x = is_set x.delete

unfoldable pub conv_key_values : List KeyValue → List KeyValue
conv_key_values [] = []
conv_key_values (t ∷ ts) = t ∷ conv_key_values ts

-- A response of no type is left out.
unfoldable pub conv_response_ops : List Proto.ResponseOp → List ResponseOp
unfolding new_response_op conv_key_values
conv_response_ops [] = []
conv_response_ops (response_range r ∷ ts) =
    new_response_op (
      any_get
        (record { header = none; kvs = conv_key_values r.kvs; more = r.more; count = r.count }))
    ∷ conv_response_ops ts
conv_response_ops (response_put r ∷ ts) =
    new_response_op (any_put (record { header = none; prev_kv = r.prev_kv })) ∷ conv_response_ops ts
conv_response_ops (response_delete_range r ∷ ts) =
    new_response_op (
      any_delete
        (record { header = none; deleted = r.deleted; prev_kvs = conv_key_values r.prev_kvs }))
    ∷ conv_response_ops ts
conv_response_ops (unset_response ∷ ts) = conv_response_ops ts

unfoldable pub get_of : RangeResponse → GetResponse
unfolding conv_key_values
get_of r = record { header = r.header; kvs = conv_key_values r.kvs; more = r.more; count = r.count }

unfoldable pub put_of : Proto.PutResponse → PutResponse
put_of r = record { header = r.header; prev_kv = r.prev_kv }

unfoldable pub delete_of : DeleteRangeResponse → DeleteResponse
unfolding conv_key_values
delete_of r = record {
  header = r.header;
  deleted = r.deleted;
  prev_kvs = conv_key_values r.prev_kvs;
}

unfoldable pub txn_of : Proto.TxnResponse → TxnResponse
unfolding conv_response_ops
txn_of r = record {
  header = r.header;
  succeeded = r.succeeded;
  responses = conv_response_ops r.responses;
}

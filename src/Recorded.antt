-- ===== src/Recorded.antt =====
-- fake.go: how the fake server turns requests back into operations, and responses into messages.
-- A request pointer that is nil gives the zero value.
pub mod RoundTrip
use regatta_go.Prelude.{ℕ, pos, Bool, true, false, not, Option, none, some, List, [], ◌∷◌, map}
use regatta_go.Go.{Go, ok, panic, ◌>>=◌, Bytes}
use regatta_go.Proto
use regatta_go.Proto.{
  ResponseHeader, KeyValue, RangeRequest, PutRequest, DeleteRangeRequest, TxnRequest, RequestOp,
  request_range, request_put, request_delete_range, unset_request, response_range, response_put,
  response_delete_range,
}
use regatta_go.Op.{t_range, t_put, t_delete_range, Op, op, nil, zero_fields, new_op, op_txn}
use regatta_go.Responses.{GetResponse, PutResponse, DeleteResponse, ResponseOp}

pub record RecordedRequest : Type 0 where
  pub table : Bytes
  pub request : Op

unfoldable pub no_request : RecordedRequest
no_request = record { table = []; request = op zero_fields nil nil }

unfoldable pub conv_range_to_request : Option RangeRequest → RecordedRequest
unfolding no_request
conv_range_to_request none = no_request
conv_range_to_request (some rr) = record {
  table = rr.table;
  request =
      op
        (record zero_fields {
          t = t_range;
          key = rr.key;
          end = rr.range_end;
          limit = rr.limit;
          serializable = not rr.linearizable;
          keys_only = rr.keys_only;
          count_only = rr.count_only;
          min_mod_rev = rr.min_mod_revision;
          max_mod_rev = rr.max_mod_revision;
          min_create_rev = rr.min_create_revision;
          max_create_rev = rr.max_create_revision;
        })
        nil nil;
}

unfoldable pub conv_put_to_request : Option PutRequest → RecordedRequest
unfolding no_request
conv_put_to_request none = no_request
conv_put_to_request (some pr) = record {
  table = pr.table;
  request =
      op (record zero_fields { t = t_put; key = pr.key; val = pr.value; prev_kv = pr.prev_kv }) nil
        nil;
}

unfoldable pub conv_delete_range_to_request : Option DeleteRangeRequest → RecordedRequest
unfolding no_request
conv_delete_range_to_request none = no_request
conv_delete_range_to_request (some drr) = record {
  table = drr.table;
  request =
      op
        (record zero_fields {
          t = t_delete_range;
          key = drr.key;
          end = drr.range_end;
          prev_kv = drr.prev_kv;
          count = drr.count;
        })
        nil nil;
}

unfoldable pub conv_to_op : RequestOp → Go Op
conv_to_op (request_range r) = ok (
    op
      (record zero_fields {
        t = t_range;
        key = r.key;
        end = r.range_end;
        limit = r.limit;
        keys_only = r.keys_only;
        count_only = r.count_only;
      })
      nil nil)
conv_to_op (request_put r) =
    ok (
      op (record zero_fields { t = t_put; key = r.key; val = r.value; prev_kv = r.prev_kv }) nil
        nil)
conv_to_op (request_delete_range r) = ok (
    op
      (record zero_fields {
        t = t_delete_range;
        key = r.key;
        end = r.range_end;
        prev_kv = r.prev_kv;
        count = r.count;
      })
      nil nil)
conv_to_op unset_request = panic "unsupported transaction op type"

unfoldable pub conv_to_ops : List RequestOp → Go (List Op)
unfolding conv_to_op
conv_to_ops [] = ok []
conv_to_ops (r ∷ rs) = do o ← conv_to_op r; os ← conv_to_ops rs; ok (o ∷ os)

unfoldable pub conv_txn_to_request : Option TxnRequest → Go RecordedRequest
unfolding no_request conv_to_ops op_txn
conv_txn_to_request none = ok no_request
conv_txn_to_request (some tr) = do
  thens ← conv_to_ops tr.success
  elses ← conv_to_ops tr.failure
  ok (record {
    table = tr.table;
    request = op_txn (map (λ p. record { compare = p }) tr.compare) thens elses;
  })

unfoldable pub conv_key_values_to_proto : List KeyValue → List KeyValue
conv_key_values_to_proto [] = []
conv_key_values_to_proto (t ∷ ts) = t ∷ conv_key_values_to_proto ts

-- The cases of the `switch`: the first response that is set counts, and none adds nothing.
unfoldable pub conv_response_to_proto :
    Option GetResponse
    → Option PutResponse
    → Option DeleteResponse
    → List Proto.ResponseOp
    → List Proto.ResponseOp
unfolding conv_key_values_to_proto
conv_response_to_proto (some g) p d out =
    response_range (record { kvs = conv_key_values_to_proto g.kvs; more = g.more; count = g.count })
    ∷ out
conv_response_to_proto none (some p) d out = response_put (record { prev_kv = p.prev_kv }) ∷ out
conv_response_to_proto none none (some d) out =
    response_delete_range
      (record { deleted = d.deleted; prev_kvs = conv_key_values_to_proto d.prev_kvs })
    ∷ out
conv_response_to_proto none none none out = out

unfoldable pub conv_responses_to_proto : List ResponseOp → List Proto.ResponseOp
unfolding conv_response_to_proto
conv_responses_to_proto [] = []
conv_responses_to_proto (t ∷ ts) =
    conv_response_to_proto t.get t.put t.delete (conv_responses_to_proto ts)

-- A new message with the same five fields.
unfoldable pub conv_to_header_proto : Option ResponseHeader → Option ResponseHeader
conv_to_header_proto none = none
conv_to_header_proto (some rh) = some (record {
  shard_id = rh.shard_id;
  replica_id = rh.replica_id;
  revision = rh.revision;
  raft_term = rh.raft_term;
  raft_leader_id = rh.raft_leader_id;
})

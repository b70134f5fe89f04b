-- ===== src/Fake/Messages.antt =====
-- The messages that `Do` makes of operations, and the operations that the fake server records of
-- them. An iteration is left out: its stream is read after the call.
use regatta_go.Prelude.{◌≡◌, ◌∙◌, some, List, [], ◌∷◌, map}
use regatta_go.Go.{Go, ok, panic, ◌>>=◌, >>=-eq_ok, ok-injective, Bytes}
use regatta_go.Proto.{TxnRequest}
use regatta_go.Op.{
  OpType, t_invalid, t_range, t_iterate_range, t_put, t_delete_range, t_txn, Op, op, nil, fields,
  then_ops, else_ops, to_range_request, to_txn_request, op_txn,
}
use regatta_go.Op.Requests.{list_of-ops_of}
use regatta_go.Recorded.{
  RecordedRequest, conv_put_to_request, conv_delete_range_to_request, conv_txn_to_request,
}
use regatta_go.Recorded.RoundTrip.{
  as_range, plain, in_txn, conv_range_to_request-op, conv_txn_to_request-op_txn,
}
use regatta_go.Fake.Cycle.{Request, record_of, records_of, recorded_txn}

-- The message of an operation of a type.
abbrev pub message_as : OpType → Bytes → Op → Go Request
message_as t_range table o = do req ← to_range_request o table; ok (Request.range req)
message_as t_put table o = ok (
    Request.put (record {
      table = table;
      key = (fields o).key;
      value = (fields o).val;
      prev_kv = (fields o).prev_kv;
    }))
message_as t_delete_range table o = ok (
    Request.delete_range (record {
      table = table;
      key = (fields o).key;
      range_end = (fields o).end;
      prev_kv = (fields o).prev_kv;
      count = (fields o).count;
    }))
message_as t_txn table o = do req ← to_txn_request o table; ok (Request.txn req)
message_as _ table o = panic "not answered by one message"

-- What is recorded of it: a get without the fields that a range request does not carry, a put or a
-- delete as it would stand in a transaction, a transaction with its operations like that.
abbrev pub recorded_as : OpType → Op → Op
recorded_as t_range o = op (as_range (fields o)) nil nil
recorded_as t_put o = op (in_txn t_put (fields o)) nil nil
recorded_as t_delete_range o = op (in_txn t_delete_range (fields o)) nil nil
recorded_as t_txn o = op_txn (fields o).cmps (map plain (then_ops o)) (map plain (else_ops o))
recorded_as _ o = o

-- A call of `Do`: the table and the operation.
abbrev pub Call : Type 0
Call = Bytes × Op

abbrev pub message_of : Call → Go Request
message_of (table, o) = message_as (fields o).t table o

abbrev pub recorded : Call → RecordedRequest
recorded (table, o) = record { table = table; request = recorded_as (fields o).t o }

-- The messages of some calls, if there is one for each.
unfoldable pub messages_of : List Call → Go (List Request)
messages_of [] = ok []
messages_of (c ∷ cs) = do r ← message_of c; rs ← messages_of cs; ok (r ∷ rs)

to_txn_request-again :
    (o : Op) (table : Bytes)
    → to_txn_request (op_txn (fields o).cmps (then_ops o) (else_ops o)) table
      ≡ to_txn_request o table
unfolding to_txn_request op_txn
to_txn_request-again o table = rw (list_of-ops_of (then_ops o), list_of-ops_of (else_ops o))

pub conv_txn_to_request-sent :
    (o : Op) (table : Bytes) (req : TxnRequest)
    → to_txn_request o table ≡ ok req
    → conv_txn_to_request (some req) ≡ ok (record { table = table; request = recorded_as t_txn o })
conv_txn_to_request-sent o table req p =
    conv_txn_to_request-op_txn (fields o).cmps (then_ops o) (else_ops o) table req
      (to_txn_request-again o table ∙ p)

message_as-record :
    (t : OpType) (table : Bytes) (o : Op) (r : Request)
    → message_as t table o ≡ ok r
    → record_of r ≡ record { table = table; request = recorded_as t o } ∷ []
unfolding record_of recorded_txn conv_put_to_request conv_delete_range_to_request
message_as-record t_range table o r h =
    let (req, p, e) = >>=-eq_ok (to_range_request o table) _ h in
    rw (← ok-injective _ _ e, conv_range_to_request-op o table req p)
message_as-record t_put table o r h = rw (← ok-injective _ _ h)
message_as-record t_delete_range table o r h = rw (← ok-injective _ _ h)
message_as-record t_txn table o r h =
    let (req, p, e) = >>=-eq_ok (to_txn_request o table) _ h in
    rw (← ok-injective _ _ e, conv_txn_to_request-sent o table req p)
message_as-record t_invalid table o r h = cc
message_as-record t_iterate_range table o r h = cc

-- The messages of some calls are recorded as those calls, in order.
pub messages_of-records :
    (cs : List Call) (rs : List Request) → messages_of cs ≡ ok rs → records_of rs ≡ map recorded cs
unfolding messages_of records_of
messages_of-records [] rs h = rw (← ok-injective _ _ h)
messages_of-records ((table, o) ∷ cs) rs h =
    let (r, p, k) = >>=-eq_ok (message_of (table, o)) _ h in
    let (rs', q, e) = >>=-eq_ok (messages_of cs) _ k in
    rw (
      ← ok-injective _ _ e,
      message_as-record (fields o).t table o r p,
      messages_of-records cs rs' q,
    )

-- ===== src/Proto.antt =====
-- The messages of internal/proto/regatta.pb.go and internal/proto/mvcc.pb.go that the client builds
-- and reads, without the bookkeeping fields of the protobuf runtime. A `range_end` may be nil.
-- int64 is `ℤ`, uint64 is `ℕ`; a message pointer that may be nil is an `Option`.
pub mod Admin
use regatta_go.Prelude.{ℕ, ℤ, Bool, Option, List}
use regatta_go.Go.{Bytes}

pub record ResponseHeader : Type 0 where
  pub shard_id : ℕ
  pub replica_id : ℕ
  pub revision : ℕ
  pub raft_term : ℕ
  pub raft_leader_id : ℕ

pub record KeyValue : Type 0 where
  pub key : Bytes
  pub create_revision : ℤ
  pub mod_revision : ℤ
  pub value : Bytes

pub data CompareResult : Type 0 where
  equal greater less not_equal : CompareResult

-- `Compare_VALUE` is the only target.
pub data CompareTarget : Type 0 where
  value_target : CompareTarget

-- The one member of the union `target_union` is `Compare_Value`.
pub record Compare : Type 0 where
  pub result : CompareResult
  pub target : CompareTarget
  pub key : Bytes
  pub target_union : Option Bytes
  pub range_end : Option Bytes

-- A pointer to a `Compare` message: the place where the heap of `Cmp` holds it.
abbrev pub ComparePtr : Type 0
ComparePtr = ℕ

pub record RangeRequest : Type 0 where
  pub table : Bytes
  pub key : Bytes
  pub range_end : Option Bytes
  pub limit : ℤ
  pub linearizable : Bool
  pub keys_only : Bool
  pub count_only : Bool
  pub min_mod_revision : ℤ
  pub max_mod_revision : ℤ
  pub min_create_revision : ℤ
  pub max_create_revision : ℤ

pub record RangeResponse : Type 0 where
  pub header : Option ResponseHeader
  pub kvs : List KeyValue
  pub more : Bool
  pub count : ℤ

pub record PutRequest : Type 0 where
  pub table : Bytes
  pub key : Bytes
  pub value : Bytes
  pub prev_kv : Bool

pub record PutResponse : Type 0 where
  pub header : Option ResponseHeader
  pub prev_kv : Option KeyValue

pub record DeleteRangeRequest : Type 0 where
  pub table : Bytes
  pub key : Bytes
  pub range_end : Option Bytes
  pub prev_kv : Bool
  pub count : Bool

pub record DeleteRangeResponse : Type 0 where
  pub header : Option ResponseHeader
  pub deleted : ℤ
  pub prev_kvs : List KeyValue

pub record RequestOpRange : Type 0 where
  pub key : Bytes
  pub range_end : Option Bytes
  pub limit : ℤ
  pub keys_only : Bool
  pub count_only : Bool

pub record RequestOpPut : Type 0 where
  pub key : Bytes
  pub value : Bytes
  pub prev_kv : Bool

pub record RequestOpDeleteRange : Type 0 where
  pub key : Bytes
  pub range_end : Option Bytes
  pub prev_kv : Bool
  pub count : Bool

-- The union `request`; `unset_request` is its nil.
pub data RequestOp : Type 0 where
  request_range : RequestOpRange → RequestOp
  request_put : RequestOpPut → RequestOp
  request_delete_range : RequestOpDeleteRange → RequestOp
  unset_request : RequestOp

pub record ResponseOpRange : Type 0 where
  pub kvs : List KeyValue
  pub more : Bool
  pub count : ℤ

pub record ResponseOpPut : Type 0 where
  pub prev_kv : Option KeyValue

pub record ResponseOpDeleteRange : Type 0 where
  pub deleted : ℤ
  pub prev_kvs : List KeyValue

-- The union `response`; `unset_response` is its nil.
pub data ResponseOp : Type 0 where
  response_range : ResponseOpRange → ResponseOp
  response_put : ResponseOpPut → ResponseOp
  response_delete_range : ResponseOpDeleteRange → ResponseOp
  unset_response : ResponseOp

pub record TxnRequest : Type 0 where
  pub table : Bytes
  pub compare : List ComparePtr
  pub success : List RequestOp
  pub failure : List RequestOp

pub record TxnResponse : Type 0 where
  pub header : Option ResponseHeader
  pub succeeded : Bool
  pub responses : List ResponseOp

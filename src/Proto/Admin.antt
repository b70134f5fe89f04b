-- ===== src/Proto/Admin.antt =====
-- internal/proto/regatta.pb.go: the messages of the services for clusters and tables. A configuration
-- is a message `Struct` of a library, the parameter of the messages that hold one.
use regatta_go.Prelude.{ℕ, ℤ, Bool, Option, List}
use regatta_go.Go.{Bytes}

pub data MemberListRequest : Type 0 where
  member_list_request : MemberListRequest

pub record Member : Type 0 where
  pub id : Bytes
  pub name : Bytes
  pub peer_urls : List Bytes
  pub client_urls : List Bytes

pub record MemberListResponse : Type 0 where
  pub cluster : Bytes
  pub members : List Member

pub record StatusRequest : Type 0 where
  pub config : Bool

pub record TableStatus : Type 0 where
  pub log_size : ℤ
  pub db_size : ℤ
  pub leader : Bytes
  pub raft_index : ℕ
  pub raft_term : ℕ
  pub raft_applied_index : ℕ

-- The table statuses are a map, listed with their names.
pub record StatusResponse (Struct : Type 0) : Type 0 where
  pub id : Bytes
  pub version : Bytes
  pub info : Bytes
  pub tables : List (Bytes × TableStatus)
  pub config : Option Struct
  pub errors : List Bytes

pub record CreateTableRequest (Struct : Type 0) : Type 0 where
  pub name : Bytes
  pub config : Option Struct

pub record CreateTableResponse : Type 0 where
  pub id : Bytes

pub record DeleteTableRequest : Type 0 where
  pub name : Bytes

pub data DeleteTableResponse : Type 0 where
  delete_table_response : DeleteTableResponse

pub data ListTablesRequest : Type 0 where
  list_tables_request : ListTablesRequest

pub record TableInfo (Struct : Type 0) : Type 0 where
  pub name : Bytes
  pub id : Bytes
  pub config : Option Struct

pub record ListTablesResponse (Struct : Type 0) : Type 0 where
  pub tables : List (TableInfo Struct)

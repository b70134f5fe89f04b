-- ===== src/Tables.antt =====
-- tables.go: the client of the tables service over the stub `TablesClient`. A configuration is read
-- by `as_map`, the method `AsMap` of its library.
use regatta_go.Prelude.{Option, none, some, List, [], ◌∷◌, ◌++◌, map}
use regatta_go.Go.{ok, Bytes}
use regatta_go.Go.Run.{Run, ◌>>=◌}
use regatta_go.Env.{Env, Reply, resp, fail, to_err}
use regatta_go.Retry.{CallOption, with_repeatable}
use regatta_go.Proto.Admin
use regatta_go.Proto.Admin.{
  CreateTableRequest, CreateTableResponse, DeleteTableRequest, DeleteTableResponse,
  ListTablesRequest, list_tables_request,
}

pub record TableInfo (Json : Type 0) : Type 0 where
  pub id : Bytes
  pub name : Bytes
  pub config : Json

pub record ListTablesResponse (Json : Type 0) : Type 0 where
  pub tables : List (TableInfo Json)

module _ {Struct Json : Type 0} (as_map : Option Struct → Json) where
  info_of_table : Admin.TableInfo Struct → TableInfo Json
  info_of_table v = record { id = v.id; name = v.name; config = as_map v.config }

  unfoldable pub map_proto_list_tables_response :
      Admin.ListTablesResponse Struct → ListTablesResponse Json
  unfolding info_of_table
  map_proto_list_tables_response r = record { tables = map info_of_table r.tables }

module _ (env : Env) (Struct : Type 0) where
  open env use {World, Err, Ctx}

  pub record TablesClient : Type 0 where
    pub create :
        Ctx
        → CreateTableRequest Struct
        → List (CallOption env)
        → Run World (Reply Err CreateTableResponse)
    pub delete :
        Ctx → DeleteTableRequest → List (CallOption env) → Run World (Reply Err DeleteTableResponse)
    pub list :
        Ctx
        → ListTablesRequest
        → List (CallOption env)
        → Run World (Reply Err (Admin.ListTablesResponse Struct))

  -- `retryTablesClient`: only the listing may be repeated.
  unfoldable pub retry_tables_client : TablesClient → TablesClient
  retry_tables_client client = record {
    create = client.create;
    delete = client.delete;
    list = λ ctx req opts. client.list ctx req (opts ++ with_repeatable env ∷ []);
  }

  pub record Tables : Type 0 where
    pub remote : TablesClient
    pub call_opts : List (CallOption env)

  unfoldable pub new_tables : TablesClient → List (CallOption env) → Tables
  unfolding retry_tables_client
  new_tables client opts = record { remote = retry_tables_client client; call_opts = opts }

  given : Option (List (CallOption env)) → List (CallOption env)
  given none = []
  given (some opts) = opts

  -- `NewTablesFromTablesClient`: the call options are those of a client, if there is one.
  unfoldable pub new_tables_from_tables_client :
      TablesClient → Option (List (CallOption env)) → Tables
  unfolding new_tables given
  new_tables_from_tables_client client opts = new_tables client (given opts)

  -- The end of a call: the response, or the error that the caller sees.
  abbrev pub translated :
      {A B : Type 0} → Ctx → (A → B) → Reply Err A → Run World (Option B × Option Err)
  translated ctx f (resp a) w = (ok (some (f a), none), w)
  translated ctx f (fail e) w = (ok (none, to_err env ctx (some e) w), w)

  unfoldable pub create_table :
      Tables → Ctx → Bytes → Run World (Option CreateTableResponse × Option Err)
  create_table t ctx name =
      t.remote.create ctx (record { name = name; config = none }) t.call_opts
      >>= translated ctx (λ r. r)

  unfoldable pub delete_table :
      Tables → Ctx → Bytes → Run World (Option DeleteTableResponse × Option Err)
  delete_table t ctx name =
      t.remote.delete ctx (record { name = name }) t.call_opts >>= translated ctx (λ r. r)

  unfoldable pub list_tables :
      {Json : Type 0}
      → (Option Struct → Json)
      → Tables
      → Ctx
      → Run World (Option (ListTablesResponse Json) × Option Err)
  unfolding map_proto_list_tables_response
  list_tables as_map t ctx =
      t.remote.list ctx list_tables_request (t.call_opts ++ with_repeatable env ∷ [])
      >>= translated ctx (map_proto_list_tables_response as_map)

-- ===== src/Cluster.antt =====
-- cluster.go: the client of the cluster service. The stub over a connection, `stub`, and dialing are
-- parameters; `close` closes a connection and `worded` is `fmt.Errorf` around the error of dialing.
pub mod Status
use regatta_go.Prelude.{Bool, true, Option, none, some, List, [], ◌∷◌, ◌++◌, map}
use regatta_go.Go.{Go, ok, panic, Bytes}
use regatta_go.Go.Run.{Run, pure, raise, ◌>>=◌}
use regatta_go.Env.{Env, Reply, resp, fail, to_err}
use regatta_go.Retry.{CallOption, with_repeatable}
use regatta_go.Proto.Admin
use regatta_go.Proto.Admin.{
  MemberListRequest, member_list_request, MemberListResponse, StatusRequest, TableStatus,
}

pub record StatusResponse (Json : Type 0) : Type 0 where
  pub id : Bytes
  pub version : Bytes
  pub info : Bytes
  pub tables : List (Bytes × TableStatus)
  pub errors : List Bytes
  pub config : Json

-- The copy of a map, entry by entry.
copied : List (Bytes × TableStatus) → List (Bytes × TableStatus)
copied [] = []
copied ((k, v) ∷ ts) = (k, v) ∷ copied ts

unfoldable pub map_proto_status_response :
    {Struct Json : Type 0}
    → (Option Struct → Json)
    → Admin.StatusResponse Struct
    → StatusResponse Json
unfolding copied
map_proto_status_response as_map r = record {
  id = r.id;
  version = r.version;
  info = r.info;
  tables = copied r.tables;
  errors = r.errors;
  config = as_map r.config;
}

module _ (env : Env) (Struct : Type 0) where
  open env use {World, Err, Ctx}

  pub record ClusterClient : Type 0 where
    pub member_list :
        Ctx → MemberListRequest → List (CallOption env) → Run World (Reply Err MemberListResponse)
    pub status :
        Ctx
        → StatusRequest
        → List (CallOption env)
        → Run World (Reply Err (Admin.StatusResponse Struct))

  unfoldable pub retry_cluster_client : ClusterClient → ClusterClient
  retry_cluster_client client = record {
    member_list = λ ctx req opts. client.member_list ctx req (opts ++ with_repeatable env ∷ []);
    status = λ ctx req opts. client.status ctx req (opts ++ with_repeatable env ∷ []);
  }

  -- `dial` gives a stub and what closes its connection.
  pub record Cluster : Type 0 where
    pub remote : ClusterClient
    pub call_opts : List (CallOption env)
    pub dial : Bytes → Run World (Reply Err (ClusterClient × (World → World)))

  module _ (Conn : Type 0) (stub : Conn → ClusterClient)
      (dial_conn : Bytes → Run World (Reply Err Conn)) (close : Conn → World → World)
      (worded : Bytes → Err → Err) where
    -- The client of the dialled endpoint is made over `own`, the connection `c.conn`.
    dialled :
        Conn → Bytes → Reply Err Conn → Run World (Reply Err (ClusterClient × (World → World)))
    unfolding retry_cluster_client
    dialled own endpoint (fail e) = pure (fail (worded endpoint e))
    dialled own endpoint (resp conn) = pure (resp (retry_cluster_client (stub own), close conn))

    unfoldable pub new_cluster : Conn → List (CallOption env) → Cluster
    unfolding retry_cluster_client dialled
    new_cluster own opts = record {
      remote = retry_cluster_client (stub own);
      call_opts = opts;
      dial = λ endpoint. dial_conn endpoint >>= dialled own endpoint;
    }

  or_no_options : Option (List (CallOption env)) → List (CallOption env)
  or_no_options none = []
  or_no_options (some opts) = opts

  -- `NewClusterFromClusterClient`: the call options are those of a client, if there is one, and `dial`
  -- stays nil.
  unfoldable pub new_cluster_from_cluster_client :
      ClusterClient → Option (List (CallOption env)) → Cluster
  unfolding or_no_options
  new_cluster_from_cluster_client remote opts = record {
    remote = remote;
    call_opts = or_no_options opts;
    dial = λ endpoint. raise "invalid memory address or nil pointer dereference";
  }

  seen : {A B : Type 0} → Ctx → (A → B) → Reply Err A → Run World (Option B × Option Err)
  seen ctx f (resp a) w = (ok (some (f a), none), w)
  seen ctx f (fail e) w = (ok (none, to_err env ctx (some e) w), w)

  unfoldable pub member_list : Cluster → Ctx → Run World (Option MemberListResponse × Option Err)
  unfolding seen
  member_list c ctx =
      c.remote.member_list ctx member_list_request (c.call_opts ++ with_repeatable env ∷ [])
      >>= seen ctx (λ r. r)

  -- `defer`: a panic, too, is followed by the deferred call.
  deferred : {A : Type 0} → (World → World) → Go A × World → Go A × World
  deferred f (g, w) = (g, f w)

  module _ {Json : Type 0} (as_map : Option Struct → Json) where
    ask :
        Cluster
        → Ctx
        → Reply Err (ClusterClient × (World → World))
        → Run World (Option (StatusResponse Json) × Option Err)
    unfolding seen map_proto_status_response deferred
    ask c ctx (fail e) w = (ok (none, to_err env ctx (some e) w), w)
    ask c ctx (resp (remote, cancel)) w = deferred cancel (
        (remote.status ctx (record { config = true }) (c.call_opts ++ with_repeatable env ∷ [])
            >>= seen ctx (map_proto_status_response as_map))
          w)

    unfoldable pub status :
        Cluster → Ctx → Bytes → Run World (Option (StatusResponse Json) × Option Err)
    unfolding ask
    status c ctx endpoint = c.dial endpoint >>= ask c ctx

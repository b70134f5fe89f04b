-- ===== src/Metrics.antt =====
-- plugin/rprom/rprom.go and plugin/rprom/config.go: the plugin for metrics. Prometheus is the parameter
-- `call`, which carries out one call on a metric; times are those of the parameters `now` and `since`.
pub mod Config
pub mod Calls
use regatta_go.Metrics.Config.{Cfg, read_time, get_histogram_buckets}
use regatta_go.Prelude.{
  String, ℕ, Bool, true, false, Option, none, some, List, [], ◌∷◌, if◌then◌else◌,
}
use regatta_go.Go.{Go, ok, panic, Bytes, codes}
use regatta_go.Go.Run.{Run}
use regatta_go.Env.{Env}
use regatta_go.Op.{Op, is_get, is_iterate, is_put, is_delete, is_txn}
use regatta_go.Kv.{OpResponse, KvDo, KvHook}

-- The metrics of the plugin; those of requests are told apart by table and operation.
pub data Metric : Type 0 where
  conn_connects_total conn_disconnects_total conn_connect_active : Metric
  write_bytes_total read_bytes_total : Metric
  request_duration request_errors : Metric

-- What a metric is made with; a histogram has buckets.
pub record MetricOpts : Type 0 where
  pub namespace : Bytes
  pub subsystem : Bytes
  pub name : Bytes
  pub help : Bytes
  pub buckets : Option (List ℕ)
  pub labels : List Bytes

pub data Call (Duration : Type 0) : Type 0 where
  inc dec : Metric → Call Duration
  add : Metric → ℕ → Call Duration
  observe : Metric → Bytes → Bytes → Duration → Call Duration
  inc_labelled : Metric → Bytes → Bytes → Call Duration
  -- a metric is made and registered, or unregistered
  register : Metric → MetricOpts → Call Duration
  unregister : Metric → Call Duration

-- The statistics that gRPC reports, with the length on the wire of a payload.
pub data ConnStats : Type 0 where
  conn_begin conn_end : ConnStats

pub data RpcStats : Type 0 where
  in_payload out_payload : ℕ → RpcStats
  other_stats : RpcStats

unfoldable pub get_op_label : Op → Bytes
get_op_label o =
    if is_get o
    then codes "get"
    else if is_iterate o
    then codes "iterate"
    else if is_put o
    then codes "put"
    else if is_delete o
    then codes "delete"
    else if is_txn o
    then codes "txn"
    else codes "unknown"

made :
    {Duration : Type 0}
    → Cfg
    → Metric
    → String
    → String
    → Option (List ℕ)
    → List Bytes
    → Call Duration
made c m name help buckets labels = register m (record {
  namespace = c.namespace;
  subsystem = c.subsystem;
  name = codes name;
  help = codes help;
  buckets = buckets;
  labels = labels;
})

abbrev request_labels : List Bytes
request_labels = codes "table" ∷ codes "op" ∷ []

module _ {World Duration : Type 0} (call : Call Duration → World → World) where
  unfoldable pub calls : List (Call Duration) → World → World
  calls [] w = w
  calls (c ∷ cs) w = calls cs (call c w)

  unfoldable pub on_new_client : Cfg → World → World
  unfolding calls made
  on_new_client c = calls (
      made c conn_connects_total "connects_total" "Total number of connections opened" none []
      ∷ made c conn_disconnects_total "disconnects_total" "Total number of connections closed" none
          []
      ∷ made c conn_connect_active "connect_active" "Total number of connections active" none []
      ∷ made c write_bytes_total "write_bytes_total" "Total number of bytes written" none []
      ∷ made c read_bytes_total "read_bytes_total" "Total number of bytes read" none []
      ∷ made c request_duration "request_duration_seconds"
          "Time spent executing Regatta KV operation" (some (get_histogram_buckets c read_time))
          request_labels
      ∷ made c request_errors "request_errors_total"
          "Total number of errors while executing KV operation" none request_labels
      ∷ [])

  unfoldable pub on_client_close : World → World
  unfolding calls
  on_client_close = calls (
      unregister conn_connects_total
      ∷ unregister conn_disconnects_total
      ∷ unregister conn_connect_active
      ∷ unregister write_bytes_total
      ∷ unregister read_bytes_total
      ∷ unregister request_duration
      ∷ unregister request_errors
      ∷ [])

  unfoldable pub on_handle_conn : ConnStats → World → World
  unfolding calls
  on_handle_conn conn_begin = calls (inc conn_connects_total ∷ inc conn_connect_active ∷ [])
  on_handle_conn conn_end = calls (inc conn_disconnects_total ∷ dec conn_connect_active ∷ [])

  unfoldable pub on_handle_rpc : RpcStats → World → World
  on_handle_rpc (in_payload n) w = call (add read_bytes_total n) w
  on_handle_rpc (out_payload n) w = call (add write_bytes_total n) w
  on_handle_rpc other_stats w = w

module _ (env : Env) {Time Duration : Type 0} (call : Call Duration → env.World → env.World)
    (now : env.World → Time) (since : Time → env.World → Duration) where
  open env use {World, Err}

  -- The deferred function: where `fn` panics, `err` is nil.
  report : Bytes → Op → Time → Option Err → World → World
  report table o start none w =
      call (observe request_duration table (get_op_label o) (since start w)) w
  report table o start (some e) w =
      call (inc_labelled request_errors table (get_op_label o))
        (call (observe request_duration table (get_op_label o) (since start w)) w)

  reported :
      Bytes
      → Op
      → Time
      → Go (OpResponse env × Option Err) × World
      → Go (OpResponse env × Option Err) × World
  unfolding report
  reported table o start (ok (r, err), w) = (ok (r, err), report table o start err w)
  reported table o start (panic m, w) = (panic m, report table o start none w)

  unfoldable pub on_kv_call : KvHook env
  unfolding reported
  on_kv_call ctx table o fn w = reported table o (now w) (fn ctx table o w)

-- ===== src/Cluster/Status.antt =====
-- cluster.go: which server the status of an endpoint comes from.
use regatta_go.Prelude.{◌≡◌, refl, ap, ◌∙◌, true, Option, none, some, List, [], ◌∷◌, ◌++◌}
use regatta_go.Go.{ok, Bytes}
use regatta_go.Go.Run.{Run, >>=-known}
use regatta_go.Env.{Env, Reply, resp, fail}
use regatta_go.Env.Reported.{reported_error, to_err-reported_error}
use regatta_go.Retry.{CallOption, with_repeatable}
use regatta_go.Proto.Admin
use regatta_go.Proto.Admin.{TableStatus}
use regatta_go.Cluster.{
  StatusResponse, copied, map_proto_status_response, ClusterClient, Cluster, new_cluster,
  retry_cluster_client, status, dialled, ask, seen, deferred,
}

copied-eq : (ts : List (Bytes × TableStatus)) → copied ts ≡ ts
unfolding copied
copied-eq [] = refl
copied-eq ((k, v) ∷ ts) = ap (λ xs. (k, v) ∷ xs) (copied-eq ts)

module _ (env : Env) (Struct : Type 0) (Json : Type 0) (as_map : Option Struct → Json)
    (Conn : Type 0) (stub : Conn → ClusterClient env Struct)
    (dial_conn : Bytes → Run env.World (Reply env.Err Conn)) (close : Conn → env.World → env.World)
    (worded : Bytes → env.Err → env.Err) where
  abbrev cluster : Conn → List (CallOption env) → Cluster env Struct
  cluster = new_cluster env Struct Conn stub dial_conn close worded

  -- What a caller sees of a server's answer.
  abbrev pub answered :
      env.Ctx
      → Reply env.Err (Admin.StatusResponse Struct)
      → env.World
      → Option (StatusResponse Json) × Option env.Err
  answered ctx (resp m) w = (
    some (record {
      id = m.id;
      version = m.version;
      info = m.info;
      tables = m.tables;
      errors = m.errors;
      config = as_map m.config;
    }),
    none,
  )
  answered ctx (fail e) w = (none, some (reported_error env ctx e w))

  seen-answered :
      (ctx : env.Ctx) (r : Reply env.Err (Admin.StatusResponse Struct)) (w : env.World)
      → seen env Struct ctx (map_proto_status_response as_map) r w ≡ (ok (answered ctx r w), w)
  unfolding seen map_proto_status_response
  seen-answered ctx (resp m) w = rw (copied-eq m.tables) refl
  seen-answered ctx (fail e) w = ap (λ o. (ok (none, o), w)) (to_err-reported_error env ctx e w)

  -- The status of an endpoint that can be dialled is asked of the server behind the client's own
  -- connection, once, with the configuration and the client's call options, marked repeatable, whatever
  -- the endpoint. Its answer comes back field by field, its error as it is, or as the context's own
  -- where its code is of a context that is over. Then the dialled connection is closed.
  pub status-own :
      (own : Conn) (opts : List (CallOption env)) (ctx : env.Ctx) (ep : Bytes) (conn : Conn)
      (r : Reply env.Err (Admin.StatusResponse Struct)) (w w1 w2 : env.World)
      → dial_conn ep w ≡ (ok (resp conn), w1)
      → (stub own).status ctx
          (record { config = true })
          ((opts ++ with_repeatable env ∷ []) ++ with_repeatable env ∷ [])
          w1
        ≡ (ok r, w2)
      → status env Struct as_map (cluster own opts) ctx ep w
        ≡ (ok (answered ctx r w2), close conn w2)
  unfolding status new_cluster dialled ask deferred retry_cluster_client
  status-own own opts ctx ep conn r w w1 w2 h asked =
      let c = cluster own opts in
      >>=-known (c.dial ep) (ask env Struct as_map c ctx) w
        (>>=-known (dial_conn ep) (dialled env Struct Conn stub dial_conn close worded own ep) w h)
      ∙ ap (deferred env Struct (close conn)) (
          >>=-known
            (c.remote.status ctx (record { config = true })
              (c.call_opts ++ with_repeatable env ∷ []))
            _ w1 asked
          ∙ seen-answered ctx r w2)

-- ===== src/Version/Admission.antt =====
-- client.go: `newClient` with the check of the cluster's version.
use mathlib.Core.List.{Permᴰ}
use regatta_go.Prelude.{
  all, ◌≡◌, sym, ap, ◌∙◌, Bool, true, not, ◌&&◌, ◌||◌, Option, List, map, arith,
}
use regatta_go.Go.{is_empty}
use regatta_go.Env.{Reply}
use regatta_go.Hooks.{any_interface}
use regatta_go.Hooks.Flatten.{leaves_of}
use regatta_go.Config.{Config}
use regatta_go.Client.{new_client}
use regatta_go.Client.Construction.{is_made, limits_fit, new_client-accepts}
use regatta_go.Cluster.{StatusResponse}
use regatta_go.Version.{VersionErr, version_error, check_version}
use regatta_go.Version.Arrival.{passes, check_version-arrival}

last_test :
    (a b c r x : Bool)
    → r ≡ true
    → (a && (b && (c && (not r || x)))) ≡ ((a && (b && (c && (not r || true)))) && x)
last_test a b c r x h = ground arith

-- The outcome of the check is one more condition.
pub checked :
    (cfg : Config) (x : Bool)
    → cfg.reject_old_cluster ≡ true
    → is_made (new_client cfg true x) ≡ (is_made (new_client cfg true true) && x)
checked cfg x h =
    new_client-accepts cfg true x
    ∙ last_test (not (is_empty cfg.endpoints)) (limits_fit cfg)
        (all any_interface (leaves_of cfg.hooks)) cfg.reject_old_cluster x h
    ∙ ap (λ b. b && x) (sym (new_client-accepts cfg true true))

module _ {E Json : Type 0} where
  -- With `WithRejectOldCluster`, and a connection, a client is made exactly when it would be for a
  -- current cluster and every endpoint passes on its own: one that cannot be reached, or whose version
  -- cannot be read or is old, is enough to be refused, in whatever order the endpoints answer.
  pub new_client-current :
      (cfg : Config) (replies : List (Reply E (StatusResponse Json)))
      (arrived : List (Option (VersionErr E)))
      → cfg.reject_old_cluster ≡ true
      → Permᴰ (map version_error replies) arrived
      → is_made (new_client cfg true (passes (check_version arrived)))
        ≡ (is_made (new_client cfg true true) && all (λ r. passes (version_error r)) replies)
  new_client-current cfg replies arrived h d =
      checked cfg _ h
      ∙ ap (λ b. is_made (new_client cfg true true) && b) (check_version-arrival replies arrived d)

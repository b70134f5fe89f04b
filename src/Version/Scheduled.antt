-- ===== src/Version/Scheduled.antt =====
-- client.go: `newClient` with the check of the cluster's version under any schedule of its goroutines.
use mathlib.Core.Path.{ap₂}
use regatta_go.Prelude.{[], ◌∷◌, refl, ℕ, all, ◌≡◌, ap, ◌∙◌, true, ◌&&◌, Option, List, map}
use regatta_go.Env.{Reply}
use regatta_go.Config.{Config}
use regatta_go.Client.{new_client}
use regatta_go.Client.Construction.{is_made}
use regatta_go.Cluster.{StatusResponse}
use regatta_go.Version.{VersionErr, version_error}
use regatta_go.Version.Recent.{is_recent, version_error-recent}
use regatta_go.Version.Admission.{checked}
use regatta_go.Version.Goroutines.{State, start, Steps, HasReturned}
use regatta_go.Version.Counts.{good}
use regatta_go.Version.Schedules.{Steps-returned}

module _ (E Json : Type 0) where
  -- The result of an endpoint's reply.
  abbrev pub results : List (Reply E (StatusResponse Json)) → List (Option (VersionErr E))
  results replies = map version_error replies

  all-recent :
      (rs : List (Reply E (StatusResponse Json)))
      → all (good (VersionErr E)) (results rs) ≡ all is_recent rs
  all-recent [] = refl
  all-recent (r ∷ rs) = ap₂ ◌&&◌ (version_error-recent E r) (all-recent rs)

  -- With `WithRejectOldCluster`, a connection and the replies of the endpoints, in whatever order the
  -- goroutines of the check run and send: when `checkVersion` has returned `e`, a client is made
  -- exactly when it would be for a current cluster and every endpoint has given a status whose
  -- version, split at the dots, begins with two decimal numbers of which the first is at least 1, or
  -- it is 0 and the second at least 5. One that cannot be reached, or whose version cannot be read or
  -- is older, is enough to be refused.
  pub new_client-scheduled :
      (cfg : Config) (replies : List (Reply E (StatusResponse Json))) (n : ℕ)
      (t : State (VersionErr E)) (e : Option (VersionErr E))
      → cfg.reject_old_cluster ≡ true
      → Steps (VersionErr E) n (start (VersionErr E) (results replies)) t
      → HasReturned (VersionErr E) e t
      → is_made (new_client cfg true (good (VersionErr E) e))
        ≡ (is_made (new_client cfg true true) && all is_recent replies)
  new_client-scheduled cfg replies n t e rejects run ended =
      checked cfg (good (VersionErr E) e) rejects
      ∙ ap (λ b. is_made (new_client cfg true true) && b)
          (Steps-returned (VersionErr E) (results replies) n t e run ended ∙ all-recent replies)

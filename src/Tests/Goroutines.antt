-- ===== src/Tests/Goroutines.antt =====
-- A schedule of the check of the cluster's version: the second of two endpoints is old and answers
-- first, and the first gives up.
use regatta_go.Prelude.{
  ℕ, ◌+◌, ◌*◌, ◌≤◌, ◌≡◌, refl, ◌⊎◌, ◌&&◌, true, all, Option, none, some, List, [], ◌∷◌, length,
  arith,
}
use regatta_go.Go.{codes}
use regatta_go.Env.{Reply, resp, fail}
use regatta_go.Cluster.{StatusResponse}
use regatta_go.Config.{Config, zero_config}
use regatta_go.Client.{new_client}
use regatta_go.Client.Construction.{is_made}
use regatta_go.Version.{VersionErr, status_failed, version_error}
use regatta_go.Version.Recent.{is_recent}
use regatta_go.Version.Scheduled.{results, new_client-scheduled}
use regatta_go.Version.Goroutines.{
  done, returned, State, state, start, answers, give_up, hands_in, other, Step, works, sends,
  breaks, returns, Steps, here, next, HasReturned,
}
use regatta_go.Version.Schedules.{Steps-return}
use regatta_go.Version.Counts.{good}

abbrev owns : List (Option ℕ)
owns = none ∷ some 1 ∷ []

abbrev ended : State ℕ
ended = state (done none ∷ done (some 1) ∷ []) (some 9 ∷ []) 2 (returned (some 1))

schedule : Steps ℕ 6 (start ℕ owns) ended
unfolding start
schedule =
    next
      (next
        (next
          (next (next (next here (works (other answers))) (sends (other hands_in) (omega arith)))
            breaks)
          (works (give_up {r = some 9} refl)))
        (sends hands_in (omega arith)))
      (returns refl)

Steps-return_example :
    (6 ≤ 3 * length owns + 2)
    × (((e : Option ℕ) × HasReturned ℕ e ended × (good ℕ e ≡ all (good ℕ) owns))
        ⊎ ((u : State ℕ) × Step ℕ ended u))
Steps-return_example = Steps-return ℕ owns 6 ended schedule

abbrev version_06 : StatusResponse (Unit {0})
version_06 = record {
  id = [];
  version = codes "0.6.1";
  info = [];
  tables = [];
  errors = [];
  config = tt;
}

abbrev replies : List (Reply ℕ (StatusResponse (Unit {0})))
replies = resp version_06 ∷ fail 3 ∷ []

abbrev refused : Option (VersionErr ℕ)
refused = some (status_failed 3)

abbrev over : State (VersionErr ℕ)
over =
    state (done (version_error (resp version_06)) ∷ done refused ∷ []) (refused ∷ []) 2
      (returned refused)

-- The second endpoint cannot be reached, and the first then gives up as well.
scheduled : Steps (VersionErr ℕ) 6 (start (VersionErr ℕ) (results ℕ (Unit {0}) replies)) over
unfolding start version_error
scheduled =
    next
      (next
        (next
          (next (next (next here (works (other answers))) (sends (other hands_in) (omega arith)))
            breaks)
          (works (give_up {r = refused} refl)))
        (sends hands_in (omega arith)))
      (returns refl)

abbrev strict : Config
strict = record zero_config { endpoints = codes "a" ∷ codes "b" ∷ []; reject_old_cluster = true }

new_client-scheduled_example :
    is_made (new_client strict true (good (VersionErr ℕ) refused))
    ≡ (is_made (new_client strict true true) && all is_recent replies)
new_client-scheduled_example =
    new_client-scheduled ℕ (Unit {0}) strict replies 6 over refused refl scheduled refl

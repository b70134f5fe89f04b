-- ===== src/Version.antt =====
-- client.go: `checkVersion`. Each endpoint is asked in a goroutine of its own, which sends one result
-- to a channel; the results are read in the order in which they arrive.
pub mod Admission
pub mod Arrival
pub mod Goroutines
pub mod Counts
pub mod Invariant
pub mod Schedules
pub mod Recent
pub mod Scheduled
pub mod Text
use regatta_go.Prelude.{
  zero, suc, ℤ, pos, negsuc, Bool, true, false, Option, none, some, List, [], ◌∷◌, ltb,
  if◌then◌else◌,
}
use regatta_go.Go.{Bytes}
use regatta_go.Go.Strings.{split}
use regatta_go.Go.Decimal.{atoi}
use regatta_go.Env.{Reply, resp, fail}
use regatta_go.Cluster.{StatusResponse}

pub data VersionErr (E : Type 0) : Type 0 where
  status_failed : E → VersionErr E
  bad_number : Bytes → VersionErr E
  old_cluster : VersionErr E

-- `maj < 0 || (maj == 0 && minor < 5)`
unfoldable pub is_old : ℤ → ℤ → Bool
is_old (negsuc n) minor = true
is_old (pos zero) (negsuc n) = true
is_old (pos zero) (pos n) = ltb n 5
is_old (pos (suc n)) minor = false

module _ {E : Type 0} where
  by_numbers : Bytes → Bytes → Option ℤ → Option ℤ → Option (VersionErr E)
  by_numbers a b none minor = some (bad_number a)
  by_numbers a b (some maj) none = some (bad_number b)
  by_numbers a b (some maj) (some minor) = if is_old maj minor then some old_cluster else none

  by_parts : List Bytes → Option (VersionErr E)
  unfolding by_numbers is_old
  by_parts [] = some old_cluster
  by_parts (a ∷ []) = some old_cluster
  by_parts (a ∷ b ∷ rest) = by_numbers a b (atoi a) (atoi b)

  -- What the goroutine of an endpoint sends, from the reply of `Status`.
  unfoldable pub version_error :
      {Json : Type 0} → Reply E (StatusResponse Json) → Option (VersionErr E)
  unfolding by_parts
  version_error (fail e) = some (status_failed e)
  version_error (resp r) = by_parts (split b'.' r.version)

  -- The loop that reads the results.
  unfoldable pub check_version : List (Option (VersionErr E)) → Option (VersionErr E)
  check_version [] = none
  check_version (none ∷ rs) = check_version rs
  check_version (some e ∷ rs) = some e

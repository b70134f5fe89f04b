-- ===== src/Tracing/BuildVersion.antt =====
-- plugin/rotel/version.go: the version that the plugin reports for itself. What `debug.ReadBuildInfo` gives
-- is a parameter: the paths and versions of the dependencies, if the build has them.
use regatta_go.Prelude.{Option, none, some, List, [], ◌∷◌, ◌++◌, if◌then◌else◌}
use regatta_go.Go.{Bytes, codes, bytes_eq}

-- `instrumentationName` of rotel.go.
abbrev pub instrumentation_name : Bytes
instrumentation_name = codes "github.com/jamf/regatta-go/plugin/rotel"

-- The loop over the dependencies.
version_in : List (Bytes × Bytes) → Bytes
version_in [] = codes "unknown"
version_in ((path, version) ∷ deps) =
    if bytes_eq path instrumentation_name then version else version_in deps

unfoldable pub version : Option (List (Bytes × Bytes)) → Bytes
unfolding version_in
version none = codes "unknown"
version (some deps) = version_in deps

unfoldable pub sem_version : Option (List (Bytes × Bytes)) → Bytes
unfolding version
sem_version info = codes "semver:" ++ version info

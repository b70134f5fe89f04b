-- ===== src/Endpoint.antt =====
-- internal/endpoint/endpoint.go: what an endpoint's spelling says: the address to dial, the server's
-- name and whether certificates are needed. `url.Parse` is a parameter, the functions of strings,
-- path and net are those of Go/Strings.
pub mod Unix
pub mod Names
use regatta_go.Prelude.{
  Bool, true, false, ◌||◌, Option, none, some, List, [], ◌∷◌, ◌++◌, if◌then◌else◌,
}
use regatta_go.Go.{Go, ok, panic, ◌>>=◌, Bytes, codes, bytes_eq, has_prefix}
use regatta_go.Go.Strings.{cut, contains, base, split_host}

pub data CredsRequirement : Type 0 where
  creds_require creds_drop creds_optional : CredsRequirement

-- `Scheme`, `Host` and `Hostname()` of a `url.URL`.
pub record Url : Type 0 where
  pub scheme : Bytes
  pub host : Bytes
  pub hostname : Bytes

or_whole : Bytes → Option Bytes → Bytes
or_whole ep none = ep
or_whole ep (some host) = host

unfoldable pub extract_host_from_host_port : Bytes → Bytes
unfolding or_whole
extract_host_from_host_port ep = or_whole ep (split_host ep)

unfoldable pub extract_host_from_path : Bytes → Bytes
extract_host_from_path path = extract_host_from_host_port (base path)

two_parts : Option (Bytes × Bytes) → Go (Bytes × Bytes)
two_parts none = panic "expected to have separator"
two_parts (some (a, b)) = ok (a, b)

unfoldable pub must_split2 : Bytes → Bytes → Go (Bytes × Bytes)
unfolding two_parts
must_split2 s sep = two_parts (cut sep s)

unfoldable pub scheme_to_creds_requirement : Bytes → CredsRequirement
scheme_to_creds_requirement schema =
    if bytes_eq schema (codes "https") || bytes_eq schema (codes "unixs")
    then creds_require
    else if bytes_eq schema (codes "http")
    then creds_drop
    else creds_optional

-- An address, a server name and a requirement.
abbrev pub Translation : Type 0
Translation = Bytes × Bytes × CredsRequirement

-- The three branches for unix sockets: what to split at, and what to put before the path.
unfoldable pub unix_path : Bytes → Bytes → Bytes → Go Translation
unix_path ep sep before = do
  (schema, path) ← must_split2 ep sep
  ok (before ++ path, extract_host_from_path path, scheme_to_creds_requirement schema)

unfoldable pub of_url : Bytes → Option Url → Translation
of_url ep none = (ep, extract_host_from_host_port ep, creds_optional)
of_url ep (some u) =
    if bytes_eq u.scheme (codes "http") || bytes_eq u.scheme (codes "https")
    then (u.host, u.hostname, scheme_to_creds_requirement u.scheme)
    else (ep, u.hostname, scheme_to_creds_requirement u.scheme)

module _ (parse_url : Bytes → Option Url) where
  unfoldable pub translate_endpoint : Bytes → Go Translation
  unfolding unix_path of_url
  translate_endpoint ep =
      if has_prefix ep (codes "unix:") || has_prefix ep (codes "unixs:")
      then (if has_prefix ep (codes "unix:///") || has_prefix ep (codes "unixs:///")
          then unix_path ep (codes "://") (codes "unix://")
          else if has_prefix ep (codes "unix://") || has_prefix ep (codes "unixs://")
          then unix_path ep (codes "://") (codes "unix:")
          else unix_path ep (codes ":") (codes "unix:"))
      else if contains (codes "://") ep
      then ok (of_url ep (parse_url ep))
      else ok (ep, extract_host_from_host_port ep, creds_optional)

  unfoldable pub requires_credentials : Bytes → Go CredsRequirement
  requires_credentials ep = do (addr, name, requirement) ← translate_endpoint ep; ok requirement

  unfoldable pub interpret : Bytes → Go (Bytes × Bytes)
  interpret ep = do (addr, name, requirement) ← translate_endpoint ep; ok (addr, name)

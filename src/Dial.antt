-- ===== src/Dial.antt =====
-- client.go: dialing. The target that names the
-- client by its address is left with its authority. No code sets the token of the per-RPC
-- credentials, so there are none.
pub mod Connect
pub mod Security
pub mod Secured
use regatta_go.Prelude.{
  ℕ, zero, suc, ℤ, pos, Bool, true, false, Option, none, some, List, [], ◌∷◌, ◌++◌, map, drop,
  if◌then◌else◌,
}
use regatta_go.Go.{Go, ok, panic, ◌>>=◌, Bytes, codes, has_prefix}
use regatta_go.Go.Strings.{cut}
use regatta_go.Endpoint.{
  CredsRequirement, creds_require, creds_drop, creds_optional, Url, requires_credentials,
}
use regatta_go.Tls.{TlsConfig}
use regatta_go.Config.{Config}
use regatta_go.Client.{Client, is_positive}

-- Transport credentials: TLS by a configuration, or by none, which stands for the default one.
pub data Creds : Type 0 where
  tls : Option TlsConfig → Creds

pub data DialOpt : Type 0 where
  keepalive : ℤ → ℤ → Bool → DialOpt
  transport_credentials : Creds → DialOpt
  insecure : DialOpt
  -- the interceptors, with the retries that they are made with
  stream_interceptor : ℕ → DialOpt
  unary_interceptor : ℕ → DialOpt
  stats_handler : DialOpt
  resolvers : List Bytes → DialOpt
  user : ℕ → DialOpt

-- The credentials that `newClient` makes.
unfoldable pub creds_of : Option TlsConfig → Option Creds
creds_of none = none
creds_of (some cfg) = some (tls (some cfg))

after_scheme : Bytes → Option (Bytes × Bytes) → Bytes
after_scheme endpoint (some (scheme, rest)) = rest
after_scheme endpoint none =
    if has_prefix endpoint (codes "unix:")
    then drop 5 endpoint
    else if has_prefix endpoint (codes "unixs:")
    then drop 6 endpoint
    else endpoint

unfoldable pub authority : Bytes → Bytes
unfolding after_scheme
authority endpoint = after_scheme endpoint (cut (codes "://") endpoint)

or_default_tls : Option Creds → Creds
or_default_tls none = tls none
or_default_tls (some c) = c

unfoldable pub by_requirement : Option Creds → CredsRequirement → Option Creds
unfolding or_default_tls
by_requirement creds creds_drop = none
by_requirement creds creds_optional = creds
by_requirement creds creds_require = some (or_default_tls creds)

transport : Option Creds → DialOpt
transport none = insecure
transport (some c) = transport_credentials c

unfoldable pub dial_setup_opts : Config → Option Creds → List DialOpt → List DialOpt
unfolding transport
dial_setup_opts cfg creds dopts =
    (if is_positive cfg.dial_keep_alive_time
      then keepalive cfg.dial_keep_alive_time cfg.dial_keep_alive_timeout cfg.permit_without_stream
        ∷ []
      else [])
    ++ (dopts ++ transport creds ∷ stream_interceptor 0 ∷ unary_interceptor 10 ∷ [])

-- `s[0]` of a slice
first : List Bytes → Go Bytes
first [] = panic "index out of range [0] with length 0"
first (x ∷ xs) = ok x

module _ (parse_url : Bytes → Option Url) where
  unfoldable pub credentials_for_endpoint : Client → Bytes → Go (Option Creds)
  unfolding by_requirement creds_of
  credentials_for_endpoint c ep = do
    r ← requires_credentials parse_url ep
    ok (by_requirement (creds_of c.cfg.tls) r)

  -- The options and the authority that `dial` hands to gRPC.
  unfoldable pub dial_args : Client → Option Creds → List DialOpt → Go (Bytes × List DialOpt)
  unfolding first dial_setup_opts
  dial_args c creds dopts = do
    ep ← first c.endpoints
    ok (authority ep, dial_setup_opts c.cfg creds dopts ++ map user c.cfg.dial_options)

  -- What `Dial` and `dialWithBalancer` call `dial` with.
  unfoldable pub single_args : Client → Bytes → Go (Bytes × List DialOpt)
  unfolding credentials_for_endpoint dial_args
  single_args c ep = do
    creds ← credentials_for_endpoint c ep
    dial_args c creds (resolvers (ep ∷ []) ∷ [])

  unfoldable pub balancer_args : Client → Go (Bytes × List DialOpt)
  unfolding credentials_for_endpoint dial_args first
  balancer_args c = do
    ep ← first c.endpoints
    creds ← credentials_for_endpoint c ep
    dial_args c creds (stats_handler ∷ resolvers c.resolver_endpoints ∷ [])

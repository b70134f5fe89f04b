-- ===== src/Dial/Security.antt =====
-- client.go and internal/endpoint/endpoint.go: which transport a client dials with.
use regatta_go.Prelude.{
  ◌≡◌, refl, ap, ◌∙◌, Bool, true, false, Option, none, some, List, [], ◌∷◌, ◌++◌, map, ℕ,
  if◌then◌else◌,
}
use regatta_go.Go.{ok, Bytes, codes, has_prefix}
use regatta_go.Go.Strings.{contains}
use regatta_go.Endpoint.{
  Url, requires_credentials, translate_endpoint, of_url, scheme_to_creds_requirement,
  CredsRequirement, creds_require, creds_drop, creds_optional,
}
use regatta_go.Endpoint.Unix.{Spelling, fits, spelled, translate-spelled}
use regatta_go.Tls.{TlsConfig}
use regatta_go.Config.{Config}
use regatta_go.Client.{Client, is_positive}
use regatta_go.Dial.{
  Creds, tls, DialOpt, transport_credentials, insecure, creds_of, by_requirement,
  credentials_for_endpoint, dial_setup_opts, dial_args, balancer_args, first, transport,
  or_default_tls, authority, keepalive, stream_interceptor, unary_interceptor, stats_handler,
  resolvers, user,
}

-- The transports among some options, in order; gRPC uses the last.
abbrev pub transports : List DialOpt → List (Option Creds)
transports [] = []
transports (keepalive t o p ∷ os) = transports os
transports (transport_credentials c ∷ os) = some c ∷ transports os
transports (insecure ∷ os) = none ∷ transports os
transports (stream_interceptor n ∷ os) = transports os
transports (unary_interceptor n ∷ os) = transports os
transports (stats_handler ∷ os) = transports os
transports (resolvers es ∷ os) = transports os
transports (user n ∷ os) = transports os

-- TLS by the configuration, or by the default one.
abbrev pub encrypted : Option TlsConfig → Option Creds
encrypted cfg = some (tls cfg)

-- Without a configuration, nothing is encrypted.
abbrev pub as_configured : Option TlsConfig → Option Creds
as_configured none = none
as_configured (some cfg) = some (tls (some cfg))

transports-user : (ns : List ℕ) → transports (map user ns) ≡ []
transports-user [] = refl
transports-user (n ∷ ns) = transports-user ns

-- The transport of each requirement.
abbrev pub required : Option TlsConfig → CredsRequirement → Option Creds
required cfg creds_require = encrypted cfg
required cfg creds_drop = none
required cfg creds_optional = as_configured cfg

by_requirement-required :
    (cfg : Option TlsConfig) (r : CredsRequirement)
    → by_requirement (creds_of cfg) r ≡ required cfg r
unfolding by_requirement creds_of or_default_tls
by_requirement-required none creds_require = refl
by_requirement-required (some cfg) creds_require = refl
by_requirement-required cfg creds_drop = refl
by_requirement-required none creds_optional = refl
by_requirement-required (some cfg) creds_optional = refl

transports-setup :
    (cfg : Config) (creds : Option Creds) (es : List Bytes)
    → transports
        (dial_setup_opts cfg creds (stats_handler ∷ resolvers es ∷ []) ++ map user cfg.dial_options)
      ≡ creds ∷ []
unfolding dial_setup_opts transport
transports-setup cfg creds es = by_keepalive (is_positive cfg.dial_keep_alive_time) creds
  where
    by_keepalive :
        (b : Bool) (creds : Option Creds)
        → transports (
            ((if b
                then keepalive cfg.dial_keep_alive_time cfg.dial_keep_alive_timeout
                    cfg.permit_without_stream
                  ∷ []
                else [])
              ++ (stats_handler
                  ∷ resolvers es
                  ∷ transport creds
                  ∷ stream_interceptor 0
                  ∷ unary_interceptor 10
                  ∷ []))
            ++ map user cfg.dial_options)
          ≡ creds ∷ []
    by_keepalive true none = ap (λ l. none ∷ l) (transports-user cfg.dial_options)
    by_keepalive true (some c) = ap (λ l. some c ∷ l) (transports-user cfg.dial_options)
    by_keepalive false none = ap (λ l. none ∷ l) (transports-user cfg.dial_options)
    by_keepalive false (some c) = ap (λ l. some c ∷ l) (transports-user cfg.dial_options)

module _ (parse_url : Bytes → Option Url) where
  -- What an endpoint asks for by its scheme: certificates (`true`) or none (`false`).
  pub data Asks : Bytes → Bool → Type 0 where
    socket :
        (how : Spelling) (path : Bytes) → fits how path ≡ true → Asks (spelled true how path) true
    web :
        (ep : Bytes) (u : Url) (secure : Bool)
        → has_prefix ep (codes "unix:") ≡ false
        → has_prefix ep (codes "unixs:") ≡ false
        → contains (codes "://") ep ≡ true
        → parse_url ep ≡ some u
        → u.scheme ≡ (if secure then codes "https" else codes "http")
        → Asks ep secure

  Asks-requires :
      (ep : Bytes) (secure : Bool)
      → Asks ep secure
      → requires_credentials parse_url ep ≡ ok (if secure then creds_require else creds_drop)
  unfolding requires_credentials translate_endpoint of_url scheme_to_creds_requirement
  Asks-requires _ _ (socket how path h) = rw (translate-spelled parse_url true how path h) refl
  Asks-requires ep true (web _ u _ a b c p s) = rw (a, b, c, p, s) refl
  Asks-requires ep false (web _ u _ a b c p s) = rw (a, b, c, p, s) refl

  -- A client whose first endpoint is a URL with the scheme `https` or a socket with the scheme `unixs`
  -- dials with exactly one transport among its own options, TLS by its configuration or by the default
  -- one; if it is a URL with the scheme `http`, that one is without TLS, even if TLS is configured. What
  -- the other endpoints say does not count.
  pub balancer_args-Asks :
      (c : Client) (ep : Bytes) (eps : List Bytes) (secure : Bool)
      → c.endpoints ≡ ep ∷ eps
      → Asks ep secure
      → (target : Bytes) × (opts : List DialOpt) × (balancer_args parse_url c ≡ ok (target, opts))
        × (transports opts ≡ (if secure then encrypted c.cfg.tls else none) ∷ [])
  unfolding balancer_args credentials_for_endpoint dial_args first
  balancer_args-Asks c ep eps secure h a = (
    authority ep,
    dial_setup_opts c.cfg
          (by_requirement (creds_of c.cfg.tls) (if secure then creds_require else creds_drop))
          (stats_handler ∷ resolvers c.resolver_endpoints ∷ [])
        ++ map user c.cfg.dial_options,
    rw (h, Asks-requires ep secure a) refl,
    transports-setup c.cfg _ c.resolver_endpoints
        ∙ ap (λ o. o ∷ []) (by_requirement-required c.cfg.tls _ ∙ by_scheme secure),
  )
    where
      by_scheme :
          (secure : Bool)
          → required c.cfg.tls (if secure then creds_require else creds_drop)
            ≡ (if secure then encrypted c.cfg.tls else none)
      by_scheme true = refl
      by_scheme false = refl

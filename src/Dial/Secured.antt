-- ===== src/Dial/Secured.antt =====
-- From the options of `New` to the transport: config.go, tls.go and client.go together.
use mathlib.Core.Path.{subst}
use regatta_go.Prelude.{◌≡◌, ap, sym, ◌∙◌, Bool, true, false, Option, none, some, List, [], ◌∷◌}
use regatta_go.Go.{ok, >>=-eq_ok, ok-injective, Bytes}
use regatta_go.Endpoint.{Url}
use regatta_go.Tls.{Crypto, TlsConfig, tls12}
use regatta_go.Tls.Secure.{SecureConfig, new_tls_config}
use regatta_go.Tls.Safety.{wants_tls, Outcome, new_tls_config-Outcome}
use regatta_go.Config.{Config, configure, with_endpoints, with_secure_config}
use regatta_go.Client.{Client, made, new_client}
use regatta_go.Client.Construction.{new_client-kept}
use regatta_go.Dial.{DialOpt, balancer_args}
use regatta_go.Dial.Security.{Asks, transports, encrypted, balancer_args-Asks}

module _ (crypto : Crypto) (parse_url : Bytes → Option Url) where
  -- What secure settings give: nothing only if they ask for none, and at least TLS 1.2.
  abbrev pub Settled : SecureConfig → Option TlsConfig → Type 0
  Settled sc none = wants_tls crypto sc ≡ false
  Settled sc (some cfg) =
      (cfg.min_version ≡ some tls12)
      × (cfg.server_name ≡ sc.server_name)
      × (cfg.insecure_skip_verify ≡ sc.insecure_skip_verify)

  Outcome-Settled :
      (sc : SecureConfig) (t : Option TlsConfig) → Outcome crypto sc (ok t) → Settled sc t
  Outcome-Settled sc none (l, n) = n
  Outcome-Settled sc (some cfg) (l, w, v, s, k) = (v, s, k)

  -- The settings end up in the configuration.
  configure-secure :
      (base cfg : Config) (sc : SecureConfig) (eps : List Bytes)
      → configure base (with_endpoints eps ∷ with_secure_config crypto (some sc) ∷ []) ≡ ok cfg
      → Settled sc cfg.tls × (cfg.endpoints ≡ eps)
  unfolding configure with_endpoints with_secure_config
  configure-secure base cfg sc eps h =
      let (c, h1, h2) =
        >>=-eq_ok (with_secure_config crypto (some sc) (record base { endpoints = eps }))
          (λ c. ok c) h in
      let (t, q, r) = >>=-eq_ok (new_tls_config crypto (some sc)) _ h1 in
      let same = ok-injective _ cfg (r ∙ h2) in
      (
        subst (Settled sc) (ap (λ d. d.tls) same)
            (Outcome-Settled sc t (subst (Outcome crypto sc) q (new_tls_config-Outcome crypto sc))),
        sym (ap (λ d. d.endpoints) same),
      )

  -- Where a user gives endpoints and secure settings to `New`, the configuration is made and so is the
  -- client, and the first endpoint is a URL with the scheme `https` or a socket with `unixs`, the client
  -- dials with exactly one transport of its own, TLS: by gRPC's default only if the settings ask for no
  -- TLS, otherwise with TLS 1.2 at least, the server name of the settings, and without verification
  -- exactly if they say so.
  pub new_client-secured :
      (base cfg : Config) (sc : SecureConfig) (ep : Bytes) (eps : List Bytes)
      (dialled current : Bool) (c : Client)
      → configure base (with_endpoints (ep ∷ eps) ∷ with_secure_config crypto (some sc) ∷ [])
        ≡ ok cfg
      → new_client cfg dialled current ≡ made c
      → Asks parse_url ep true
      → (target : Bytes) × (opts : List DialOpt) × (t : Option TlsConfig) × (balancer_args parse_url
            c
          ≡ ok (target, opts))
        × (transports opts ≡ encrypted t ∷ [])
        × Settled sc t
  new_client-secured base cfg sc ep eps dialled current c h made_c asks =
      let (settled, given) = configure-secure base cfg sc (ep ∷ eps) h in
      let (same, kept) = new_client-kept cfg dialled current c made_c in
      let (target, opts, q, ts) = balancer_args-Asks parse_url c ep eps true (kept ∙ given) asks in
      (target, opts, c.cfg.tls, q, ts, subst (Settled sc) (ap (λ d. d.tls) (sym same)) settled)

-- ===== src/Tls/Safety.antt =====
-- What a TLS configuration guarantees, and when there is none.
use regatta_go.Prelude.{
  ◌≡◌, refl, ◌∙◌, sym, Bool, true, false, not, ◌&&◌, ◌||◌, Option, none, some, [], ◌∷◌,
  if◌then◌else◌, inl, inr, Bool-cases, arith,
}
use regatta_go.Go.{Go, ok, panic, is_ok, Bytes, is_empty}
use regatta_go.Go.Replies.{◌>>=◌, is_resp, Ensures, value, error, Ensures-bind, Ensures-if}
use regatta_go.Env.{Reply, resp, fail}
use regatta_go.Tls.{
  Crypto, TlsErr, tls12, TlsConfig, TlsInfo, base_config, new_cert, client_pair, peer_check_of,
  empty,
}
use regatta_go.Tls.ClientConfig.{
  client_config, start_config, roots, rooted_config, checked_config, after_check, check_empty_cn,
}
use regatta_go.Tls.Secure.{
  SecureConfig, names_tls, info_of, new_tls_config, loaded, finished, or_modern, skipping,
}

module _ (crypto : Crypto) where
  -- What every configuration keeps of the information it is made from.
  abbrev Sound : TlsInfo → TlsConfig → Type 0
  Sound info cfg = (cfg.min_version ≡ some tls12) × (cfg.server_name ≡ info.server_name)

  base_config-Sound : (info : TlsInfo) → Ensures (Sound info) (base_config crypto info)
  unfolding base_config
  base_config-Sound info = Ensures-if _ error (
      Ensures-bind (new_cert crypto info.cert_file info.key_file info.parse_func) λ pair.
        Ensures-if _
          (Ensures-bind (client_pair crypto info)
            λ u. Ensures-bind (peer_check_of info) λ c. value (refl, refl))
          error)

  start_config-Sound : (info : TlsInfo) → Ensures (Sound info) (start_config crypto info)
  unfolding start_config
  start_config-Sound info = Ensures-if (empty info) (value (refl, refl)) (base_config-Sound info)

  abbrev Safe : TlsInfo → TlsConfig → Type 0
  Safe info cfg =
      (cfg.min_version ≡ some tls12)
      × (cfg.server_name ≡ info.server_name)
      × (cfg.insecure_skip_verify ≡ (info.insecure_skip_verify || info.self_cert))

  with_roots :
      (info : TlsInfo) (m : Reply TlsErr TlsConfig)
      → Ensures (Sound info) m
      → Ensures (Safe info) (
          m >>= λ cfg. roots crypto info >>= λ pool. resp (record cfg {
            insecure_skip_verify = info.insecure_skip_verify || info.self_cert;
            root_cas = pool;
          }))
  with_roots info (resp cfg) (value s) =
      Ensures-bind (roots crypto info) λ pool. value (s.0, s.1, refl)
  with_roots info (fail e) s = error

  rooted_config-Safe : (info : TlsInfo) → Ensures (Safe info) (rooted_config crypto info)
  unfolding rooted_config
  rooted_config-Safe info = with_roots info (start_config crypto info) (start_config-Sound info)

  -- Without `EmptyCN` the configuration is the one before that check.
  client_config-rooted :
      (info : TlsInfo)
      → info.empty_cn ≡ false
      → client_config crypto info ≡ ok (rooted_config crypto info)
  unfolding client_config checked_config check_empty_cn after_check
  client_config-rooted info h = by_config (rooted_config crypto info)
    where
      by_config : (m : Reply TlsErr TlsConfig) → checked_config crypto info m ≡ ok m
      by_config (fail e) = refl
      by_config (resp cfg) = rw h refl

  -- Whether the files that are named make a configuration.
  abbrev pub loads : SecureConfig → Bool
  loads sc = not (names_tls sc) || is_resp (rooted_config crypto (info_of sc))

  -- Whether the settings ask for TLS.
  abbrev pub wants_tls : SecureConfig → Bool
  wants_tls sc = names_tls sc || (not sc.insecure_transport || sc.insecure_skip_verify)

  -- What the settings give: a panic, no TLS, or a configuration.
  abbrev pub Outcome : SecureConfig → Go (Option TlsConfig) → Type 0
  Outcome sc (panic m) = loads sc ≡ false
  Outcome sc (ok none) = (loads sc ≡ true) × (wants_tls sc ≡ false)
  Outcome sc (ok (some cfg)) =
      (loads sc ≡ true)
      × (wants_tls sc ≡ true)
      × (cfg.min_version ≡ some tls12)
      × (cfg.server_name ≡ sc.server_name)
      × (cfg.insecure_skip_verify ≡ sc.insecure_skip_verify)

  -- The same before the defaults, where nothing is skipped.
  abbrev Loaded : SecureConfig → Go (Option TlsConfig) → Type 0
  Loaded sc (panic m) = loads sc ≡ false
  Loaded sc (ok none) = (loads sc ≡ true) × (names_tls sc ≡ false) × (sc.server_name ≡ [])
  Loaded sc (ok (some cfg)) =
      (loads sc ≡ true)
      × (names_tls sc ≡ true)
      × (cfg.min_version ≡ some tls12)
      × (cfg.server_name ≡ sc.server_name)
      × (cfg.insecure_skip_verify ≡ false)

  loaded-Loaded :
      (sc : SecureConfig) (m : Reply TlsErr TlsConfig)
      → rooted_config crypto (info_of sc) ≡ m
      → Ensures (Safe (info_of sc)) m
      → names_tls sc ≡ true
      → Loaded sc (loaded crypto (ok m))
  unfolding loaded
  loaded-Loaded sc (fail e) h s n = rw (n, h) refl
  loaded-Loaded sc (resp cfg) h (value s) n = (rw (n, h) refl, n, s.0, s.1, s.2)

  is_empty-nil : (b : Bytes) → is_empty b ≡ true → b ≡ []
  is_empty-nil [] h = refl
  is_empty-nil (x ∷ b) h = cc

  unnamed : (sc : SecureConfig) → names_tls sc ≡ false → sc.server_name ≡ []
  unnamed sc h = is_empty-nil sc.server_name (ground arith)

  start-Loaded :
      (sc : SecureConfig)
      → Loaded sc
          (if names_tls sc then loaded crypto (client_config crypto (info_of sc)) else ok none)
  start-Loaded sc = elim (Bool-cases (names_tls sc)) [
    | inl n ↦
        rw (n, client_config-rooted (info_of sc) refl)
          (loaded-Loaded sc (rooted_config crypto (info_of sc)) refl
            (rooted_config-Safe (info_of sc)) n)
    | inr n ↦ rw n (rw n refl, n, unnamed sc n)
  ]

  finished-Outcome :
      (sc : SecureConfig) (g : Go (Option TlsConfig))
      → Loaded sc g
      → Outcome sc (finished crypto sc g)
  unfolding finished or_modern skipping
  finished-Outcome sc (panic m) l = l
  finished-Outcome sc (ok none) (l, n, s) =
      by_flags sc.insecure_skip_verify sc.insecure_transport refl refl
    where
      by_flags :
          (k t : Bool)
          → sc.insecure_skip_verify ≡ k
          → sc.insecure_transport ≡ t
          → Outcome sc (
              ok (
                let cfg = or_modern crypto t none in if k then some (skipping crypto cfg) else cfg))
      by_flags true true e f = (l, ground arith, refl, sym s, sym e)
      by_flags true false e f = (l, ground arith, refl, sym s, sym e)
      by_flags false true e f = (l, ground arith)
      by_flags false false e f = (l, ground arith, refl, sym s, sym e)
  finished-Outcome sc (ok (some cfg)) (l, n, v, s, k) = by_flag sc.insecure_skip_verify refl
    where
      by_flag :
          (k : Bool)
          → sc.insecure_skip_verify ≡ k
          → Outcome sc (ok (if k then some (skipping crypto (some cfg)) else some cfg))
      by_flag true e = (l, ground arith, v, s, sym e)
      by_flag false e = (l, ground arith, v, s, k ∙ sym e)

  -- `newTLSConfig` panics exactly when files, or a server name, are given and make no configuration.
  -- Otherwise there is a configuration exactly when the settings name a file or a server, want a
  -- secure transport or skip the verification; it keeps the server name, allows no version below TLS
  -- 1.2, and skips the verification exactly if that is asked for.
  pub new_tls_config-Outcome : (sc : SecureConfig) → Outcome sc (new_tls_config crypto (some sc))
  unfolding new_tls_config
  new_tls_config-Outcome sc = finished-Outcome sc _ (start-Loaded sc)

  Outcome-loads :
      (sc : SecureConfig) (g : Go (Option TlsConfig)) → Outcome sc g → is_ok g ≡ loads sc
  Outcome-loads sc (panic m) o = sym o
  Outcome-loads sc (ok none) o = sym o.0
  Outcome-loads sc (ok (some cfg)) o = sym o.0

  base_config-half :
      (info : TlsInfo)
      → (is_empty info.key_file || is_empty info.cert_file) ≡ true
      → is_resp (base_config crypto info) ≡ false
  unfolding base_config
  base_config-half info h = rw h refl

  start_config-half :
      (info : TlsInfo)
      → is_empty info.cert_file ≡ not (is_empty info.key_file)
      → is_resp (start_config crypto info) ≡ false
  unfolding start_config empty
  start_config-half info h =
      rw (not_empty (is_empty info.cert_file) (is_empty info.key_file) h)
        (base_config-half info (one_empty (is_empty info.cert_file) (is_empty info.key_file) h))
    where
      not_empty : (c k : Bool) → c ≡ not k → (c && k) ≡ false
      not_empty c k e = ground arith

      one_empty : (c k : Bool) → c ≡ not k → (k || c) ≡ true
      one_empty c k e = ground arith

  is_resp-bind :
      {E A B : Type 0} (m : Reply E A) (f : A → Reply E B)
      → is_resp m ≡ false
      → is_resp (m >>= f) ≡ false
  is_resp-bind (resp a) f h = cc
  is_resp-bind (fail e) f h = refl

  -- A certificate without a key, or a key without a certificate, makes it panic.
  pub new_tls_config-half :
      (sc : SecureConfig)
      → is_empty sc.cert ≡ not (is_empty sc.key)
      → is_ok (new_tls_config crypto (some sc)) ≡ false
  unfolding rooted_config
  new_tls_config-half sc h =
      Outcome-loads sc _ (new_tls_config-Outcome sc)
      ∙ both_false (not (names_tls sc)) (is_resp (rooted_config crypto (info_of sc)))
          (named (is_empty sc.cert) (is_empty sc.key) (not (is_empty sc.cacert))
            (not (is_empty sc.server_name)) h)
          (is_resp-bind (start_config crypto (info_of sc)) _ (start_config-half (info_of sc) h))
    where
      named : (c k r s : Bool) → c ≡ not k → not (not c || not k || r || s) ≡ false
      named c k r s e = ground arith

      both_false : (a b : Bool) → a ≡ false → b ≡ false → (a || b) ≡ false
      both_false a b p q = ground arith

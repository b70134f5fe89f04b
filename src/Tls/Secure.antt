-- ===== src/Tls/Secure.antt =====
-- `newTLSConfig` of config.go: a user's secure settings as a TLS configuration. It panics where the
-- named files do not make one.
use regatta_go.Prelude.{Bool, true, not, ◌||◌, Option, none, some, if◌then◌else◌}
use regatta_go.Go.{Go, ok, panic, Bytes, is_empty}
use regatta_go.Env.{Reply, resp, fail}
use regatta_go.Tls.{Crypto, TlsErr, tls12, tls13, TlsConfig, zero_config, TlsInfo, zero_info}
use regatta_go.Tls.ClientConfig.{client_config}

pub record SecureConfig : Type 0 where
  pub cert : Bytes
  pub key : Bytes
  pub cacert : Bytes
  pub server_name : Bytes
  pub insecure_transport : Bool
  pub insecure_skip_verify : Bool

-- The first test of `newTLSConfig`.
abbrev pub names_tls : SecureConfig → Bool
names_tls sc =
    not (is_empty sc.cert)
    || not (is_empty sc.key)
    || not (is_empty sc.cacert)
    || not (is_empty sc.server_name)

abbrev pub info_of : SecureConfig → TlsInfo
info_of sc = record zero_info {
  cert_file = sc.cert;
  key_file = sc.key;
  trusted_ca_file = sc.cacert;
  server_name = sc.server_name;
}

abbrev pub modern_config : TlsConfig
modern_config = record zero_config { min_version = some tls12; max_version = some tls13 }

module _ (crypto : Crypto) where
  unfoldable pub loaded : Go (Reply TlsErr TlsConfig) → Go (Option TlsConfig)
  loaded (panic m) = panic m
  loaded (ok (fail e)) = panic "TLS configuration"
  loaded (ok (resp cfg)) = ok (some cfg)

  -- The two defaults behind the loaded configuration.
  unfoldable pub or_modern : Bool → Option TlsConfig → Option TlsConfig
  or_modern insecure_transport none = if insecure_transport then none else some modern_config
  or_modern insecure_transport (some cfg) = some cfg

  unfoldable pub skipping : Option TlsConfig → TlsConfig
  skipping none = record modern_config { insecure_skip_verify = true }
  skipping (some cfg) = record cfg { insecure_skip_verify = true }

  unfoldable pub finished : SecureConfig → Go (Option TlsConfig) → Go (Option TlsConfig)
  unfolding or_modern skipping
  finished sc (panic m) = panic m
  finished sc (ok cfg) =
      let cfg' = or_modern sc.insecure_transport cfg in
      ok (if sc.insecure_skip_verify then some (skipping cfg') else cfg')

  unfoldable pub new_tls_config : Option SecureConfig → Go (Option TlsConfig)
  unfolding finished loaded
  new_tls_config none = ok none
  new_tls_config (some sc) =
      finished sc (if names_tls sc then loaded (client_config crypto (info_of sc)) else ok none)

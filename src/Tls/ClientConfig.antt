-- ===== src/Tls/ClientConfig.antt =====
-- tls.go: `ClientConfig`.
use regatta_go.Prelude.{not, ◌||◌, Option, none, some, List, if◌then◌else◌}
use regatta_go.Go.{Go, ok, panic, Bytes, is_empty}
use regatta_go.Go.Replies.{◌>>=◌}
use regatta_go.Env.{Reply, resp, fail}
use regatta_go.Tls.{
  Crypto, TlsErr, bad_certificate, bad_pair, non_empty_common_name, tls12, tls13, TlsConfig,
  zero_config, TlsInfo, empty, cafiles, base_config, new_cert_pool, or_unreadable,
}

module _ (crypto : Crypto) where
  open crypto use {read_file, x509_key_pair, pem_decode, parse_certificate, common_name}

  -- `EmptyCN`: the pair is loaded with a parse function that looks at the certificate in the first
  -- block. A text with no block is a nil pointer.
  parse_empty_cn : Bytes → Bytes → Option (Bytes × Bytes) → Go (Reply TlsErr (Unit {0}))
  parse_empty_cn cert key none = panic "invalid memory address or nil pointer dereference"
  parse_empty_cn cert key (some (block, rest)) = ok (
      if not (parse_certificate block)
      then fail bad_certificate
      else if not (x509_key_pair cert key)
      then fail bad_pair
      else if not (is_empty (common_name block))
      then fail non_empty_common_name
      else resp tt)

  read_empty_cn : Reply TlsErr Bytes → Reply TlsErr Bytes → Go (Reply TlsErr (Unit {0}))
  unfolding parse_empty_cn
  read_empty_cn (fail e) key = ok (fail e)
  read_empty_cn (resp cert) (fail e) = ok (fail e)
  read_empty_cn (resp cert) (resp key) = parse_empty_cn cert key (pem_decode cert)

  unfoldable pub check_empty_cn : TlsInfo → Go (Reply TlsErr (Unit {0}))
  unfolding read_empty_cn or_unreadable
  check_empty_cn info =
      if info.empty_cn
      then read_empty_cn (or_unreadable crypto (read_file info.cert_file))
          (or_unreadable crypto (read_file info.key_file))
      else ok (resp tt)

  unfoldable pub start_config : TlsInfo → Reply TlsErr TlsConfig
  start_config info =
      if empty info
      then resp (record zero_config {
        server_name = info.server_name;
        min_version = some tls12;
        max_version = some tls13;
      })
      else base_config crypto info

  unfoldable pub roots : TlsInfo → Reply TlsErr (Option (List Bytes))
  roots info =
      if is_empty (cafiles info)
      then resp none
      else (do pool ← new_cert_pool crypto (cafiles info); resp (some pool))

  -- The configuration before the check of `EmptyCN`.
  unfoldable pub rooted_config : TlsInfo → Reply TlsErr TlsConfig
  unfolding start_config roots empty cafiles
  rooted_config info = do
    cfg ← start_config info
    pool ← roots info
    resp (record cfg {
      insecure_skip_verify = info.insecure_skip_verify || info.self_cert;
      root_cas = pool;
    })

  unfoldable pub after_check :
      TlsConfig → Go (Reply TlsErr (Unit {0})) → Go (Reply TlsErr TlsConfig)
  after_check cfg (panic m) = panic m
  after_check cfg (ok (fail e)) = ok (fail e)
  after_check cfg (ok (resp u)) = ok (resp cfg)

  unfoldable pub checked_config : TlsInfo → Reply TlsErr TlsConfig → Go (Reply TlsErr TlsConfig)
  unfolding after_check
  checked_config info (fail e) = ok (fail e)
  checked_config info (resp cfg) = after_check cfg (check_empty_cn info)

  -- `ClientConfig`
  unfoldable pub client_config : TlsInfo → Go (Reply TlsErr TlsConfig)
  unfolding checked_config
  client_config info = checked_config info (rooted_config info)

-- ===== src/Config.antt =====
-- config.go: the configuration of a client and its options. A duration is in nanoseconds. A dial
-- option, a context and a logger of the caller's are opaque values, known by a number.
use regatta_go.Prelude.{ℕ, ℤ, pos, Bool, false, Option, none, List, [], ◌∷◌}
use regatta_go.Go.{Go, ok, ◌>>=◌, Bytes}
use regatta_go.Hooks.{Hook, Hooks, nil, hooks_of}
use regatta_go.Tls.{Crypto, TlsConfig}
use regatta_go.Tls.Secure.{SecureConfig, new_tls_config}

pub record Config : Type 0 where
  pub endpoints : List Bytes
  pub auto_sync_interval : ℤ
  pub dial_keep_alive_time : ℤ
  pub dial_keep_alive_timeout : ℤ
  pub initial_connection_timeout : ℤ
  pub max_call_send_msg_size : ℤ
  pub max_call_recv_msg_size : ℤ
  pub tls : Option TlsConfig
  pub dial_options : List ℕ
  pub context : Option ℕ
  pub logger : Option ℕ
  pub permit_without_stream : Bool
  pub reject_old_cluster : Bool
  pub hooks : Hooks

-- `&config{}`
abbrev pub zero_config : Config
zero_config = record {
  endpoints = [];
  auto_sync_interval = pos 0;
  dial_keep_alive_time = pos 0;
  dial_keep_alive_timeout = pos 0;
  initial_connection_timeout = pos 0;
  max_call_send_msg_size = pos 0;
  max_call_recv_msg_size = pos 0;
  tls = none;
  dial_options = [];
  context = none;
  logger = none;
  permit_without_stream = false;
  reject_old_cluster = false;
  hooks = nil;
}

-- The type `Option`: a setter, which may panic.
abbrev pub ConfigOption : Type 0
ConfigOption = Config → Go Config

unfoldable pub with_dial_options : List ℕ → ConfigOption
with_dial_options opts c = ok (record c { dial_options = opts })

unfoldable pub with_endpoints : List Bytes → ConfigOption
with_endpoints endpoints c = ok (record c { endpoints = endpoints })

unfoldable pub with_dial_timeout : ℤ → ConfigOption
with_dial_timeout t c = ok (record c { initial_connection_timeout = t })

unfoldable pub with_initial_connection_timeout : ℤ → ConfigOption
with_initial_connection_timeout t c = ok (record c { initial_connection_timeout = t })

unfoldable pub with_keepalive : ℤ → ℤ → ConfigOption
with_keepalive time timeout c =
    ok (record c { dial_keep_alive_time = time; dial_keep_alive_timeout = timeout })

unfoldable pub with_auto_sync_interval : ℤ → ConfigOption
with_auto_sync_interval interval c = ok (record c { auto_sync_interval = interval })

unfoldable pub with_logger : Option ℕ → ConfigOption
with_logger logger c = ok (record c { logger = logger })

unfoldable pub with_hooks : List Hook → ConfigOption
with_hooks hooks c = ok (record c { hooks = hooks_of hooks })

unfoldable pub with_secure_config : Crypto → Option SecureConfig → ConfigOption
with_secure_config crypto sc c = do cfg ← new_tls_config crypto sc; ok (record c { tls = cfg })

unfoldable pub with_max_call_recv_msg_size : ℤ → ConfigOption
with_max_call_recv_msg_size max c = ok (record c { max_call_recv_msg_size = max })

unfoldable pub with_max_call_send_msg_size : ℤ → ConfigOption
with_max_call_send_msg_size max c = ok (record c { max_call_send_msg_size = max })

unfoldable pub with_reject_old_cluster : Bool → ConfigOption
with_reject_old_cluster roc c = ok (record c { reject_old_cluster = roc })

-- The loop of `New`, `NewFromURL` and `NewFromURLs`.
unfoldable pub configure : Config → List ConfigOption → Go Config
configure c [] = ok c
configure c (opt ∷ opts) = do c' ← opt c; configure c' opts

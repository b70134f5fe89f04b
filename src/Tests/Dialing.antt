-- ===== src/Tests/Dialing.antt =====
-- Endpoints, TLS, dialing and the resolver at concrete inputs.
use regatta_go.Prelude.{
  ℕ, ◌≡◌, refl, ap, ◌<◌, true, false, Option, none, some, List, [], ◌∷◌, ◌++◌, length, arith,
}
use regatta_go.Go.{ok, Bytes, codes}
use regatta_go.Env.{Reply, resp}
use regatta_go.Endpoint.{Url, translate_endpoint}
use regatta_go.Endpoint.Names.{ported}
use regatta_go.Endpoint.Unix.{short, spelled, address, requirement, translate_endpoint-unix}
use regatta_go.Tls.{tls12, tls13, TlsConfig, Crypto, new_cert_pool}
use regatta_go.Tls.Secure.{SecureConfig, new_tls_config}
use regatta_go.Tls.Safety.{Outcome, new_tls_config-Outcome}
use regatta_go.Tls
use regatta_go.Tls.ClientConfig
use regatta_go.Config.{Config, zero_config, configure, with_endpoints, with_secure_config}
use regatta_go.Dial.Secured.{Settled, new_client-secured}
use regatta_go.Client.{
  Client, made, new_client, default_call_opts, with_call_opts, with_hooks, choose_call_opts,
}
use regatta_go.Hooks.{process_hooks, get_hooks}
use regatta_go.Dial.{DialOpt, balancer_args}
use regatta_go.Dial.Security.{socket, transports, encrypted, balancer_args-Asks}
use regatta_go.Proto.Admin.{Member}
use regatta_go.Client.Told as Told
use regatta_go.Client.Told.{
  Held, held_new, held_events, synced, InStep, last_given, held_events-told,
}
use regatta_go.Resolver.{State, Manual, Resolver, new}
use regatta_go.Resolver.Agreement.{Agrees, built, endpoints_set, run_events, run_events-synced}

abbrev no_urls : Bytes → Option Url
no_urls ep = none

translate_endpoint-unix_example :
    translate_endpoint no_urls
      (spelled true short (codes "/run" ++ b'/' ∷ ported (codes "db") (some (codes "1"))))
    ≡ ok (
      address short (codes "/run" ++ b'/' ∷ ported (codes "db") (some (codes "1"))),
      codes "db",
      requirement true,
    )
translate_endpoint-unix_example =
    translate_endpoint-unix no_urls true short (codes "/run") (codes "db") (some (codes "1")) refl
      refl (refl, refl, refl, refl) (refl, refl, refl, refl)

-- A text is its own file and a row of certificates of one byte.
abbrev blocks : Bytes → Option (Bytes × Bytes)
blocks [] = none
blocks (x ∷ xs) = some (x ∷ [], xs)

abbrev crypto : Crypto
crypto = record {
  read_file = λ file. some file;
  x509_key_pair = λ cert key. true;
  pem_decode = blocks;
  parse_certificate = λ block. true;
  common_name = λ block. [];
}

abbrev secure : SecureConfig
secure = record {
  cert = codes "c";
  key = codes "k";
  cacert = codes "ab";
  server_name = codes "host";
  insecure_transport = false;
  insecure_skip_verify = true;
}

new_tls_config-Outcome_example : Outcome crypto secure (new_tls_config crypto (some secure))
new_tls_config-Outcome_example = new_tls_config-Outcome crypto secure

abbrev after : Bytes → Option (Bytes × Bytes) → Bytes
after d none = d
after d (some (block, rest)) = rest

blocks-shorter :
    (text block rest : Bytes) → blocks text ≡ some (block, rest) → length rest < length text
blocks-shorter [] block rest h = cc
blocks-shorter (x ∷ xs) block rest h = omega (arith, ap length (ap (after xs) h))

abbrev endpoints : List Bytes
endpoints = spelled true short (codes "run/db") ∷ codes "other" ∷ []

abbrev client : Client
client = record {
  cfg = record zero_config { endpoints = endpoints };
  endpoints = endpoints;
  resolver_endpoints = endpoints;
  call_opts = [];
  told = [];
  kv_hooks = [];
}

balancer_args-Asks_example :
    (target : Bytes) × (opts : List DialOpt) × (balancer_args no_urls client ≡ ok (target, opts))
    × (transports opts ≡ encrypted none ∷ [])
balancer_args-Asks_example =
    balancer_args-Asks no_urls client (spelled true short (codes "run/db")) (codes "other" ∷ [])
      true refl (socket short (codes "run/db") refl)

abbrev named : SecureConfig
named = record {
  cert = [];
  key = [];
  cacert = codes "ab";
  server_name = codes "host";
  insecure_transport = true;
  insecure_skip_verify = false;
}

abbrev config : Config
config = record zero_config {
  endpoints = endpoints;
  tls = some (record Tls.zero_config {
    server_name = codes "host";
    min_version = some tls12;
    max_version = some tls13;
    root_cas = some (codes "a" ∷ codes "b" ∷ []);
  });
}

configure-named :
    configure zero_config (with_endpoints endpoints ∷ with_secure_config crypto (some named) ∷ [])
    ≡ ok config
unfolding configure with_endpoints with_secure_config new_tls_config ClientConfig.client_config
    ClientConfig.rooted_config new_cert_pool ClientConfig.check_empty_cn
configure-named = refl

abbrev made_client : Client
made_client = record {
  cfg = config;
  endpoints = endpoints;
  resolver_endpoints = endpoints;
  call_opts = default_call_opts;
  told = [];
  kv_hooks = [];
}

new_client_config : new_client config true true ≡ made made_client
unfolding new_client with_call_opts choose_call_opts with_hooks process_hooks get_hooks
new_client_config = refl

new_client-secured_example :
    (target : Bytes) × (opts : List DialOpt) × (t : Option TlsConfig) × (balancer_args no_urls
        made_client
      ≡ ok (target, opts))
    × (transports opts ≡ encrypted t ∷ [])
    × Settled crypto no_urls named t
new_client-secured_example =
    new_client-secured crypto no_urls zero_config config named (spelled true short (codes "run/db"))
      (codes "other" ∷ []) true true made_client configure-named new_client_config
      (socket short (codes "run/db") refl)

-- A manual resolver is the connection that it has; gRPC remembers the connection that it built and what
-- it was told last.
abbrev Known : Type 0
Known = Option ℕ × Option (State ℕ)

abbrev manual : Manual
manual = record {
  World = Known;
  Err = ℕ;
  Inner = Option ℕ;
  Conn = ℕ;
  ServiceConfig = ℕ;
  parse_service_config = λ conn text. 1;
  config_err = λ sc. none;
  cc = λ inner. inner;
  build = λ inner conn w. (resp (some conn), (some conn, w.1));
  update_state = λ inner s w. (w.0, some s);
}

attaches :
    (inner : Option ℕ) (conn : ℕ) (w : Known) (inner' : Option ℕ) (w' : Known)
    → ◌≡◌ {A = Reply ℕ (Option ℕ) × Known} (resp (some conn), (some conn, w.1)) (resp inner', w')
    → (inner' ≡ some conn) × (w'.0 ≡ some conn)
attaches inner conn w inner' w' h = (cc, cc)

run_events-synced_example :
    (r : Resolver manual) × (w : Known) × (run_events manual no_urls
        (λ w. w.1)
        (λ w. w.0)
        (new manual none (codes "a" ∷ []))
        (built 7 ∷ endpoints_set (codes "b" ∷ codes "c" ∷ []) ∷ [])
        (none, none)
      ≡ (ok r, w))
    × Agrees manual no_urls (λ w. w.1) (λ w. w.0) r w
    × (r.endpoints ≡ codes "b" ∷ codes "c" ∷ [])
run_events-synced_example =
    run_events-synced manual no_urls (λ w. w.1) (λ w. w.0) (λ inner s w. (refl, refl)) attaches
      (λ inner conn w e w' h. cc) none (codes "a" ∷ [])
      (built 7 ∷ endpoints_set (codes "b" ∷ codes "c" ∷ []) ∷ []) (none, none) refl refl

abbrev members : List Member
members =
    record { id = codes "1"; name = []; peer_urls = []; client_urls = codes "x" ∷ [] }
    ∷ record {
      id = codes "2";
      name = codes "n";
      peer_urls = [];
      client_urls = codes "b" ∷ codes "c" ∷ [];
    }
    ∷ []

-- The endpoints of the member with a name are those that a listing gives.
held_events-told_example :
    (c : Held manual no_urls) × (w : Known) × (held_events manual no_urls
        (held_new manual no_urls none (codes "a" ∷ []))
        (Told.built 7 ∷ synced none ∷ synced (some members) ∷ [])
        (none, none)
      ≡ (ok c, w))
    × InStep manual no_urls (λ w. w.1) (λ w. w.0) c w
    × (c.endpoints ≡ codes "b" ∷ codes "c" ∷ [])
held_events-told_example =
    held_events-told manual no_urls (λ w. w.1) (λ w. w.0) (λ inner s w. (refl, refl)) attaches
      (λ inner conn w e w' h. cc) none (codes "a" ∷ [])
      (Told.built 7 ∷ synced none ∷ synced (some members) ∷ []) (none, none) refl refl

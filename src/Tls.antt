-- ===== src/Tls.antt =====
-- tls.go: the TLS configuration of a client. Files, X.509 and PEM are
-- the parameter `Crypto`; a certificate is known by the bytes that it was parsed from. What the code
-- logs is left out.
pub mod Pool
pub mod ClientConfig
pub mod Secure
pub mod Safety
use regatta_go.Prelude.{
  ℕ, zero, suc, ◌+◌, Bool, true, false, not, ◌&&◌, ◌||◌, Option, none, some, List, [], ◌∷◌, ◌++◌,
  length, if◌then◌else◌,
}
use regatta_go.Go.{Go, ok, panic, Bytes, bytes_eq, is_empty, is_set}
use regatta_go.Env.{Reply, resp, fail}
use regatta_go.Go.Replies.{◌>>=◌}

pub record Crypto : Type 0 where
  -- `os.ReadFile`
  pub read_file : Bytes → Option Bytes
  -- `tls.X509KeyPair`: whether the two texts are a pair
  pub x509_key_pair : Bytes → Bytes → Bool
  -- `pem.Decode`: the bytes of the next block, and the rest of the text
  pub pem_decode : Bytes → Option (Bytes × Bytes)
  -- `x509.ParseCertificate`: whether the bytes are a certificate
  pub parse_certificate : Bytes → Bool
  -- `Subject.CommonName` of a certificate
  pub common_name : Bytes → Bytes

-- `out_of_fuel` is not an error of the code.
pub data TlsErr : Type 0 where
  pair_incomplete client_pair_incomplete : TlsErr
  unreadable bad_pair bad_certificate : TlsErr
  exclusive non_empty_common_name out_of_fuel : TlsErr

pub data TlsVersion : Type 0 where
  tls12 tls13 : TlsVersion

-- How a peer's certificate is checked on top of the verification of its chain.
pub data PeerCheck : Type 0 where
  any_peer : PeerCheck
  by_common_name : Bytes → PeerCheck
  by_hostname : Bytes → PeerCheck

-- The fields of `tls.Config` that are set. The two functions that load a certificate on demand are
-- the files that they load; a version that is not set is `none`.
pub record TlsConfig : Type 0 where
  pub min_version : Option TlsVersion
  pub max_version : Option TlsVersion
  pub server_name : Bytes
  pub insecure_skip_verify : Bool
  pub root_cas : Option (List Bytes)
  pub cipher_suites : List ℕ
  pub peer_check : PeerCheck
  pub get_certificate : Option (Bytes × Bytes)
  pub get_client_certificate : Option (Bytes × Bytes)

abbrev pub zero_config : TlsConfig
zero_config = record {
  min_version = none;
  max_version = none;
  server_name = [];
  insecure_skip_verify = false;
  root_cas = none;
  cipher_suites = [];
  peer_check = any_peer;
  get_certificate = none;
  get_client_certificate = none;
}

-- The fields of `TLSInfo` that the client's side reads.
pub record TlsInfo : Type 0 where
  pub cert_file : Bytes
  pub key_file : Bytes
  pub client_cert_file : Bytes
  pub client_key_file : Bytes
  pub trusted_ca_file : Bytes
  pub insecure_skip_verify : Bool
  pub server_name : Bytes
  pub cipher_suites : List ℕ
  pub self_cert : Bool
  pub parse_func : Option (Bytes → Bytes → Bool)
  pub allowed_cn : Bytes
  pub allowed_hostname : Bytes
  pub empty_cn : Bool

abbrev pub zero_info : TlsInfo
zero_info = record {
  cert_file = [];
  key_file = [];
  client_cert_file = [];
  client_key_file = [];
  trusted_ca_file = [];
  insecure_skip_verify = false;
  server_name = [];
  cipher_suites = [];
  self_cert = false;
  parse_func = none;
  allowed_cn = [];
  allowed_hostname = [];
  empty_cn = false;
}

unfoldable pub empty : TlsInfo → Bool
empty info = is_empty info.cert_file && is_empty info.key_file

unfoldable pub cafiles : TlsInfo → List Bytes
cafiles info = if is_empty info.trusted_ca_file then [] else info.trusted_ca_file ∷ []

-- The check that `AllowedCN` or `AllowedHostname` asks for.
unfoldable pub peer_check_of : TlsInfo → Reply TlsErr PeerCheck
peer_check_of info =
    if is_empty info.allowed_cn
    then resp
        (if is_empty info.allowed_hostname then any_peer else by_hostname info.allowed_hostname)
    else if is_empty info.allowed_hostname
    then resp (by_common_name info.allowed_cn)
    else fail exclusive

-- The files that a client certificate is loaded from.
unfoldable pub client_files : TlsInfo → Bytes × Bytes
client_files info =
    if is_empty info.client_cert_file
    then (info.cert_file, info.key_file)
    else (info.client_cert_file, info.client_key_file)

module _ (crypto : Crypto) where
  open crypto use {read_file, x509_key_pair, pem_decode, parse_certificate, common_name}

  unfoldable pub or_unreadable : Option Bytes → Reply TlsErr Bytes
  or_unreadable none = fail unreadable
  or_unreadable (some text) = resp text

  or_default : Option (Bytes → Bytes → Bool) → Bytes → Bytes → Bool
  or_default none = x509_key_pair
  or_default (some f) = f

  -- `newCert`; the certificate is the pair of texts.
  unfoldable pub new_cert :
      Bytes → Bytes → Option (Bytes → Bytes → Bool) → Reply TlsErr (Bytes × Bytes)
  unfolding or_unreadable or_default
  new_cert certfile keyfile parse_func = do
    cert ← or_unreadable (read_file certfile)
    key ← or_unreadable (read_file keyfile)
    if or_default parse_func cert key then resp (cert, key) else fail bad_pair

  -- The prevalidation of the client's own pair.
  client_pair : TlsInfo → Reply TlsErr (Unit {0})
  client_pair info =
      if is_empty info.client_cert_file
      then resp tt
      else (do pair ← new_cert info.client_cert_file info.client_key_file info.parse_func; resp tt)

  unfoldable pub base_config : TlsInfo → Reply TlsErr TlsConfig
  unfolding client_pair
  base_config info =
      if is_empty info.key_file || is_empty info.cert_file then fail pair_incomplete else (do
        pair ← new_cert info.cert_file info.key_file info.parse_func
        if is_empty info.client_key_file && is_empty info.client_cert_file
              || not (is_empty info.client_key_file) && not (is_empty info.client_cert_file)
            then (do
              checked ← client_pair info
              check ← peer_check_of info
              resp (record zero_config {
                min_version = some tls12;
                server_name = info.server_name;
                cipher_suites = info.cipher_suites;
                peer_check = check;
                get_certificate = some (info.cert_file, info.key_file);
                get_client_certificate = some (client_files info);
              }))
            else fail client_pair_incomplete)

  -- The inner `for` loop of `newCertPool`.
  unfoldable pub add_certs : ℕ → Bytes → List Bytes → Reply TlsErr (List Bytes)
  add_certs zero text pool = fail out_of_fuel
  add_certs (suc n) text pool = elim (pem_decode text) [
    | none ↦ resp pool
    | some (block, rest) ↦ elim (parse_certificate block) [
      | true ↦ add_certs n rest (pool ++ block ∷ [])
      | false ↦ fail bad_certificate
    ]
  ]

  -- The loop over the files.
  unfoldable pub add_files : List Bytes → List Bytes → Reply TlsErr (List Bytes)
  unfolding or_unreadable add_certs
  add_files [] pool = resp pool
  add_files (file ∷ files) pool = do
    text ← or_unreadable (read_file file)
    more ← add_certs (suc (length text)) text pool
    add_files files more

  unfoldable pub new_cert_pool : List Bytes → Reply TlsErr (List Bytes)
  unfolding add_files
  new_cert_pool files = add_files files []

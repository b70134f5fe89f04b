-- ===== src/Credentials.antt =====
-- credentials/credentials.go: a bundle of credentials for gRPC, its transport credentials and the
-- token that is sent with each call. The struct `bundle` points to its two parts, and gRPC holds on to
-- the parts, so the parts live in a heap of cells and a pointer is an index.
pub mod Stores
pub mod Tokens
use regatta_go.Prelude.{
  ℕ, Bool, true, false, String, Option, none, some, List, [], ◌∷◌, ◌++◌, length, modify,
  if◌then◌else◌,
}
use regatta_go.Go.{Bytes, codes, is_empty}
use regatta_go.Env.{Reply, resp, fail}

-- `grpccredentials.TransportCredentials` and `grpccredentials.NewTLS`.
pub record Transports : Type 1 where
  pub TlsConfig : Type 0
  pub Ctx : Type 0
  pub Conn : Type 0
  pub AuthInfo : Type 0
  pub ProtocolInfo : Type 0
  pub Err : Type 0
  -- a value of the interface
  pub Credentials : Type 0
  pub new_tls : TlsConfig → Credentials
  pub client_handshake : Credentials → Ctx → Bytes → Conn → Reply Err (Conn × AuthInfo)
  pub server_handshake : Credentials → Conn → Reply Err (Conn × AuthInfo)
  pub info : Credentials → ProtocolInfo
  pub clone : Credentials → Credentials
  -- the error, and the credentials with the name written to them
  pub override_server_name : Credentials → Bytes → Option Err × Credentials

-- `TokenFieldNameGRPC`
abbrev pub token_field_name : Bytes
token_field_name = codes "token"

-- The struct `perRPCCredential`. Its lock is held for each read and each write of the token, so these
-- are a sequence.
pub record PerRpcCredential : Type 0 where
  pub auth_token : Bytes

unfoldable pub new_per_rpc_credential : PerRpcCredential
new_per_rpc_credential = record { auth_token = [] }

unfoldable pub require_transport_security : PerRpcCredential → Bool
require_transport_security rc = false

-- The map of one entry; `none` is the nil map. The error is always nil.
unfoldable pub get_request_metadata : PerRpcCredential → Option (List (Bytes × Bytes))
get_request_metadata rc =
    if is_empty rc.auth_token then none else some ((token_field_name, rc.auth_token) ∷ [])

-- `perRPCCredential.UpdateAuthToken`
unfoldable pub set_auth_token : PerRpcCredential → Bytes → PerRpcCredential
set_auth_token rc token = record rc { auth_token = token }

module _ (transports : Transports) where
  open transports use {
    TlsConfig, Ctx, Conn, AuthInfo, ProtocolInfo, Err, Credentials, new_tls, client_handshake,
    server_handshake, info, clone, override_server_name,
  }

  -- The struct `transportCredential`.
  pub record TransportCredential : Type 0 where
    pub gtc : Credentials

  unfoldable pub new_transport_credential : TlsConfig → TransportCredential
  new_transport_credential cfg = record { gtc = new_tls cfg }

  unfoldable pub tc_client_handshake :
      TransportCredential → Ctx → Bytes → Conn → Reply Err (Conn × AuthInfo)
  tc_client_handshake tc ctx authority conn = client_handshake tc.gtc ctx authority conn

  unfoldable pub tc_server_handshake : TransportCredential → Conn → Reply Err (Conn × AuthInfo)
  tc_server_handshake tc conn = server_handshake tc.gtc conn

  unfoldable pub tc_info : TransportCredential → ProtocolInfo
  tc_info tc = info tc.gtc

  unfoldable pub tc_clone : TransportCredential → TransportCredential
  tc_clone tc = record { gtc = clone tc.gtc }

  -- The error, and the credential whose inner one has the name written to it.
  unfoldable pub tc_override_server_name :
      TransportCredential → Bytes → Option Err × TransportCredential
  tc_override_server_name tc name =
      let (e, gtc) = override_server_name tc.gtc name in (e, record { gtc = gtc })

  pub record Heap : Type 0 where
    pub tcs : List TransportCredential
    pub rcs : List PerRpcCredential

  -- The struct `bundle`; no `rc` is a nil pointer.
  pub record Bundle : Type 0 where
    pub tc : ℕ
    pub rc : Option ℕ

  -- `NewBundle`
  unfoldable pub new_bundle : TlsConfig → Heap → Bundle × Heap
  unfolding new_transport_credential new_per_rpc_credential
  new_bundle cfg h = (
    record { tc = length h.tcs; rc = some (length h.rcs) },
    record {
      tcs = h.tcs ++ new_transport_credential cfg ∷ [];
      rcs = h.rcs ++ new_per_rpc_credential ∷ [];
    },
  )

  unfoldable pub transport_credentials : Bundle → ℕ
  transport_credentials b = b.tc

  unfoldable pub per_rpc_credentials : Bundle → Option ℕ
  per_rpc_credentials b = b.rc

  -- Neither a bundle nor an error.
  unfoldable pub new_with_mode : Bundle → Bytes → Option Bundle × Option Err
  new_with_mode b mode = (none, none)

  -- `bundle.UpdateAuthToken`
  unfoldable pub update_auth_token : Bundle → Bytes → Heap → Heap
  unfolding set_auth_token
  update_auth_token b token h = elim b.rc [
    | none ↦ h
    | some p ↦ record h { rcs = modify h.rcs p (λ rc. set_auth_token rc token) }
  ]

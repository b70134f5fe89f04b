-- ===== src/Credentials/Stores.antt =====
-- Bundles of credentials that are made, given tokens, cloned and renamed in any order, what gRPC is given to
-- send, and the tokens as a specification.
use regatta_go.Prelude.{
  ℕ, Option, none, some, List, [], ◌∷◌, ◌++◌, get_elem?, modify, if◌then◌else◌,
}
use regatta_go.Go.{Bytes, codes, is_empty}
use regatta_go.Credentials.{
  Transports, PerRpcCredential, get_request_metadata, TransportCredential, tc_clone,
  tc_override_server_name, Heap, Bundle, new_bundle, per_rpc_credentials, update_auth_token,
}

-- What a token is sent as: nothing, if it is empty.
abbrev pub metadata : Bytes → Option (List (Bytes × Bytes))
metadata token = if is_empty token then none else some ((codes "token", token) ∷ [])

module _ (transports : Transports) where
  -- The bundles that were made, in order, and their parts.
  pub record Store : Type 0 where
    pub bundles : List (Bundle transports)
    pub heap : Heap transports

  -- A bundle is made, or given a token; a transport credential is cloned, or given a server's name.
  -- Bundles and transport credentials are told by their number.
  pub data Event : Type 0 where
    make : transports.TlsConfig → Event
    update : ℕ → Bytes → Event
    clone : ℕ → Event
    override : ℕ → Bytes → Event

  unfoldable pub update_at : Store → Bytes → Option (Bundle transports) → Store
  update_at s token none = s
  update_at s token (some b) = record s { heap = update_auth_token transports b token s.heap }

  unfoldable pub clone_at : Store → Option (TransportCredential transports) → Store
  clone_at s none = s
  clone_at s (some tc) = record s {
    heap = record s.heap { tcs = s.heap.tcs ++ tc_clone transports tc ∷ [] };
  }

  unfoldable pub step : Store → Event → Store
  unfolding new_bundle update_auth_token tc_clone tc_override_server_name
  step s (make cfg) =
      let (b, h) = new_bundle transports cfg s.heap in
      record { bundles = s.bundles ++ b ∷ []; heap = h }
  step s (update i token) = update_at s token (get_elem? s.bundles i)
  step s (clone i) = clone_at s (get_elem? s.heap.tcs i)
  step s (override i name) = record s {
    heap = record s.heap {
      tcs = modify s.heap.tcs i (λ tc. (tc_override_server_name transports tc name).1);
    };
  }

  unfoldable pub run : Store → List Event → Store
  run s [] = s
  run s (e ∷ es) = run (step s e) es

  abbrev pub nothing : Store
  nothing = record { bundles = []; heap = record { tcs = []; rcs = [] } }

  -- What gRPC is given to send with a call over the bundle of a number.
  unfoldable pub sent_with : Option PerRpcCredential → Option (List (Bytes × Bytes))
  sent_with none = none
  sent_with (some rc) = get_request_metadata rc

  unfoldable pub sent_at : Store → Option ℕ → Option (List (Bytes × Bytes))
  sent_at s none = none
  sent_at s (some p) = sent_with (get_elem? s.heap.rcs p)

  unfoldable pub sent_over : Store → Option (Bundle transports) → Option (List (Bytes × Bytes))
  sent_over s none = none
  sent_over s (some b) = sent_at s (per_rpc_credentials transports b)

  unfoldable pub sent : Store → ℕ → Option (List (Bytes × Bytes))
  sent s i = sent_over s (get_elem? s.bundles i)

  -- The token of each bundle, by its number: the specification.
  abbrev pub tokens_after : List Bytes → List Event → List Bytes
  tokens_after ts [] = ts
  tokens_after ts (make cfg ∷ es) = tokens_after (ts ++ [] ∷ []) es
  tokens_after ts (update i token ∷ es) = tokens_after (modify ts i (λ t. token)) es
  tokens_after ts (clone i ∷ es) = tokens_after ts es
  tokens_after ts (override i name ∷ es) = tokens_after ts es

  -- What is sent for a bundle with a token, and for no bundle.
  abbrev pub sent_for : Option Bytes → Option (List (Bytes × Bytes))
  sent_for none = none
  sent_for (some token) = metadata token

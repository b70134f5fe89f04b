-- ===== src/Tests/Tokens.antt =====
-- Bundles of credentials at concrete events.
use regatta_go.Prelude.{ℕ, ◌≡◌, refl, none, some, List, [], ◌∷◌, get_elem?}
use regatta_go.Go.{Bytes, codes}
use regatta_go.Env.{fail}
use regatta_go.Credentials.{Transports}
use regatta_go.Credentials.Tokens.{sent-tokens}
use regatta_go.Credentials.Stores.{Event, run, nothing, sent, sent_for, tokens_after}

-- Credentials that remember their name and refuse every handshake.
abbrev named : Transports
named = record {
  TlsConfig = Bytes;
  Ctx = ℕ;
  Conn = ℕ;
  AuthInfo = ℕ;
  ProtocolInfo = Bytes;
  Err = ℕ;
  Credentials = Bytes;
  new_tls = λ c. c;
  client_handshake = λ c ctx host conn. fail 1;
  server_handshake = λ c conn. fail 1;
  info = λ c. c;
  clone = λ c. c;
  override_server_name = λ c name. (none, name);
}

abbrev events : List (Event named)
events =
    Event.make (codes "a")
    ∷ Event.make (codes "b")
    ∷ Event.update 0 (codes "x")
    ∷ Event.clone 1
    ∷ Event.override 2 (codes "host")
    ∷ Event.update 1 (codes "y")
    ∷ Event.update 0 (codes "z")
    ∷ []

sent-tokens_example :
    sent named (run named (nothing named) events) 0
    ≡ sent_for named (get_elem? (tokens_after named [] events) 0)
sent-tokens_example = sent-tokens named events 0

last_token : get_elem? (tokens_after named [] events) 0 ≡ some (codes "z")
last_token = refl

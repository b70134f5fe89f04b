-- ===== src/Client.antt =====
-- client.go: what `newClient` makes of a configuration, the client's endpoints and its backoff. The
-- connection is modelled in Dial and the check in Version; here `dialled` says whether dialing
-- succeeds, and `current` what `checkVersion` finds.
pub mod Construction
pub mod Backoff
pub mod Lifecycle
pub mod Told
pub mod HookedCalls
use regatta_go.Prelude.{
  ℕ, zero, suc, ◌+◌, ◌*◌, ◌/◌, ◌%◌, ◌-◌, ℤ, pos, negsuc, Bool, true, false, not, ◌&&◌, ◌||◌, Option,
  none, some, List, [], ◌∷◌, ◌++◌, ◌==◌, ltb, if◌then◌else◌, length,
}
use regatta_go.Go.{Bytes, is_empty}
use regatta_go.Proto.Admin.{Member}
use regatta_go.Config.{Config}
use regatta_go.Hooks.{Caps, Hook, Hooks, list_of, get_hooks, process_hooks}

-- The call options of options.go, and the two that a configuration sets.
pub data CallOpt : Type 0 where
  compressor : CallOpt
  wait_for_ready : CallOpt
  max_send : ℤ → CallOpt
  max_recv : ℤ → CallOpt

abbrev pub default_max_send : CallOpt
default_max_send = max_send (pos (2 * 1024 * 1024))

abbrev pub default_max_recv : CallOpt
default_max_recv = max_recv (pos 2147483647)

abbrev pub default_call_opts : List CallOpt
default_call_opts = compressor ∷ wait_for_ready ∷ default_max_send ∷ default_max_recv ∷ []

pub data ClientErr : Type 0 where
  no_available_endpoints : ClientErr
  bad_limits : ClientErr
  bad_hook : ClientErr
  dial_failed : ClientErr
  old_cluster : ClientErr

-- `told` lists the hooks whose `OnNewClient` was called, `kv_hooks` those that `newKV` wraps `Do`
-- with.
pub record Client : Type 0 where
  pub cfg : Config
  pub endpoints : List Bytes
  pub resolver_endpoints : List Bytes
  pub call_opts : List CallOpt
  pub told : List Hook
  pub kv_hooks : List Hook

pub data Made : Type 0 where
  made : Client → Made
  failed : ClientErr → Made

-- `n > 0` and `a > b`
abbrev pub is_positive : ℤ → Bool
is_positive (pos zero) = false
is_positive (pos (suc n)) = true
is_positive (negsuc n) = false

abbrev pub gtb : ℤ → ℤ → Bool
gtb (pos a) (pos b) = ltb b a
gtb (pos a) (negsuc b) = true
gtb (negsuc a) (pos b) = false
gtb (negsuc a) (negsuc b) = ltb a b

-- The limits of the configuration, or `none` where the receive limit is below the send limit.
unfoldable pub choose_call_opts : ℤ → ℤ → Option (List CallOpt)
choose_call_opts send recv =
    if is_positive send || is_positive recv
    then (if is_positive recv && gtb send recv
        then none
        else some (
            wait_for_ready
            ∷ (if is_positive send then max_send send else default_max_send)
            ∷ (if is_positive recv then max_recv recv else default_max_recv)
            ∷ []))
    else some default_call_opts

-- `client.SetEndpoints` writes the client's list and the resolver's.
unfoldable pub set_endpoints : Client → List Bytes → Client
set_endpoints c eps = record c { endpoints = eps; resolver_endpoints = eps }

-- The end of `newClient`. The client's own `cfg` was copied before the hooks were processed, so
-- `newKV` sees the hooks of that copy.
unfoldable pub with_hooks : Config → List CallOpt → Bool → Bool → Option (List Hook) → Made
unfolding set_endpoints
with_hooks cfg opts dialled current none = failed bad_hook
with_hooks cfg opts dialled current (some processed) =
    if dialled
    then (if cfg.reject_old_cluster && not current
        then failed old_cluster
        else made (
            set_endpoints
              (record {
                cfg = cfg;
                endpoints = [];
                resolver_endpoints = cfg.endpoints;
                call_opts = opts;
                told = get_hooks (λ c. c.new_client) processed;
                kv_hooks = get_hooks (λ c. c.kv_op_do) (list_of cfg.hooks);
              })
              cfg.endpoints))
    else failed dial_failed

unfoldable pub with_call_opts : Config → Bool → Bool → Option (List CallOpt) → Made
with_call_opts cfg dialled current none = failed bad_limits
with_call_opts cfg dialled current (some opts) =
    with_hooks cfg opts dialled current (process_hooks cfg.hooks)

unfoldable pub new_client : Config → Bool → Bool → Made
new_client cfg dialled current =
    if is_empty cfg.endpoints
    then failed no_available_endpoints
    else with_call_opts cfg dialled current
        (choose_call_opts cfg.max_call_send_msg_size cfg.max_call_recv_msg_size)

unfoldable pub named_urls : List Member → List Bytes
named_urls [] = []
named_urls (m ∷ ms) = if is_empty m.name then named_urls ms else m.client_urls ++ named_urls ms

-- `Sync`: `none` is an error of `MemberList`, which leaves the client as it is.
unfoldable pub sync : Client → Option (List Member) → Client
unfolding named_urls set_endpoints
sync c none = c
sync c (some members) = set_endpoints c (named_urls members)

-- `roundRobinQuorumBackoff` for `n` endpoints; `jittered` is what `jitterUp` gives.
unfoldable pub round_robin_quorum_backoff : ℕ → ℤ → ℕ → ℤ
round_robin_quorum_backoff n jittered attempt =
    let quorum = n / 2 + 1 in if attempt % quorum == 0 then jittered else pos 0

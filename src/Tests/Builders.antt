-- ===== src/Tests/Builders.antt =====
-- txn.go, hooks.go, client.go and the conversions of fake.go at concrete inputs.
use regatta_go.Prelude.{
  all, pos, ◌≡◌, refl, true, false, none, some, List, [], ◌∷◌, map, not, ◌&&◌, if◌then◌else◌,
}
use regatta_go.Go.{ok, is_ok, codes, is_empty}
use regatta_go.Proto.{RangeRequest, request_range, request_put, TxnRequest}
use regatta_go.Op.{
  Cmp, t_put, t_range, Op, op, nil, zero_fields, to_range_request, to_txn_request, to_request_ops,
  to_request_op, op_txn,
}
use regatta_go.Txn.{fresh}
use regatta_go.Txn.Order.{Call, if_, then_, else_, run, rises, run-accepts}
use regatta_go.Hooks.{Caps, single, group, Hooks, cons, any_interface, get_hooks, process_hooks}
use regatta_go.Hooks.Flatten.{leaves_of, process_hooks-leaves}
use regatta_go.Config.{Config, zero_config}
use regatta_go.Client.{
  CallOpt, Client, made, max_send, default_max_recv, wait_for_ready, choose_call_opts, new_client,
  with_call_opts, with_hooks,
}
use regatta_go.Client.Construction.{is_made, limits_fit, lets_in, new_client-accepts}

abbrev get_a : Op
get_a = op (record zero_fields { t = t_range; key = codes "a"; rev = pos 7 }) nil nil

abbrev put_a : Op
put_a = op (record zero_fields { t = t_put; key = codes "a"; val = codes "v" }) nil nil

abbrev a_cmp : Cmp
a_cmp = record { compare = 0 }

abbrev calls : List Call
calls = if_ (a_cmp ∷ []) ∷ then_ (get_a ∷ put_a ∷ []) ∷ else_ (get_a ∷ []) ∷ []

run-accepts_example :
    is_ok (run fresh (else_ [] ∷ then_ [] ∷ [])) ≡ rises 0 (else_ [] ∷ then_ [] ∷ [])
run-accepts_example = run-accepts (else_ [] ∷ then_ [] ∷ [])

abbrev range_a : RangeRequest
range_a = record {
  table = codes "t";
  key = codes "a";
  range_end = none;
  limit = pos 0;
  linearizable = true;
  keys_only = false;
  count_only = false;
  min_mod_revision = pos 0;
  max_mod_revision = pos 0;
  min_create_revision = pos 0;
  max_create_revision = pos 0;
}

to_range_request_a : to_range_request get_a (codes "t") ≡ ok range_a
unfolding to_range_request
to_range_request_a = refl

abbrev txn_a : TxnRequest
txn_a = record {
  table = codes "t";
  compare = 0 ∷ [];
  success =
      request_range (record {
        key = codes "a";
        range_end = none;
        limit = pos 0;
        keys_only = false;
        count_only = false;
      })
      ∷ [];
  failure = request_put (record { key = codes "a"; value = codes "v"; prev_kv = false }) ∷ [];
}

to_txn_request_a :
    to_txn_request (op_txn (a_cmp ∷ []) (get_a ∷ []) (put_a ∷ [])) (codes "t") ≡ ok txn_a
unfolding to_txn_request op_txn to_request_ops to_request_op
to_txn_request_a = refl

-- A hook for new clients and for operations.
abbrev pub metrics : Caps
metrics = record {
  name = 1;
  new_client = true;
  client_closed = false;
  handle_rpc = false;
  handle_conn = false;
  kv_op_do = true;
}

abbrev in_group : Hooks
in_group = cons (single metrics) Hooks.nil

abbrev hooks : Hooks
hooks = cons (group in_group) Hooks.nil

process_hooks-leaves_example :
    process_hooks hooks
    ≡ (if all any_interface (leaves_of hooks) then some (map single (leaves_of hooks)) else none)
process_hooks-leaves_example = process_hooks-leaves hooks

abbrev pub config : Config
config = record zero_config {
  endpoints = codes "host" ∷ [];
  max_call_send_msg_size = pos 4;
  max_call_recv_msg_size = pos 0;
  reject_old_cluster = true;
  hooks = hooks;
}

abbrev pub limited : List CallOpt
limited = wait_for_ready ∷ max_send (pos 4) ∷ default_max_recv ∷ []

new_client-accepts_example : is_made (new_client config true true) ≡ (
    not (is_empty config.endpoints)
    && (limits_fit config
        && (all any_interface (leaves_of config.hooks) && lets_in config true true)))
new_client-accepts_example = new_client-accepts config true true

abbrev client : Client
client = record {
  cfg = config;
  endpoints = config.endpoints;
  resolver_endpoints = config.endpoints;
  call_opts = limited;
  told = single metrics ∷ [];
  kv_hooks = [];
}

new_client_config : new_client config true true ≡ made client
unfolding new_client with_call_opts choose_call_opts with_hooks process_hooks get_hooks
new_client_config = refl

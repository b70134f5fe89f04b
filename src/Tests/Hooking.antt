-- ===== src/Tests/Hooking.antt =====
-- A client with hooks at a concrete operation, in a world that lists the hooks that saw it.
use regatta_go.Prelude.{◌≡◌, refl, true, false, List, [], ◌∷◌, ◌++◌, map}
use regatta_go.Go.{ok, codes}
use regatta_go.Env.{Env, fail}
use regatta_go.Hooks.{Caps, Hook, single, group, Hooks, cons, nil, get_hooks, process_hooks}
use regatta_go.Config.{Config}
use regatta_go.Client.{Client, made, new_client, with_call_opts, choose_call_opts, with_hooks}
use regatta_go.Client.HookedCalls.{new_client-marked}
use regatta_go.Kv.{KvClient, KvHook, kv_do, retry_kv_client, new_kv}
use regatta_go.Tests.Services.{env_over}
use regatta_go.Tests.Builders.{config, metrics, limited}
use regatta_go.Tests.Traffic.{put_a}

abbrev traces : Caps
traces = record metrics { name = 2 }

abbrev quiet : Caps
quiet = record metrics { name = 3; kv_op_do = false }

abbrev hooks : Hooks
hooks =
    cons (single metrics)
      (cons (single quiet) (cons (group (cons (single metrics) nil)) (cons (single traces) nil)))

abbrev hooking : Config
hooking = record config { hooks = hooks }

abbrev client : Client
client = record {
  cfg = hooking;
  endpoints = hooking.endpoints;
  resolver_endpoints = hooking.endpoints;
  call_opts = limited;
  told = single metrics ∷ single quiet ∷ single metrics ∷ single traces ∷ [];
  kv_hooks = single metrics ∷ single traces ∷ [];
}

new_client_hooking : new_client hooking true true ≡ made client
unfolding new_client with_call_opts choose_call_opts with_hooks process_hooks get_hooks
new_client_hooking = refl

abbrev env : Env
env = env_over (List Hook)

abbrev marks : Hook → KvHook env
marks h ctx table o next w = next ctx table o (w ++ h ∷ [])

abbrev silent : KvClient env
silent = record {
  range = λ ctx req opts w. (ok (fail 1), w);
  iterate_range = λ ctx req opts w. (ok (fail 1), w);
  put = λ ctx req opts w. (ok (fail 1), w);
  delete_range = λ ctx req opts w. (ok (fail 1), w);
  txn = λ ctx req opts w. (ok (fail 1), w);
  recv = λ s w. (ok (fail 9), w);
}

new_client-marked_example :
    (w' : List Hook) × (new_kv env silent [] (map marks client.kv_hooks) tt (codes "t") put_a []
      ≡ kv_do env (retry_kv_client env silent) [] tt (codes "t") put_a w')
    × (w' ≡ single traces ∷ single metrics ∷ [])
new_client-marked_example =
    new_client-marked env marks (λ h w. w ++ h ∷ []) (λ h ctx table o next w. refl) (λ w. w)
      (λ h w. refl) hooking true true client silent [] tt (codes "t") put_a [] new_client_hooking

-- ===== src/Kv/HookOrder.antt =====
-- The order in which the hooks of a client stand around `Do`.
use mathlib.Core.List.{foldl-append}
use regatta_go.Prelude.{◌≡◌, refl, ap, List, [], ◌∷◌, ◌++◌}
use regatta_go.Go.{Bytes}
use regatta_go.Env.{Env}
use regatta_go.Op.{Op}
use regatta_go.Retry.{CallOption}
use regatta_go.Kv.{KvClient, KvDo, KvHook, kv_do, retry_kv_client, hooked_do, new_kv}

module _ (env : Env) where
  -- The last of a client's hooks stands in front: an operation is given to it first, with the client
  -- that the other hooks make to pass it on to; without hooks an operation goes to the retrying
  -- client.
  pub new_kv-last :
      (remote : KvClient env) (copts : List (CallOption env)) (hs : List (KvHook env))
      (h : KvHook env) (ctx : env.Ctx) (table : Bytes) (o : Op)
      → (new_kv env remote copts (hs ++ h ∷ []) ctx table o
          ≡ h ctx table o (new_kv env remote copts hs))
        × (new_kv env remote copts [] ctx table o
            ≡ kv_do env (retry_kv_client env remote) copts ctx table o)
  unfolding new_kv hooked_do
  new_kv-last remote copts hs h ctx table o = (
    ap (λ (d : KvDo env). d ctx table o)
        (foldl-append (hooked_do env) (kv_do env (retry_kv_client env remote) copts) hs (h ∷ [])),
    refl,
  )

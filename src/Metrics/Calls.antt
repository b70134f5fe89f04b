-- ===== src/Metrics/Calls.antt =====
-- plugin/rprom/rprom.go: what a client that is metered does and reports.
use mathlib.Core.List.{append_assoc}
use regatta_go.Prelude.{◌≡◌, refl, ap, ◌∙◌, Option, none, some, List, [], ◌∷◌, ◌++◌}
use regatta_go.Go.{Go, ok, panic, Bytes}
use regatta_go.Env.{Env}
use regatta_go.Op.{Op}
use regatta_go.Retry.{CallOption}
use regatta_go.Kv.{KvClient, OpResponse, KvHook, new_kv}
use regatta_go.Kv.HookOrder.{new_kv-last}
use regatta_go.Metrics.{
  Call, observe, inc_labelled, request_duration, request_errors, get_op_label, on_kv_call, reported,
  report,
}

module _ (env : Env) {Time Duration : Type 0} (call : Call Duration → env.World → env.World)
    (now : env.World → Time) (since : Time → env.World → Duration)
    (log : env.World → List (Call Duration)) where
  open env use {World, Err}

  -- The calls on Prometheus for an operation with a label: its duration, and its error if it had one.
  abbrev pub counted :
      Bytes → Bytes → Duration → Go (OpResponse env × Option Err) → List (Call Duration)
  counted table label d (panic m) = observe request_duration table label d ∷ []
  counted table label d (ok (r, none)) = observe request_duration table label d ∷ []
  counted table label d (ok (r, some e)) =
      observe request_duration table label d ∷ inc_labelled request_errors table label ∷ []

  -- With the metrics in front of its other hooks a client answers every operation as it does without,
  -- a panic included, and reports its duration, from before the operation to its end, exactly once, and
  -- its error, if it has one, once; an operation that panics counts as none with an error. Each call on
  -- Prometheus must be logged behind the ones before.
  pub new_kv-metered :
      (remote : KvClient env) (copts : List (CallOption env)) (hs : List (KvHook env))
      (ctx : env.Ctx) (table : Bytes) (o : Op) (w w1 : World) (g : Go (OpResponse env × Option Err))
      → ((c : Call Duration) (w : World) → log (call c w) ≡ log w ++ c ∷ [])
      → new_kv env remote copts hs ctx table o w ≡ (g, w1)
      → (w2 : World) × (new_kv env remote copts
            (hs ++ on_kv_call env call now since ∷ [])
            ctx
            table
            o
            w
          ≡ (g, w2))
        × (log w2 ≡ log w1 ++ counted table (get_op_label o) (since (now w) w1) g)
  unfolding on_kv_call reported report
  new_kv-metered remote copts hs ctx table o w w1 g logs h =
      let (w2, q, l) = after g in
      (
        w2,
        ap (λ d. d w)
              ((new_kv-last env remote copts hs (on_kv_call env call now since) ctx table o).0)
            ∙ ap (reported env call now since table o (now w)) h
            ∙ q,
        l,
      )
    where
      after :
          (g : Go (OpResponse env × Option Err))
          → (w2 : World) × (reported env call now since table o (now w) (g, w1) ≡ (g, w2))
            × (log w2 ≡ log w1 ++ counted table (get_op_label o) (since (now w) w1) g)
      after (panic m) = (_, refl, logs _ w1)
      after (ok (r, none)) = (_, refl, logs _ w1)
      after (ok (r, some e)) = (
        _,
        refl,
        logs _ _
            ∙ ap (λ l. l ++ inc_labelled request_errors table (get_op_label o) ∷ []) (logs _ w1)
            ∙ append_assoc (log w1) _ _,
      )

-- ===== src/Tests/Plugins.antt =====
-- The plugins at concrete inputs.
use mathlib.Core.List.{map-append}
use regatta_go.Prelude.{map, ◌⊎◌, inl, inr, ℕ, ◌≡◌, refl, Option, none, some, List, [], ◌∷◌, ◌++◌}
use regatta_go.Go.{Go, ok, Bytes, codes}
use regatta_go.Env.{Env, fail}
use regatta_go.Op.{op_txn}
use regatta_go.Kv.{KvClient, OpResponse, new_kv}
use regatta_go.Metrics.{Call, get_op_label, on_kv_call}
use regatta_go.Metrics.Calls.{counted, new_kv-metered}
use regatta_go.Tracing
use regatta_go.Tracing.{Tracing, Tracer}
use regatta_go.Tracing.Spans.{SpanCall, recorded, failed, ended, closing, new_kv-traced}
use regatta_go.Tests.Services.{env_over}

abbrev logging : Env
logging = env_over (List (Call ℕ))

-- A server that refuses every call.
abbrev refusing : KvClient logging
refusing = record {
  range = λ ctx req opts w. (ok (fail 5), w);
  iterate_range = λ ctx req opts w. (ok (fail 5), w);
  put = λ ctx req opts w. (ok (fail 5), w);
  delete_range = λ ctx req opts w. (ok (fail 5), w);
  txn = λ ctx req opts w. (ok (fail 5), w);
  recv = λ s w. (ok (fail 9), w);
}

abbrev append : Call ℕ → List (Call ℕ) → List (Call ℕ)
append c w = w ++ c ∷ []

abbrev no_time : List (Call ℕ) → ℕ
no_time w = 0

abbrev four : ℕ → List (Call ℕ) → ℕ
four t w = 4

abbrev outcome : Go (OpResponse logging × Option ℕ) × List (Call ℕ)
outcome = new_kv logging refusing [] [] tt (codes "t") (op_txn [] [] []) []

new_kv-metered_example :
    (w : List (Call ℕ)) × (new_kv logging refusing []
        (on_kv_call logging append no_time four ∷ [])
        tt
        (codes "t")
        (op_txn [] [] [])
        []
      ≡ (outcome.0, w))
    × (w
        ≡ outcome.1
          ++ counted logging append no_time four
              (λ w. w)
              (codes "t")
              (get_op_label (op_txn [] [] []))
              4
              outcome.0)
new_kv-metered_example =
    new_kv-metered logging append no_time four (λ w. w) refusing [] [] tt (codes "t")
      (op_txn [] [] []) [] outcome.1 outcome.0 (λ c w. refl) refl

-- A tracer with one span; the world holds what it was told, an error, a text or its end.
abbrev Told : Type 0
Told = List (Option (ℕ ⊎ Bytes))

abbrev tracing : Env
tracing = env_over Told

abbrev tracer : Tracer tracing
tracer = record {
  Span = Unit {0};
  start = λ ctx name attrs w. ((ctx, tt), w);
  record_error = λ s e w. w ++ some (inl e) ∷ [];
  set_error = λ s m w. w ++ some (inr m) ∷ [];
  end_span = λ s w. w ++ none ∷ [];
}

abbrev call_of : Option (ℕ ⊎ Bytes) → SpanCall tracing tracer
call_of none = ended tt
call_of (some (inl e)) = recorded tt e
call_of (some (inr m)) = failed tt m

abbrev unavailable_server : KvClient tracing
unavailable_server = record {
  range = λ ctx req opts w. (ok (fail 5), w);
  iterate_range = λ ctx req opts w. (ok (fail 5), w);
  put = λ ctx req opts w. (ok (fail 5), w);
  delete_range = λ ctx req opts w. (ok (fail 5), w);
  txn = λ ctx req opts w. (ok (fail 5), w);
  recv = λ s w. (ok (fail 9), w);
}

abbrev mute : Tracing
mute = record { tracer_provider = none; key_formatter = none }

abbrev untraced : Go (OpResponse tracing × Option ℕ) × Told
untraced = new_kv tracing unavailable_server [] [] tt (codes "t") (op_txn [] [] []) []

new_kv-traced_example :
    (w : Told) × (new_kv tracing unavailable_server []
        (Tracing.on_kv_call tracing tracer mute ∷ [])
        tt
        (codes "t")
        (op_txn [] [] [])
        []
      ≡ (untraced.0, w))
    × (map call_of w ≡ map call_of untraced.1 ++ closing tracing tracer tt untraced.0)
new_kv-traced_example =
    new_kv-traced tracing tracer (map call_of) mute unavailable_server [] [] tt (codes "t")
      (op_txn [] [] []) [] untraced.1 untraced.0
      (λ s e w. map-append call_of w ((some (inl e)) ∷ []))
      (λ s m w. map-append call_of w ((some (inr m)) ∷ []))
      (λ s w. map-append call_of w (none ∷ [])) refl

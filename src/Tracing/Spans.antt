-- ===== src/Tracing/Spans.antt =====
-- plugin/rotel/rotel.go: the span around an operation of a client that is traced.
use mathlib.Core.List.{append_assoc}
use regatta_go.Prelude.{◌≡◌, refl, ap, ◌∙◌, Option, none, some, List, [], ◌∷◌, ◌++◌}
use regatta_go.Go.{Go, ok, panic, Bytes, codes}
use regatta_go.Env.{Env}
use regatta_go.Op.{Op}
use regatta_go.Retry.{CallOption}
use regatta_go.Kv.{KvClient, OpResponse, KvHook, new_kv}
use regatta_go.Kv.HookOrder.{new_kv-last}
use regatta_go.Tracing.{db_system, db_name, Tracing, op_attrs, Tracer, on_kv_call, finish}

module _ (env : Env) (tracer : Tracer env) where
  open env use {World, Err, Ctx}
  open tracer use {Span}

  three :
      {A : Type 0} (xs : List A) (a b c : A)
      → ((xs ++ a ∷ []) ++ b ∷ []) ++ c ∷ [] ≡ xs ++ a ∷ b ∷ c ∷ []
  three xs a b c =
      append_assoc (xs ++ a ∷ []) (b ∷ []) (c ∷ []) ∙ append_assoc xs (a ∷ []) (b ∷ c ∷ [])

  -- What a span was told after its start.
  pub data SpanCall : Type 0 where
    recorded : Span → Err → SpanCall
    failed : Span → Bytes → SpanCall
    ended : Span → SpanCall

  -- The calls that finish a span: its error, if there is one, and then its end.
  abbrev pub closing : Span → Go (OpResponse env × Option Err) → List SpanCall
  closing span (panic m) = ended span ∷ []
  closing span (ok (r, none)) = ended span ∷ []
  closing span (ok (r, some e)) = recorded span e ∷ failed span (env.error_text e) ∷ ended span ∷ []

  -- The context and the span of an operation, and the world after the start.
  abbrev pub opened : Tracing → Ctx → Bytes → Op → World → (Ctx × Span) × World
  opened t ctx table o w =
      let p = op_attrs t (db_system (codes "regatta") ∷ db_name table ∷ []) o in
      tracer.start ctx p.0 p.1 w

  -- With tracing in front of its other hooks a client answers an operation as it does without, in
  -- the context of the span that was started for it, a panic included. The span is then ended
  -- exactly once, also behind a panic, and an error is recorded in it before, once. Each call on
  -- the span must be logged behind the ones before.
  pub new_kv-traced :
      (log : World → List SpanCall) (t : Tracing) (remote : KvClient env)
      (copts : List (CallOption env)) (hs : List (KvHook env)) (ctx : Ctx) (table : Bytes) (o : Op)
      (w w1 : World) (g : Go (OpResponse env × Option Err))
      → ((s : Span) (e : Err) (w : World)
          → log (tracer.record_error s e w) ≡ log w ++ recorded s e ∷ [])
      → ((s : Span) (m : Bytes) (w : World)
          → log (tracer.set_error s m w) ≡ log w ++ failed s m ∷ [])
      → ((s : Span) (w : World) → log (tracer.end_span s w) ≡ log w ++ ended s ∷ [])
      → new_kv env remote copts hs (opened t ctx table o w).0.0 table o (opened t ctx table o w).1
        ≡ (g, w1)
      → (w2 : World) × (new_kv env remote copts (hs ++ on_kv_call env tracer t ∷ []) ctx table o w
          ≡ (g, w2))
        × (log w2 ≡ log w1 ++ closing (opened t ctx table o w).0.1 g)
  unfolding on_kv_call finish
  new_kv-traced log t remote copts hs ctx table o w w1 g records fails ends h =
      let (w2, q, l) = after g in
      (
        w2,
        ap (λ d. d w) ((new_kv-last env remote copts hs (on_kv_call env tracer t) ctx table o).0)
            ∙ ap (finish env tracer span) h
            ∙ q,
        l,
      )
    where
      span : Span
      span = (opened t ctx table o w).0.1

      after :
          (g : Go (OpResponse env × Option Err))
          → (w2 : World) × (finish env tracer span (g, w1) ≡ (g, w2))
            × (log w2 ≡ log w1 ++ closing span g)
      after (panic m) = (_, refl, ends span w1)
      after (ok (r, none)) = (_, refl, ends span w1)
      after (ok (r, some e)) = (
        _,
        refl,
        ends span _
            ∙ ap (λ l. l ++ ended span ∷ [])
                (fails span _ _
                  ∙ ap (λ l. l ++ failed span (env.error_text e) ∷ []) (records span e w1))
            ∙ three (log w1) (recorded span e) (failed span (env.error_text e)) (ended span),
      )

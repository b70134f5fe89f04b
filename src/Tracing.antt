-- ===== src/Tracing.antt =====
-- plugin/rotel/rotel.go and plugin/rotel/config.go: the plugin for traces. OpenTelemetry is the
-- parameter `Tracer`; a provider is known by a number.
pub mod Spans
pub mod BuildVersion
use regatta_go.Prelude.{ℕ, Option, none, some, List, [], ◌∷◌, ◌++◌, if◌then◌else◌}
use regatta_go.Go.{Go, ok, panic, Bytes, codes}
use regatta_go.Go.Utf8.{utf8_valid}
use regatta_go.Env.{Env}
use regatta_go.Op.{Op, fields, is_get, is_iterate, is_put, is_delete, is_txn}
use regatta_go.Kv.{OpResponse, KvHook}

-- The attributes that the plugin gives a span.
pub data Attribute : Type 0 where
  db_system db_name db_operation db_statement : Bytes → Attribute

-- A formatter may fail.
pub record Tracing : Type 0 where
  pub tracer_provider : Option ℕ
  pub key_formatter : Option (Bytes → Option Bytes)

abbrev pub Opt : Type 0
Opt = Tracing → Tracing

unfoldable pub tracer_provider : ℕ → Opt
tracer_provider provider t = record t { tracer_provider = some provider }

unfoldable pub key_formatter : (Bytes → Option Bytes) → Opt
key_formatter f t = record t { key_formatter = some f }

apply_all : List Opt → Tracing → Tracing
apply_all [] t = t
apply_all (f ∷ fs) t = apply_all fs (f t)

or_global : ℕ → Option ℕ → ℕ
or_global global none = global
or_global global (some p) = p

-- `NewTracing`, with the global provider; the tracer is made of the provider that results.
unfoldable pub new_tracing : ℕ → List Opt → Tracing
unfolding apply_all or_global
new_tracing global opts =
    let t = apply_all opts (record { tracer_provider = none; key_formatter = none }) in
    record t { tracer_provider = some (or_global global t.tracer_provider) }

if_valid : Option Bytes → Bytes
if_valid none = []
if_valid (some k) = if utf8_valid k then k else []

formatted : Option (Bytes → Option Bytes) → Bytes → Option Bytes
formatted none bytes = some bytes
formatted (some f) bytes = f bytes

unfoldable pub format_key : Tracing → Option Bytes → Bytes
unfolding if_valid formatted
format_key t none = []
format_key t (some bytes) = if_valid (formatted t.key_formatter bytes)

-- A statement with the key, and with the end of the range.
key_statement : Tracing → Bytes → Op → Bytes
key_statement t call o = call ++ codes " key: " ++ format_key t (some (fields o).key)

range_statement : Tracing → Bytes → Op → Bytes
unfolding key_statement
range_statement t call o =
    key_statement t call o ++ codes " rangeEnd: " ++ format_key t (fields o).end

unfoldable pub op_attrs : Tracing → List Attribute → Op → Bytes × List Attribute
unfolding key_statement range_statement
op_attrs t attrs o =
    if is_get o
    then (
      codes "regatta/get",
      attrs
          ++ db_operation (codes "get")
            ∷ db_statement (range_statement t (codes "regatta.v1.kv/Range") o)
            ∷ [],
    )
    else if is_iterate o
    then (
      codes "regatta/iterate",
      attrs
          ++ db_operation (codes "iterate")
            ∷ db_statement (range_statement t (codes "regatta.v1.kv/IterateRange") o)
            ∷ [],
    )
    else if is_put o
    then (
      codes "regatta/put",
      attrs
          ++ db_operation (codes "put")
            ∷ db_statement (key_statement t (codes "regatta.v1.kv/Put") o)
            ∷ [],
    )
    else if is_delete o
    then (
      codes "regatta/delete",
      attrs
          ++ db_operation (codes "delete")
            ∷ db_statement (range_statement t (codes "regatta.v1.kv/DeleteRange") o)
            ∷ [],
    )
    else if is_txn o
    then (
      codes "regatta/txn",
      attrs ++ db_operation (codes "txn") ∷ db_statement (codes "regatta.v1.kv/Txn ops") ∷ [],
    )
    else (codes "regatta/unknown", attrs)

module _ (env : Env) where
  open env use {World, Err, Ctx, error_text}

  pub record Tracer : Type 1 where
    pub Span : Type 0
    -- a span of the client's kind, with a name and attributes
    pub start : Ctx → Bytes → List Attribute → World → (Ctx × Span) × World
    pub record_error : Span → Err → World → World
    -- `SetStatus` with `codes.Error`
    pub set_error : Span → Bytes → World → World
    pub end_span : Span → World → World

  module _ (tracer : Tracer) where
    open tracer use {Span}

    -- After `fn`, with the deferred end of the span.
    finish :
        Span → Go (OpResponse env × Option Err) × World → Go (OpResponse env × Option Err) × World
    finish span (panic m, w) = (panic m, tracer.end_span span w)
    finish span (ok (r, none), w) = (ok (r, none), tracer.end_span span w)
    finish span (ok (r, some e), w) = (
      ok (r, some e),
      tracer.end_span span (tracer.set_error span (error_text e) (tracer.record_error span e w)),
    )

    unfoldable pub on_kv_call : Tracing → KvHook env
    unfolding finish op_attrs
    on_kv_call t ctx table o fn w =
        let (name, attrs) = op_attrs t (db_system (codes "regatta") ∷ db_name table ∷ []) o in
        let ((ctx', span), w') = tracer.start ctx name attrs w in finish span (fn ctx' table o w')

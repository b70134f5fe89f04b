-- ===== src/Options/Plain.antt =====
-- Puts: what an accepted list of options leaves of the operation.
use regatta_go.Prelude.{◌≡◌, refl, ap, ◌∙◌, Bool, true, false, not, ◌||◌, List, [], ◌∷◌, arith}
use regatta_go.Go.{ok, is_ok, Bytes}
use regatta_go.Op.{t_put, OpFields, Op, Ops, op, fields}
use regatta_go.Options.{apply_opts, op_put, check_put}
use regatta_go.Options.Settings.{
  Setting, limit, prefix, option, options, uses, is_ranged, is_prev_kv, apply_opts-flag,
  prev_kv-flag,
}
use regatta_go.Options.Accepts.{for_range, op_put-accepts, made}

-- What no option but the range options writes.
abbrev Keeps : {A : Type 0} → (OpFields → A) → Type 0
Keeps get =
    (f : OpFields) (a b : Ops) (s : Setting)
    → is_ranged s ≡ false
    → get (fields (option s (op f a b))) ≡ get f

or-left : (a b : Bool) → (a || b) ≡ false → a ≡ false
or-left a b h = ground arith

or-right : (a b : Bool) → (a || b) ≡ false → b ≡ false
or-right a b h = ground arith

apply_opts-Keeps :
    {A : Type 0} (get : OpFields → A)
    → Keeps get
    → (o : Op) (ss : List Setting) → uses is_ranged ss ≡ false
    → get (fields (apply_opts o (options ss))) ≡ get (fields o)
unfolding apply_opts
apply_opts-Keeps get keeps o [] h = refl
apply_opts-Keeps get keeps (op f a b) (s ∷ ss) h =
    apply_opts-Keeps get keeps (option s (op f a b)) ss (or-right _ _ h)
    ∙ keeps f a b s (or-left _ _ h)

t-Keeps : Keeps (λ f. f.t)
unfolding option
t-Keeps f a b (limit n) h = refl
t-Keeps f a b prefix h = cc
t-Keeps f a b _ h = ground arith

key-Keeps : Keeps (λ f. f.key)
unfolding option
key-Keeps f a b (limit n) h = refl
key-Keeps f a b prefix h = cc
key-Keeps f a b _ h = ground arith

val-Keeps : Keeps (λ f. f.val)
unfolding option
val-Keeps f a b (limit n) h = refl
val-Keeps f a b prefix h = cc
val-Keeps f a b _ h = ground arith

check_put-same : (o : Op) → is_ok (check_put o) ≡ true → check_put o ≡ ok o
unfolding check_put
check_put-same o h = ground arith

-- An accepted put is an operation of its type, its key and its value, with the flag of
-- `WithPrevKV`.
pub op_put-made :
    (key val : Bytes) (ss : List Setting)
    → (uses is_ranged ss || for_range ss) ≡ false
    → (o : Op) × (op_put key val (options ss) ≡ ok o)
      × ((fields o).t ≡ t_put)
      × ((fields o).key ≡ key)
      × ((fields o).val ≡ val)
      × ((fields o).prev_kv ≡ uses is_prev_kv ss)
unfolding op_put
op_put-made key val ss h =
    let start = made t_put key val in
    (
      apply_opts start (options ss),
      check_put-same _ (op_put-accepts key val ss ∙ ap not h),
      apply_opts-Keeps (λ f. f.t) t-Keeps start ss (or-left _ _ h),
      apply_opts-Keeps (λ f. f.key) key-Keeps start ss (or-left _ _ h),
      apply_opts-Keeps (λ f. f.val) val-Keeps start ss (or-left _ _ h),
      apply_opts-flag (λ f. f.prev_kv) is_prev_kv prev_kv-flag start ss,
    )

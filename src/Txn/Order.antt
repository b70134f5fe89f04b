-- ===== src/Txn/Order.antt =====
-- The calls that build a transaction, in sequence: which sequences a builder accepts, and what it
-- holds after them.
use regatta_go.Prelude.{
  any, ||-assoc, ||-false, ℕ, suc, leb, if◌then◌else◌, inl, inr, Bool-cases, ◌≡◌, refl, ap, ◌∙◌,
  sym, Bool, true, false, ◌&&◌, ◌||◌, List, [], ◌∷◌, ◌++◌, arith,
}
use mathlib.Core.Bool.{false≢true}
use mathlib.Core.List.{append-nil, append_assoc}
use regatta_go.Go.{Go, ok, panic, is_ok, ◌>>=◌}
use regatta_go.Op.{Cmp, Op, is_write}
use regatta_go.Op.Requests.{any-append}
use regatta_go.Txn.{Builder, fresh, txn_if, then_loop, txn_then, else_loop, txn_else}

pub data Call : Type 0 where
  if_ : List Cmp → Call
  then_ : List Op → Call
  else_ : List Op → Call

unfoldable pub step : Builder → Call → Go Builder
step b (if_ cs) = txn_if b cs
step b (then_ ops) = txn_then b ops
step b (else_ ops) = txn_else b ops

-- The calls one after the other; the first panic ends them.
unfoldable pub run : Builder → List Call → Go Builder
unfolding step
run b [] = ok b
run b (c ∷ cs) = step b c >>= λ b'. run b' cs

-- `If` comes before `Then`, and `Then` before `Else`.
abbrev pub rank : Call → ℕ
rank (if_ cs) = 0
rank (then_ ops) = 1
rank (else_ ops) = 2

-- The ranks rise strictly, from `n` on.
abbrev pub rises : ℕ → List Call → Bool
rises n [] = true
rises n (c ∷ cs) = leb n (rank c) && rises (suc (rank c)) cs

-- The least rank that a builder takes.
abbrev level : Builder → ℕ
level b = if b.celse then 3 else if b.cthen then 2 else if b.cif then 1 else 0

then_loop-eq :
    (b : Builder) (os : List Op)
    → then_loop b os ≡ record b { writes = b.writes || any is_write os; sus = b.sus ++ os }
unfolding then_loop
then_loop-eq b [] = λ i. record b { writes = ||-false b.writes i; sus = sym (append-nil b.sus) i }
then_loop-eq b (o ∷ os) =
    then_loop-eq (record b { writes = b.writes || is_write o; sus = b.sus ++ o ∷ [] }) os ∙ (λ i.
      record b {
        writes = ||-assoc b.writes (is_write o) (any is_write os) i;
        sus = append_assoc b.sus (o ∷ []) os i;
      })

else_loop-eq :
    (b : Builder) (os : List Op)
    → else_loop b os ≡ record b { writes = b.writes || any is_write os; fas = b.fas ++ os }
unfolding else_loop
else_loop-eq b [] = λ i. record b { writes = ||-false b.writes i; fas = sym (append-nil b.fas) i }
else_loop-eq b (o ∷ os) =
    else_loop-eq (record b { writes = b.writes || is_write o; fas = b.fas ++ o ∷ [] }) os ∙ (λ i.
      record b {
        writes = ||-assoc b.writes (is_write o) (any is_write os) i;
        fas = append_assoc b.fas (o ∷ []) os i;
      })

-- What a call that is accepted leaves.
abbrev after : Builder → Call → Builder
after b (if_ cs) = record b { cif = true; cmps = b.cmps ++ cs }
after b (then_ ops) = record b {
  cthen = true;
  writes = b.writes || any is_write ops;
  sus = b.sus ++ ops;
}
after b (else_ ops) = record b {
  celse = true;
  writes = b.writes || any is_write ops;
  fas = b.fas ++ ops;
}

step-below : (b : Builder) (c : Call) → leb (level b) (rank c) ≡ true → step b c ≡ ok (after b c)
unfolding step txn_if txn_then txn_else
step-below b (if_ cs) h = ground arith
step-below b (then_ ops) h = ground (arith, then_loop-eq (record b { cthen = true }) ops)
step-below b (else_ ops) h = ground (arith, else_loop-eq (record b { celse = true }) ops)

step-above : (b : Builder) (c : Call) → leb (level b) (rank c) ≡ false → is_ok (step b c) ≡ false
unfolding step txn_if txn_then txn_else
step-above b (if_ cs) h = ground arith
step-above b (then_ ops) h = ground arith
step-above b (else_ ops) h = ground arith

level-after :
    (b : Builder) (c : Call) → leb (level b) (rank c) ≡ true → level (after b c) ≡ suc (rank c)
level-after b (if_ cs) h = ground arith
level-after b (then_ ops) h = ground arith
level-after b (else_ ops) h = ground arith

-- What the calls hold, kind by kind.
abbrev pub cmps_in : List Call → List Cmp
cmps_in [] = []
cmps_in (if_ a ∷ cs) = a ++ cmps_in cs
cmps_in (then_ a ∷ cs) = cmps_in cs
cmps_in (else_ a ∷ cs) = cmps_in cs

abbrev pub then_in : List Call → List Op
then_in [] = []
then_in (if_ a ∷ cs) = then_in cs
then_in (then_ a ∷ cs) = a ++ then_in cs
then_in (else_ a ∷ cs) = then_in cs

abbrev pub else_in : List Call → List Op
else_in [] = []
else_in (if_ a ∷ cs) = else_in cs
else_in (then_ a ∷ cs) = else_in cs
else_in (else_ a ∷ cs) = a ++ else_in cs

not_ok-bind :
    (m : Go Builder) (f : Builder → Go Builder) → is_ok m ≡ false → is_ok (m >>= f) ≡ false
not_ok-bind (ok b) f h = cc
not_ok-bind (panic s) f h = refl

run-rises : (b : Builder) (cs : List Call) → is_ok (run b cs) ≡ rises (level b) cs
unfolding run
run-rises b [] = refl
run-rises b (c ∷ cs) = elim (Bool-cases (leb (level b) (rank c))) [
  | inl h ↦
      rw (h, step-below b c h) (run-rises (after b c) cs ∙ ap (λ n. rises n cs) (level-after b c h))
  | inr h ↦ rw h (not_ok-bind (step b c) (λ b'. run b' cs) (step-above b c h))
]

-- A fresh transaction accepts a sequence of calls exactly when it holds `If`, `Then` and `Else` each
-- at most once and in that order; any other sequence panics.
pub run-accepts : (cs : List Call) → is_ok (run fresh cs) ≡ rises 0 cs
unfolding fresh
run-accepts cs = run-rises fresh cs

abbrev finish : Builder → List Call → Builder
finish b [] = b
finish b (c ∷ cs) = finish (after b c) cs

run-finish :
    (b : Builder) (cs : List Call) → rises (level b) cs ≡ true → run b cs ≡ ok (finish b cs)
unfolding run
run-finish b [] h = refl
run-finish b (c ∷ cs) h = elim (Bool-cases (leb (level b) (rank c))) [
  | inl e ↦ rw (step-below b c e) (run-finish (after b c) cs (rw (level-after b c e) (rw e at h)))
  | inr e ↦ absurd (false≢true (rw e at h))
]

cmps-finish : (b : Builder) (cs : List Call) → (finish b cs).cmps ≡ b.cmps ++ cmps_in cs
cmps-finish b [] = sym (append-nil b.cmps)
cmps-finish b (if_ a ∷ cs) = cmps-finish (after b (if_ a)) cs ∙ append_assoc b.cmps a (cmps_in cs)
cmps-finish b (then_ a ∷ cs) = cmps-finish (after b (then_ a)) cs
cmps-finish b (else_ a ∷ cs) = cmps-finish (after b (else_ a)) cs

sus-finish : (b : Builder) (cs : List Call) → (finish b cs).sus ≡ b.sus ++ then_in cs
sus-finish b [] = sym (append-nil b.sus)
sus-finish b (if_ a ∷ cs) = sus-finish (after b (if_ a)) cs
sus-finish b (then_ a ∷ cs) = sus-finish (after b (then_ a)) cs ∙ append_assoc b.sus a (then_in cs)
sus-finish b (else_ a ∷ cs) = sus-finish (after b (else_ a)) cs

fas-finish : (b : Builder) (cs : List Call) → (finish b cs).fas ≡ b.fas ++ else_in cs
fas-finish b [] = sym (append-nil b.fas)
fas-finish b (if_ a ∷ cs) = fas-finish (after b (if_ a)) cs
fas-finish b (then_ a ∷ cs) = fas-finish (after b (then_ a)) cs
fas-finish b (else_ a ∷ cs) = fas-finish (after b (else_ a)) cs ∙ append_assoc b.fas a (else_in cs)

abbrev writes_in : List Call → Bool
writes_in cs = any is_write (then_in cs) || any is_write (else_in cs)

writes-finish : (b : Builder) (cs : List Call) → (finish b cs).writes ≡ (b.writes || writes_in cs)
writes-finish b [] = ||-false b.writes
writes-finish b (if_ a ∷ cs) = writes-finish (after b (if_ a)) cs
writes-finish b (then_ a ∷ cs) =
    ground (arith, writes-finish (after b (then_ a)) cs, any-append is_write a (then_in cs))
writes-finish b (else_ a ∷ cs) =
    ground (arith, writes-finish (after b (else_ a)) cs, any-append is_write a (else_in cs))

-- Calls in order succeed, and the transaction then holds exactly the comparisons and operations that
-- they were given, in their order, and is a write exactly when one of its operations is.
pub run-holds :
    (cs : List Call)
    → rises 0 cs ≡ true
    → (b : Builder) × (run fresh cs ≡ ok b)
      × (b.cmps ≡ cmps_in cs)
      × (b.sus ≡ then_in cs)
      × (b.fas ≡ else_in cs)
      × (b.writes ≡ (any is_write (then_in cs) || any is_write (else_in cs)))
unfolding fresh
run-holds cs h = (
  finish fresh cs,
  run-finish fresh cs h,
  cmps-finish fresh cs,
  sus-finish fresh cs,
  fas-finish fresh cs,
  writes-finish fresh cs,
)

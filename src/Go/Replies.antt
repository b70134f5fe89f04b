-- ===== src/Go/Replies.antt =====
-- Chains of calls that return `(value, err)`: the first error ends them.
use regatta_go.Prelude.{Bool, true, false, if◌then◌else◌}
use regatta_go.Env.{Reply, resp, fail}

infixl 5 ◌>>=◌
abbrev pub ◌>>=◌ : {E A B : Type 0} → Reply E A → (A → Reply E B) → Reply E B
◌>>=◌ (resp a) f = f a
◌>>=◌ (fail e) f = fail e

-- `err == nil`
abbrev pub is_resp : {E A : Type 0} → Reply E A → Bool
is_resp (resp a) = true
is_resp (fail e) = false

-- What holds of the value, if there is one.
pub data Ensures {E A : Type 0} (P : A → Type 0) : Reply E A → Type 0 where
  value : {a : A} → P a → Ensures P (resp a)
  error : {e : E} → Ensures P (fail e)

pub Ensures-bind :
    {E A B : Type 0} {P : B → Type 0} (m : Reply E A) {f : A → Reply E B}
    → ((a : A) → Ensures P (f a))
    → Ensures P (m >>= f)
Ensures-bind (resp a) h = h a
Ensures-bind (fail e) h = error

pub Ensures-if :
    {E A : Type 0} {P : A → Type 0} (b : Bool) {x y : Reply E A}
    → Ensures P x
    → Ensures P y
    → Ensures P (if b then x else y)
Ensures-if true p q = p
Ensures-if false p q = q

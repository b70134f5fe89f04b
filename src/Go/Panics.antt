-- ===== src/Go/Panics.antt =====
-- A Go call that returns or panics.
use regatta_go.Prelude.{String, Bool, true, false, ◌≡◌, refl}

-- A call that returns a value, or panics with a message.
pub data Go {ℓ} (A : Type ℓ) : Type ℓ where
  ok : A → Go A
  panic : String → Go A

infixl 5 ◌>>=◌
abbrev pub ◌>>=◌ {ℓ κ} : {A : Type ℓ} {B : Type κ} → Go A → (A → Go B) → Go B
ok a >>= f = f a
panic m >>= f = panic m

abbrev pub is_ok {ℓ} : {A : Type ℓ} → Go A → Bool
is_ok (ok a) = true
is_ok (panic m) = false

-- A chain that returned has returned at each step.
pub >>=-eq_ok {ℓ κ} :
    {A : Type ℓ} {B : Type κ} (m : Go A) (f : A → Go B) {b : B}
    → (m >>= f) ≡ ok b
    → (a : A) × (m ≡ ok a) × (f a ≡ ok b)
>>=-eq_ok (ok a) f h = (a, refl, h)
>>=-eq_ok (panic m) f h = cc

pub ok-injective {ℓ} : {A : Type ℓ} (a b : A) → ◌≡◌ {A = Go A} (ok a) (ok b) → a ≡ b
ok-injective a b h = cc

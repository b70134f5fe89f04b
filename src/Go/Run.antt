-- ===== src/Go/Run.antt =====
-- Code that reads and writes a world `W` and may panic. What was written before a panic stays.
use regatta_go.Prelude.{String, ◌≡◌, refl, ap}
use regatta_go.Go.Panics.{Go, ok, panic}

abbrev pub Run : Type 0 → Type 0 → Type 0
Run W A = W → Go A × W

abbrev pub pure : {W A : Type 0} → A → Run W A
pure a w = (ok a, w)

abbrev pub raise : {W A : Type 0} → String → Run W A
raise m w = (panic m, w)

abbrev pub lift : {W A : Type 0} → Go A → Run W A
lift g w = (g, w)

abbrev pub gets : {W A : Type 0} → (W → A) → Run W A
gets f w = (ok (f w), w)

abbrev continue : {W A B : Type 0} → Go A → (A → Run W B) → Run W B
continue (ok a) f w = f a w
continue (panic m) f w = (panic m, w)

infixl 5 ◌>>=◌ ◌>>◌
abbrev pub ◌>>=◌ : {W A B : Type 0} → Run W A → (A → Run W B) → Run W B
◌>>=◌ m f w = continue (m w).0 f (m w).1

abbrev pub ◌>>◌ : {W A B : Type 0} → Run W A → Run W B → Run W B
◌>>◌ m k = m >>= λ _. k

-- A chain whose first step is known.
pub >>=-known :
    {W A B : Type 0} (m : Run W A) (f : A → Run W B) (w : W) {w' : W} {a : A}
    → m w ≡ (ok a, w')
    → (m >>= f) w ≡ f a w'
>>=-known m f w h = ap (λ p. continue p.0 f p.1) h

-- A chain whose second step keeps the world leaves the world of the first.
pub >>=-world :
    {W A B : Type 0} (m : Run W A) (f : A → Run W B) (w : W)
    → ((a : A) (w : W) → (f a w).1 ≡ w)
    → ((m >>= f) w).1 ≡ (m w).1
>>=-world {W = W} {A = A} m f w keeps = by_result (m w).0 (m w).1
  where
    by_result : (g : Go A) (w : W) → (continue g f w).1 ≡ w
    by_result (ok a) w = keeps a w
    by_result (panic p) w = refl

-- A chain whose first step panics.
pub >>=-panics :
    {W A B : Type 0} (m : Run W A) (f : A → Run W B) (w : W) {w' : W} {p : String}
    → m w ≡ (panic p, w')
    → (m >>= f) w ≡ (panic p, w')
>>=-panics m f w h = ap (λ q. continue q.0 f q.1) h

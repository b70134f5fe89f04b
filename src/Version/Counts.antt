-- ===== src/Version/Counts.antt =====
-- What a move of a goroutine of `checkVersion` changes: the steps left, the results sent, the errors
-- among them.
use regatta_go.Prelude.{
  ℕ, suc, ◌+◌, ◌<◌, ◌≤◌, ◌≡◌, refl, sym, ap, ◌∙◌, all, Bool, true, false, Option, none, some, List,
  [], ◌∷◌, ◌++◌, length, arith,
}
use regatta_go.Version.Goroutines.{
  Routine, asking, holding, done, Main, receiving, waiting, returned, State, state, done_count,
  Moves, answers, give_up, hands_in, other,
}

module _ (E : Type 0) where
  -- No error.
  abbrev pub good : Option E → Bool
  good none = true
  good (some e) = false

  -- The steps that are left at most.
  abbrev pub left : List (Routine E) → ℕ
  left [] = 0
  left (asking own ∷ rs) = 3 + left rs
  left (holding own r ∷ rs) = 2 + left rs
  left (done own ∷ rs) = left rs

  abbrev pub left_main : Main E → ℕ
  left_main (receiving k) = 2
  left_main (waiting e) = 1
  left_main (returned e) = 0

  abbrev pub left_of : State E → ℕ
  left_of (state rs q cap m) = left rs + length q + left_main m

  abbrev pub owns : List (Routine E) → List (Option E)
  owns [] = []
  owns (asking own ∷ rs) = own ∷ owns rs
  owns (holding own r ∷ rs) = own ∷ owns rs
  owns (done own ∷ rs) = own ∷ owns rs

  -- Errors in the channel, and of the goroutines that have sent.
  abbrev pub bad : List (Option E) → ℕ
  bad [] = 0
  bad (none ∷ q) = bad q
  bad (some e ∷ q) = suc (bad q)

  abbrev pub bad_sent : List (Routine E) → ℕ
  bad_sent [] = 0
  bad_sent (asking own ∷ rs) = bad_sent rs
  bad_sent (holding own r ∷ rs) = bad_sent rs
  bad_sent (done own ∷ rs) = bad (own ∷ []) + bad_sent rs

  -- What is held is what `Status` gave.
  abbrev pub Honest : List (Routine E) → Type 0
  Honest [] = Unit
  Honest (holding own r ∷ rs) = (r ≡ own) × Honest rs
  Honest (_ ∷ rs) = Honest rs

  pub bad-snoc : (q : List (Option E)) (r : Option E) → bad (q ++ r ∷ []) ≡ bad q + bad (r ∷ [])
  bad-snoc [] r = omega arith
  bad-snoc (none ∷ q) r = bad-snoc q r
  bad-snoc (some e ∷ q) r = omega (arith, bad-snoc q r)

  pub bad-length : (q : List (Option E)) → bad q ≤ length q
  bad-length [] = omega arith
  bad-length (none ∷ q) = omega (arith, bad-length q)
  bad-length (some e ∷ q) = omega (arith, bad-length q)

  pub all-bad : (os : List (Option E)) → bad os ≡ 0 → all good os ≡ true
  all-bad [] h = refl
  all-bad (none ∷ os) h = all-bad os h
  all-bad (some e ∷ os) h = absurd (omega arith)

  pub bad-all : (os : List (Option E)) → 0 < bad os → all good os ≡ false
  bad-all [] h = absurd (omega arith)
  bad-all (none ∷ os) h = bad-all os h
  bad-all (some e ∷ os) h = refl

  pub bad_sent-owns : (rs : List (Routine E)) → bad_sent rs ≤ bad (owns rs)
  bad_sent-owns [] = omega arith
  bad_sent-owns (asking none ∷ rs) = bad_sent-owns rs
  bad_sent-owns (asking (some e) ∷ rs) = omega (arith, bad_sent-owns rs)
  bad_sent-owns (holding none r ∷ rs) = bad_sent-owns rs
  bad_sent-owns (holding (some e) r ∷ rs) = omega (arith, bad_sent-owns rs)
  bad_sent-owns (done none ∷ rs) = omega (arith, bad_sent-owns rs)
  bad_sent-owns (done (some e) ∷ rs) = omega (arith, bad_sent-owns rs)

  pub done_count-length : (rs : List (Routine E)) → done_count E rs ≤ length rs
  done_count-length [] = omega arith
  done_count-length (asking own ∷ rs) = omega (arith, done_count-length rs)
  done_count-length (holding own r ∷ rs) = omega (arith, done_count-length rs)
  done_count-length (done own ∷ rs) = omega (arith, done_count-length rs)

  -- If all have sent, every error was sent.
  pub done_count-bad :
      (rs : List (Routine E)) → done_count E rs ≡ length rs → bad_sent rs ≡ bad (owns rs)
  done_count-bad [] h = refl
  done_count-bad (asking own ∷ rs) h = absurd (omega (arith, done_count-length rs))
  done_count-bad (holding own r ∷ rs) h = absurd (omega (arith, done_count-length rs))
  done_count-bad (done none ∷ rs) h = omega (arith, done_count-bad rs (omega arith))
  done_count-bad (done (some e) ∷ rs) h = omega (arith, done_count-bad rs (omega arith))

  pub owns-length : (rs : List (Routine E)) → length (owns rs) ≡ length rs
  owns-length [] = refl
  owns-length (asking own ∷ rs) = omega (arith, owns-length rs)
  owns-length (holding own r ∷ rs) = omega (arith, owns-length rs)
  owns-length (done own ∷ rs) = omega (arith, owns-length rs)

  abbrev pub sent_count : Option (Option E) → ℕ
  sent_count none = 0
  sent_count (some r) = 1

  abbrev pub sent_bad : Option (Option E) → ℕ
  sent_bad none = 0
  sent_bad (some r) = bad (r ∷ [])

  pub Moves-owns :
      {b : Bool} {rs rs' : List (Routine E)} {x : Option (Option E)}
      → Moves E b rs rs' x
      → owns rs' ≡ owns rs
  Moves-owns answers = refl
  Moves-owns (give_up e) = refl
  Moves-owns hands_in = refl
  Moves-owns (other {r = asking own} m) = ap (λ os. own ∷ os) (Moves-owns m)
  Moves-owns (other {r = holding own r} m) = ap (λ os. own ∷ os) (Moves-owns m)
  Moves-owns (other {r = done own} m) = ap (λ os. own ∷ os) (Moves-owns m)

  pub Moves-counts :
      {b : Bool} {rs rs' : List (Routine E)} {x : Option (Option E)}
      → Moves E b rs rs' x
      → (done_count E rs' ≡ done_count E rs + sent_count x)
        × (left rs ≡ left rs' + 1 + sent_count x)
  Moves-counts answers = (omega arith, omega arith)
  Moves-counts (give_up e) = (omega arith, omega arith)
  Moves-counts hands_in = (omega arith, omega arith)
  Moves-counts (other {r = asking own} m) =
      let (f, l) = Moves-counts m in (omega arith, omega arith)
  Moves-counts (other {r = holding own r} m) =
      let (f, l) = Moves-counts m in (omega arith, omega arith)
  Moves-counts (other {r = done own} m) = let (f, l) = Moves-counts m in (omega arith, omega arith)

  -- As long as nothing is cancelled, what is sent is a goroutine's own result.
  pub Moves-Honest :
      {b : Bool} {rs rs' : List (Routine E)} {x : Option (Option E)}
      → Moves E b rs rs' x
      → b ≡ false
      → Honest rs
      → Honest rs' × (bad_sent rs' ≡ bad_sent rs + sent_bad x)
  Moves-Honest answers f h = ((refl, h), omega arith)
  Moves-Honest (give_up e) f h = cc
  Moves-Honest (hands_in {own = own} {r = r} {rs = rs}) f (e, h) =
      (h, ap (λ o. bad (o ∷ []) + bad_sent rs) (sym e) ∙ omega arith)
  Moves-Honest (other {r = asking own} m) f h = Moves-Honest m f h
  Moves-Honest (other {r = holding own r} m) f (e, h) =
      let (h', c) = Moves-Honest m f h in ((e, h'), c)
  Moves-Honest (other {r = done own} m) f h = let (h', c) = Moves-Honest m f h in (h', omega arith)

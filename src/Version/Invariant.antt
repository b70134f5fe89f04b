-- ===== src/Version/Invariant.antt =====
-- The invariant of the goroutines of `checkVersion`: what the counts of results and errors are while the
-- results are read, and that each step keeps it.
use regatta_go.Prelude.{
  ◌+◌, ◌≤◌, ◌≡◌, refl, sym, ap, ◌∙◌, all, Option, none, some, List, [], ◌∷◌, ◌++◌, length,
  length-append, arith,
}
use regatta_go.Version.Goroutines.{
  Routine, Main, receiving, waiting, returned, cancelled, State, state, done_count, Moves, Step,
  works, sends, reads, breaks, all_read, returns,
}
use regatta_go.Version.Counts.{
  good, owns, bad, bad_sent, Honest, bad-snoc, all-bad, bad-all, bad_sent-owns, done_count-length,
  done_count-bad, bad-length, owns-length, Moves-owns, Moves-counts, Moves-Honest,
}

module _ (E : Type 0) (os : List (Option E)) where
  -- While results are read, the ones that were sent are read or in the channel, and none that was read
  -- is an error; then the answer is right.
  unfoldable pub ByMain : List (Routine E) → List (Option E) → Main E → Type 0
  ByMain rs q (receiving k) =
      (k ≤ length os)
      × (done_count E rs + k ≡ length os + length q)
      × (bad E q ≡ bad_sent E rs)
      × Honest E rs
  ByMain rs q (waiting e) = (length q ≤ done_count E rs) × (good E e ≡ all (good E) os)
  ByMain rs q (returned e) = (length q ≤ done_count E rs) × (good E e ≡ all (good E) os)

  unfoldable pub Holds : State E → Type 0
  unfolding ByMain
  Holds (state rs q width m) = (owns E rs ≡ os) × (width ≡ length os) × ByMain rs q m

  Moves-ByMain :
      {rs rs' : List (Routine E)} (q : List (Option E)) (m : Main E)
      → Moves E (cancelled E m) rs rs' none
      → ByMain rs q m
      → ByMain rs' q m
  unfolding ByMain
  Moves-ByMain q (receiving k) move (k_le, count, errors, honest) =
      let (f, l) = Moves-counts E move in
      let (honest', same) = Moves-Honest E move refl honest in
      (k_le, omega arith, omega arith, honest')
  Moves-ByMain q (waiting e) move (room, right) =
      let (f, l) = Moves-counts E move in (omega arith, right)
  Moves-ByMain q (returned e) move (room, right) =
      let (f, l) = Moves-counts E move in (omega arith, right)

  sends-ByMain :
      {rs rs' : List (Routine E)} (q : List (Option E)) (m : Main E) (r : Option E)
      → Moves E (cancelled E m) rs rs' (some r)
      → ByMain rs q m
      → ByMain rs' (q ++ r ∷ []) m
  unfolding ByMain
  sends-ByMain q (receiving k) r move (k_le, count, errors, honest) =
      let (f, l) = Moves-counts E move in
      let (honest', more) = Moves-Honest E move refl honest in
      let longer = length-append q (r ∷ []) in
      (k_le, omega arith, omega (arith, bad-snoc E q r), honest')
  sends-ByMain q (waiting e) r move (room, right) =
      let (f, l) = Moves-counts E move in (omega (arith, length-append q (r ∷ [])), right)
  sends-ByMain q (returned e) r move (room, right) =
      let (f, l) = Moves-counts E move in (omega (arith, length-append q (r ∷ [])), right)

  -- When as many results were read as there are goroutines, all were sent.
  none-bad :
      (rs : List (Routine E)) (q : List (Option E))
      → owns E rs ≡ os
      → done_count E rs + 0 ≡ length os + length q
      → bad E q ≡ bad_sent E rs
      → bad E os ≡ 0
  none-bad rs q o count errors =
      let size : length rs ≡ length os = sym (owns-length E rs) ∙ ap length o in
      let all_sent : done_count E rs ≡ length rs = omega (arith, done_count-length E rs) in
      omega
        (arith, done_count-length E rs, done_count-bad E rs all_sent, ap (bad E) o, bad-length E q)

  pub Step-Holds : {s t : State E} → Step E s t → Holds s → Holds t
  unfolding Holds ByMain
  Step-Holds (works {q = q} {m = m} move) (o, c, h) =
      (Moves-owns E move ∙ o, c, Moves-ByMain q m move h)
  Step-Holds (sends {q = q} {m = m} {r = r} move room) (o, c, h) =
      (Moves-owns E move ∙ o, c, sends-ByMain q m r move h)
  Step-Holds reads (o, c, (k_le, count, errors, honest)) =
      (o, c, (omega arith, omega arith, errors, honest))
  Step-Holds (breaks {rs = rs} {k = k} {e = e}) (o, c, (k_le, count, errors, honest)) =
      (o, c, (omega arith, sym (bad-all E os (omega (arith, ap (bad E) o, bad_sent-owns E rs)))))
  Step-Holds (all_read {rs = rs} {q = q}) (o, c, (k_le, count, errors, honest)) =
      (o, c, (omega arith, sym (all-bad E os (none-bad rs q o count errors))))
  Step-Holds (returns f) h = h

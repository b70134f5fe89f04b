-- ===== src/Version/Schedules.antt =====
-- `checkVersion` under every schedule of its goroutines: it always returns, within a bounded number of
-- steps, and its answer does not depend on the schedule.
use regatta_go.Prelude.{
  ℕ, zero, suc, ◌+◌, ◌*◌, ◌<◌, ◌≤◌, ◌≡◌, refl, sym, ap, ◌∙◌, ◌⊎◌, inl, inr, all, Bool, true, false,
  Option, none, some, List, [], ◌∷◌, ◌++◌, length, length-append, length-map, map, arith,
}
use regatta_go.Version.Goroutines.{
  HasReturned, Routine, asking, holding, done, Main, receiving, waiting, returned, cancelled, State,
  state, start, done_count, Moves, answers, hands_in, other, Step, works, sends, reads, breaks,
  all_read, returns, Steps, here, next,
}
use regatta_go.Version.Counts.{
  good, left, left_of, owns, bad_sent, Honest, done_count-length, owns-length, Moves-owns,
  Moves-counts,
}
use regatta_go.Version.Invariant.{ByMain, Holds, Step-Holds}

module _ (E : Type 0) (os : List (Option E)) where
  unfinished :
      (b : Bool) (rs : List (Routine E))
      → (done_count E rs ≡ length rs)
        ⊎ ((rs' : List (Routine E)) × (x : Option (Option E)) × Moves E b rs rs' x)
  unfinished b [] = inl refl
  unfinished b (asking own ∷ rs) = inr (holding own own ∷ rs, none, answers)
  unfinished b (holding own r ∷ rs) = inr (done own ∷ rs, some r, hands_in)
  unfinished b (done own ∷ rs) = elim (unfinished b rs) [
    | inl f ↦ inl (omega arith)
    | inr (rs', x, m) ↦ inr (done own ∷ rs', x, other m)
  ]

  -- The channel holds at most the results that were sent.
  in_channel :
      (rs : List (Routine E)) (q : List (Option E)) (m : Main E)
      → ByMain E os rs q m
      → length q ≤ done_count E rs
  unfolding ByMain
  in_channel rs q (receiving k) (k_le, count, errors, honest) = omega arith
  in_channel rs q (waiting e) (room, right) = room
  in_channel rs q (returned e) (room, right) = room

  -- There is room for a result that is still to be sent.
  room_for :
      (rs rs' : List (Routine E)) (q : List (Option E)) (width : ℕ) (m : Main E) (r : Option E)
      → Moves E (cancelled E m) rs rs' (some r)
      → Holds E os (state rs q width m)
      → length q < width
  unfolding Holds
  room_for rs rs' q width m r move (o, c, h) =
      let (f, l) = Moves-counts E move in
      let size : length rs ≡ length os = sym (owns-length E rs) ∙ ap length o in
      let size' : length rs' ≡ length os =
        sym (owns-length E rs') ∙ ap length (Moves-owns E move ∙ o) in
      omega (arith, in_channel rs q m h, done_count-length E rs')

  -- What has not returned can go on.
  progress :
      (s : State E)
      → Holds E os s
      → ((e : Option E) × HasReturned E e s) ⊎ ((t : State E) × Step E s t)
  unfolding Holds ByMain
  progress (state rs q width (returned e)) h = inl (e, refl)
  progress (state rs q width (waiting e)) h = elim (unfinished true rs) [
    | inl f ↦ inr (state rs q width (returned e), returns f)
    | inr (rs', none, m) ↦ inr (state rs' q width (waiting e), works m)
    | inr (rs', some r, m) ↦ inr (
      state rs' (q ++ r ∷ []) width (waiting e),
      sends m (room_for rs rs' q width (waiting e) r m h),
    )
  ]
  progress (state rs q width (receiving zero)) h = inr (state rs q width (waiting none), all_read)
  progress (state rs (none ∷ q) width (receiving (suc k))) h =
      inr (state rs q width (receiving k), reads)
  progress (state rs (some e ∷ q) width (receiving (suc k))) h =
      inr (state rs q width (waiting (some e)), breaks)
  progress (state rs [] width (receiving (suc k))) (o, c, h) = elim (unfinished false rs) [
    | inl f ↦
        let size : length rs ≡ length os = sym (owns-length E rs) ∙ ap length o in
        absurd (omega (arith, h.1))
    | inr (rs', none, m) ↦ inr (state rs' [] width (receiving (suc k)), works m)
    | inr (rs', some r, m) ↦ inr (
      state rs' (r ∷ []) width (receiving (suc k)),
      sends m (room_for rs rs' [] width (receiving (suc k)) r m (o, c, h)),
    )
  ]

  -- Each step leaves fewer.
  Step-left : {s t : State E} → Step E s t → left_of E t < left_of E s
  Step-left (works {q = q} {m = m} move) = let (f, l) = Moves-counts E move in omega arith
  Step-left (sends {q = q} {m = m} {r = r} move room) =
      let (f, l) = Moves-counts E move in omega (arith, length-append q (r ∷ []))
  Step-left reads = omega arith
  Step-left breaks = omega arith
  Step-left all_read = omega arith
  Step-left (returns f) = omega arith

  start-owns : (xs : List (Option E)) → owns E (map asking xs) ≡ xs
  start-owns [] = refl
  start-owns (x ∷ xs) = ap (λ ys. x ∷ ys) (start-owns xs)

  start-counts :
      (xs : List (Option E))
      → (done_count E (map asking xs) ≡ 0)
        × (bad_sent E (map asking xs) ≡ 0)
        × Honest E (map asking xs)
        × (left E (map asking xs) ≡ 3 * length xs)
  start-counts [] = (refl, refl, tt, omega arith)
  start-counts (x ∷ xs) = let (f, b, h, l) = start-counts xs in (f, b, h, omega arith)

  start-Holds : Holds E os (start E os)
  unfolding Holds ByMain start
  start-Holds =
      let (f, b, h, l) = start-counts os in
      (start-owns os, refl, (omega arith, omega arith, sym b, h))

  Steps-Holds :
      {n : ℕ} {s t : State E}
      → Steps E n s t
      → Holds E os s
      → Holds E os t × (n + left_of E t ≤ left_of E s)
  Steps-Holds here h = (h, omega arith)
  Steps-Holds (next run last) h =
      let (h', l) = Steps-Holds run h in
      let fewer = Step-left last in (Step-Holds E os last h', omega arith)

  returned-right :
      (t : State E) → Holds E os t → (e : Option E) → HasReturned E e t → good E e ≡ all (good E) os
  unfolding Holds ByMain
  returned-right (state rs q width (returned e')) (o, c, (room, right)) e r =
      let same : e' ≡ e = cc in ap (good E) (sym same) ∙ right
  returned-right (state rs q width (waiting e')) h e r = cc
  returned-right (state rs q width (receiving k)) h e r = cc

  -- In whatever order the goroutines of `checkVersion` and the function itself go on, a run has at most
  -- two steps and three for each endpoint; as long as the function has not returned there is a
  -- further step, so a send never blocks for good and the function returns; and it returns no error
  -- exactly if no endpoint's own result is an error. The calls of `Status` are taken to return.
  pub Steps-return :
      (n : ℕ) (t : State E)
      → Steps E n (start E os) t
      → (n ≤ 3 * length os + 2)
        × (((e : Option E) × HasReturned E e t × (good E e ≡ all (good E) os))
            ⊎ ((u : State E) × Step E t u))
  unfolding Holds ByMain start
  Steps-return n t run =
      let (h, l) = Steps-Holds run start-Holds in
      let (f, b, honest, most) = start-counts os in
      (omega (arith, length-map asking os), answered t h)
    where
      answered :
          (t : State E)
          → Holds E os t
          → ((e : Option E) × HasReturned E e t × (good E e ≡ all (good E) os))
            ⊎ ((u : State E) × Step E t u)
      answered t h = elim (progress t h) [
        | inl (e, r) ↦ inl (e, r, returned-right t h e r)
        | inr further ↦ inr further
      ]

  pub Steps-returned :
      (n : ℕ) (t : State E) (e : Option E)
      → Steps E n (start E os) t
      → HasReturned E e t
      → good E e ≡ all (good E) os
  Steps-returned n t e run ended = returned-right t (Steps-Holds run start-Holds).0 e ended

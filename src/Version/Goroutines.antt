-- ===== src/Version/Goroutines.antt =====
-- client.go: `checkVersion` with its goroutines as a system: one for each endpoint, a channel with room
-- for one result of each, and the loop that reads it, cancels the context of the rest and waits for
-- all. What a goroutine gets from `Status` and sends is given, but a goroutine whose context was
-- cancelled may send anything.

use regatta_go.Prelude.{
  ℕ, zero, suc, ◌<◌, ◌≡◌, Bool, true, false, Option, none, some, List, [], ◌∷◌, ◌++◌, length, map,
}

module _ (E : Type 0) where
  -- A goroutine asks, then holds what it will hands_in, then is done. Its own result stands with it.
  pub data Routine : Type 0 where
    asking : Option E → Routine
    holding : Option E → Option E → Routine
    done : Option E → Routine

  -- The function itself: it has so many results to read, waits with its answers, or has returned.
  pub data Main : Type 0 where
    receiving : ℕ → Main
    waiting : Option E → Main
    returned : Option E → Main

  -- The context is cancelled behind the loop.
  abbrev pub cancelled : Main → Bool
  cancelled (receiving k) = false
  cancelled (waiting e) = true
  cancelled (returned e) = true

  -- The goroutines, the channel, its capacity, and the function.
  pub data State : Type 0 where
    state : List Routine → List (Option E) → ℕ → Main → State

  unfoldable pub start : List (Option E) → State
  start owns = state (map asking owns) [] (length owns) (receiving (length owns))

  abbrev pub done_count : List Routine → ℕ
  done_count [] = 0
  done_count (asking own ∷ rs) = done_count rs
  done_count (holding own r ∷ rs) = done_count rs
  done_count (done own ∷ rs) = suc (done_count rs)

  -- One goroutine moves, and what it sends by that.
  pub data Moves (stopped : Bool) : List Routine → List Routine → Option (Option E) → Type 0 where
    answers :
        {own : Option E} {rs : List Routine}
        → Moves stopped (asking own ∷ rs) (holding own own ∷ rs) none
    give_up :
        {own r : Option E} {rs : List Routine}
        → stopped ≡ true
        → Moves stopped (asking own ∷ rs) (holding own r ∷ rs) none
    hands_in :
        {own r : Option E} {rs : List Routine}
        → Moves stopped (holding own r ∷ rs) (done own ∷ rs) (some r)
    other :
        {r : Routine} {rs rs' : List Routine} {x : Option (Option E)}
        → Moves stopped rs rs' x
        → Moves stopped (r ∷ rs) (r ∷ rs') x

  -- A step of the system. A send waits for room in the channel; a read waits for a result, and an
  -- error ends the loop; the end waits for all goroutines.
  pub data Step : State → State → Type 0 where
    works :
        {rs rs' : List Routine} {q : List (Option E)} {width : ℕ} {m : Main}
        → Moves (cancelled m) rs rs' none
        → Step (state rs q width m) (state rs' q width m)
    sends :
        {rs rs' : List Routine} {q : List (Option E)} {width : ℕ} {m : Main} {r : Option E}
        → Moves (cancelled m) rs rs' (some r)
        → length q < width
        → Step (state rs q width m) (state rs' (q ++ r ∷ []) width m)
    reads :
        {rs : List Routine} {q : List (Option E)} {width k : ℕ}
        → Step (state rs (none ∷ q) width (receiving (suc k))) (state rs q width (receiving k))
    breaks :
        {rs : List Routine} {q : List (Option E)} {width k : ℕ} {e : E}
        → Step
            (state rs (some e ∷ q) width (receiving (suc k)))
            (state rs q width (waiting (some e)))
    all_read :
        {rs : List Routine} {q : List (Option E)} {width : ℕ}
        → Step (state rs q width (receiving zero)) (state rs q width (waiting none))
    returns :
        {rs : List Routine} {q : List (Option E)} {width : ℕ} {e : Option E}
        → done_count rs ≡ length rs
        → Step (state rs q width (waiting e)) (state rs q width (returned e))

  -- A run of some steps.
  pub data Steps : ℕ → State → State → Type 0 where
    here : {s : State} → Steps zero s s
    next : {n : ℕ} {s t u : State} → Steps n s t → Step t u → Steps (suc n) s u

  -- The function has returned this.
  abbrev pub HasReturned : Option E → State → Type 0
  HasReturned e (state rs q width m) = m ≡ returned e

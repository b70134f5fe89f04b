-- ===== src/Client/Backoff.antt =====
-- How often a client waits between the attempts of a call.
use native.Mathlib.Nat.{div-add-mod, zero-div, mul-le-mul_left}
use regatta_go.Prelude.{
  ◌≤◌, ◌<◌, ◌*◌, ◌⊎◌, ℕ, zero, suc, ◌+◌, ◌/◌, ◌%◌, ℤ, ◌≡◌, ap, sym, Bool, true, ◌==◌, if◌then◌else◌,
  inl, inr, arith,
}
use regatta_go.Client.{is_positive, round_robin_quorum_backoff}

abbrev pub waits : ℤ → Bool
waits t = is_positive t

-- How many of the attempts 1 to `k` wait.
pub waits_upto : ℕ → ℤ → ℕ → ℕ
waits_upto n jittered zero = 0
waits_upto n jittered (suc k) =
    let before = waits_upto n jittered k in
    if waits (round_robin_quorum_backoff n jittered (suc k)) then before + 1 else before

-- Two neighbours divided by `q`: the quotients are equal, or the second is one more and exact.
module _ (q a b r s k : ℕ) (e : q * a + r ≡ suc k) (f : q * b + s ≡ k) (hr : r < q)
    (hs : s < q) where
  not_less : ¬ (a + 1 ≤ b)
  not_less h = absurd (omega (arith, mul-le-mul_left q h))

  not_more : ¬ (b + 2 ≤ a)
  not_more h = absurd (omega (arith, mul-le-mul_left q h))

  quotients : (a ≡ b) ⊎ (a ≡ b + 1)
  quotients = ground (arith, not_less, not_more)

  remainder : a ≡ (if r == 0 then b + 1 else b)
  remainder = elim quotients [
    | inl h ↦ ground (arith, ap (λ (x : ℕ). q * x) h)
    | inr h ↦ ground (arith, ap (λ (x : ℕ). q * x) h)
  ]

div-step : (k q : ℕ) → suc k / suc q ≡ (if suc k % suc q == 0 then k / suc q + 1 else k / suc q)
div-step k q =
    remainder (suc q) (suc k / suc q) (k / suc q) (suc k % suc q) (k % suc q) k
      (div-add-mod (suc k) (suc q)) (div-add-mod k (suc q)) (omega arith) (omega arith)

-- With `n` endpoints and a positive jittered time, the attempts 1 to `k` wait once for each full
-- round over a quorum of `n / 2 + 1` of them.
pub waits_upto-quorum :
    (n k : ℕ) (jittered : ℤ) → waits jittered ≡ true → waits_upto n jittered k ≡ k / (n / 2 + 1)
unfolding waits_upto round_robin_quorum_backoff
waits_upto-quorum n zero jittered h = sym (zero-div _)
waits_upto-quorum n (suc k) jittered h =
    let e : n / 2 + 1 ≡ suc (n / 2) = omega arith in
    ground (arith, waits_upto-quorum n k jittered h, div-step k (n / 2), e)

-- ===== src/Credentials/Tokens.antt =====
-- The tokens that bundles of credentials send, while bundles are made and given tokens in any order.
use mathlib.Core.Path.{ap₂}
use mathlib.Core.Option as Option
use mathlib.Core.List.{map-append}
use regatta_go.Prelude.{
  ℕ, zero, suc, ◌+◌, ◌≤◌, ◌≡◌, refl, ap, ◌∙◌, sym, Option, none, some, List, [], ◌∷◌, ◌++◌, map,
  length, length-append, length-map, length-modify, get_elem?, get_elem?-map, get_elem?-beyond,
  modify, modify-map, modify-beyond, arith,
}
use regatta_go.Go.{Bytes}
use regatta_go.Credentials.{
  Transports, PerRpcCredential, get_request_metadata, new_per_rpc_credential, set_auth_token,
  TransportCredential, Bundle, new_bundle, per_rpc_credentials, update_auth_token,
}
use regatta_go.Credentials.Stores.{
  Store, Event, make, update, clone, override, update_at, clone_at, step, run, nothing, sent_with,
  sent_at, sent_over, sent, tokens_after, sent_for,
}

module _ (transports : Transports) where
  -- The pointers of the bundles, in order.
  abbrev counted : ℕ → ℕ → List (Option ℕ)
  counted k zero = []
  counted k (suc n) = some k ∷ counted (suc k) n

  counted-snoc : (k n : ℕ) → counted k n ++ some (k + n) ∷ [] ≡ counted k (suc n)
  counted-snoc k zero = ap (λ m. some m ∷ []) (omega arith)
  counted-snoc k (suc n) =
      ap (λ xs. some k ∷ xs)
        (ap (λ m. counted (suc k) n ++ some m ∷ []) (omega arith) ∙ counted-snoc (suc k) n)

  counted-found : (k n i : ℕ) (p : Option ℕ) → get_elem? (counted k n) i ≡ some p → p ≡ some (k + i)
  counted-found k zero i p h = cc
  counted-found k (suc n) zero p h = ground arith
  counted-found k (suc n) (suc i) p h =
      counted-found (suc k) n i p h ∙ ap (λ m. some m) (omega arith)

  counted-missing : (k n i : ℕ) → get_elem? (counted k n) i ≡ none → n ≤ i
  counted-missing k zero i h = omega arith
  counted-missing k (suc n) zero h = cc
  counted-missing k (suc n) (suc i) h = omega (arith, counted-missing (suc k) n i h)

  -- Each bundle points to its own cell, and the cells hold the tokens.
  abbrev Holds : Store transports → List Bytes → Type 0
  Holds s ts =
      (map (λ b. per_rpc_credentials transports b) s.bundles ≡ counted 0 (length ts))
      × (map (λ rc. rc.auth_token) s.heap.rcs ≡ ts)

  -- The token of a bundle is found where the store says.
  rc-found :
      (s : Store transports) (ts : List Bytes) (i : ℕ) (b : Bundle transports)
      → Holds s ts
      → get_elem? s.bundles i ≡ some b
      → per_rpc_credentials transports b ≡ some i
  rc-found s ts i b (ptrs, cells) h =
      counted-found 0 (length ts) i _ (
        ap (λ xs. get_elem? xs i) (sym ptrs)
        ∙ get_elem?-map _ s.bundles i
        ∙ ap (Option.map (per_rpc_credentials transports)) h)
      ∙ ap (λ m. some m) (omega arith)

  rc-missing :
      (s : Store transports) (ts : List Bytes) (i : ℕ)
      → Holds s ts
      → get_elem? s.bundles i ≡ none
      → length ts ≤ i
  rc-missing s ts i (ptrs, cells) h = counted-missing 0 (length ts) i (
      ap (λ xs. get_elem? xs i) (sym ptrs)
      ∙ get_elem?-map _ s.bundles i
      ∙ ap (Option.map (per_rpc_credentials transports)) h)

  counted-snoc_0 :
      (ts : List Bytes)
      → counted 0 (length ts) ++ some (length ts) ∷ [] ≡ counted 0 (length (ts ++ [] ∷ []))
  counted-snoc_0 ts =
      ap (λ n. counted 0 (length ts) ++ some n ∷ []) {x = length ts} {y = 0 + length ts}
        (omega arith)
      ∙ counted-snoc 0 (length ts)
      ∙ ap (counted 0) {x = suc (length ts)} (omega (arith, length-append ts ([] ∷ [])))

  make-Holds :
      (s : Store transports) (ts : List Bytes) (cfg : transports.TlsConfig)
      → Holds s ts
      → Holds (step transports s (make cfg)) (ts ++ [] ∷ [])
  unfolding step new_bundle per_rpc_credentials new_per_rpc_credential
  make-Holds s ts cfg (ptrs, cells) = (
    map-append _ s.bundles _
        ∙ ap₂ (λ xs n. xs ++ some n ∷ []) ptrs (sym (length-map _ s.heap.rcs) ∙ ap length cells)
        ∙ counted-snoc_0 ts,
    map-append _ s.heap.rcs _ ∙ ap (λ xs. xs ++ [] ∷ []) cells,
  )

  update-Holds :
      (s : Store transports) (ts : List Bytes) (i : ℕ) (token : Bytes)
      (o : Option (Bundle transports))
      → Holds s ts
      → get_elem? s.bundles i ≡ o
      → Holds (update_at transports s token o) (modify ts i (λ t. token))
  unfolding update_at update_auth_token per_rpc_credentials set_auth_token
  update-Holds s ts i token none held h =
      rw (modify-beyond ts i (λ t. token) (rc-missing s ts i held h)) held
  update-Holds s ts i token (some b) held h = rw (rc-found s ts i b held h) (
    held.0 ∙ ap (counted 0) (sym (length-modify ts i (λ t. token))),
    modify-map _ _ (λ t. token) s.heap.rcs i (λ rc. refl)
        ∙ ap (λ xs. modify xs i (λ t. token)) held.1,
  )

  clone-Holds :
      (s : Store transports) (ts : List Bytes) (o : Option (TransportCredential transports))
      → Holds s ts
      → Holds (clone_at transports s o) ts
  unfolding clone_at
  clone-Holds s ts none held = held
  clone-Holds s ts (some tc) held = held

  step-Holds :
      (s : Store transports) (ts : List Bytes) (e : Event transports) (es : List (Event transports))
      → Holds s ts
      → (ts' : List Bytes) × Holds (step transports s e) ts'
        × (tokens_after transports ts (e ∷ es) ≡ tokens_after transports ts' es)
  unfolding step
  step-Holds s ts (make cfg) es held = (ts ++ [] ∷ [], make-Holds s ts cfg held, refl)
  step-Holds s ts (update i token) es held =
      (modify ts i (λ t. token), update-Holds s ts i token _ held refl, refl)
  step-Holds s ts (clone i) es held = (ts, clone-Holds s ts _ held, refl)
  step-Holds s ts (override i name) es held = (ts, held, refl)

  run-Holds :
      (s : Store transports) (ts : List Bytes) (es : List (Event transports))
      → Holds s ts
      → Holds (run transports s es) (tokens_after transports ts es)
  unfolding run
  run-Holds s ts [] held = held
  run-Holds s ts (e ∷ es) held =
      let (ts', held', same) = step-Holds s ts e es held in
      rw same (run-Holds (step transports s e) ts' es held')

  sent_at-eq :
      (s : Store transports) (ts : List Bytes) (i : ℕ)
      → map (λ rc. rc.auth_token) s.heap.rcs ≡ ts
      → sent_at transports s (some i) ≡ sent_for transports (get_elem? ts i)
  unfolding sent_at sent_with get_request_metadata
  sent_at-eq s ts i cells = by_cell (get_elem? s.heap.rcs i) refl
    where
      by_cell :
          (o : Option PerRpcCredential)
          → get_elem? s.heap.rcs i ≡ o
          → sent_with transports o ≡ sent_for transports (get_elem? ts i)
      by_cell none h = rw (← cells, get_elem?-map, h)
      by_cell (some rc) h = rw (← cells, get_elem?-map, h)

  sent-Holds :
      (s : Store transports) (ts : List Bytes) (i : ℕ)
      → Holds s ts
      → sent transports s i ≡ sent_for transports (get_elem? ts i)
  unfolding sent sent_over
  sent-Holds s ts i held = by_bundle (get_elem? s.bundles i) refl
    where
      by_bundle :
          (o : Option (Bundle transports))
          → get_elem? s.bundles i ≡ o
          → sent_over transports s o ≡ sent_for transports (get_elem? ts i)
      by_bundle none h = rw (get_elem?-beyond ts i (rc-missing s ts i held h))
      by_bundle (some b) h = rw (rc-found s ts i b held h) (sent_at-eq s ts i held.1)

  -- While bundles are made and given tokens in any order, and their transport credentials cloned and
  -- renamed, a call over a bundle is sent the token that this bundle was given last, under the name
  -- "token", and nothing if that token is empty or none was given.
  pub sent-tokens :
      (es : List (Event transports)) (i : ℕ)
      → sent transports (run transports (nothing transports) es) i
        ≡ sent_for transports (get_elem? (tokens_after transports [] es) i)
  sent-tokens es i = sent-Holds _ _ i (run-Holds (nothing transports) [] es (refl, refl))

-- ===== src/Fake/Answers.antt =====
-- Which answer a get receives from the fake server, and what the client makes of it.
use native.Mathlib.Nat.{zero-add}
use regatta_go.Prelude.{
  ℕ, zero, suc, ◌%◌, ◌<◌, ◌≡◌, refl, ap, ◌∙◌, Option, none, some, List, [], ◌∷◌, length, get_elem?,
  arith,
}
use regatta_go.Go.{ok}
use regatta_go.Go.Run.{>>=-known}
use regatta_go.Env.{Env, resp}
use regatta_go.Proto.{ResponseHeader, RangeRequest, RangeResponse}
use regatta_go.Responses.{GetResponse, get_of}
use regatta_go.Recorded.{conv_to_header_proto}
use regatta_go.Recorded.RoundTrip.{conv_key_values-proto}
use regatta_go.Fake.{
  FakeResponse, FakeKvServer, new_fake, next_response, lift_reply, prepared, answer_with,
  range_message, fake_range,
}
use regatta_go.Fake.Cycle.{
  Request, no_streams, records_of, serve_all, turn, next_response-eq, serve_all-records,
}

get_elem?-below :
    {A : Type 0} (xs : List A) (i : ℕ) → i < length xs → (a : A) × (get_elem? xs i ≡ some a)
get_elem?-below [] i h = absurd (omega arith)
get_elem?-below (x ∷ xs) zero h = (x, refl)
get_elem?-below (x ∷ xs) (suc i) h = get_elem?-below xs i (omega arith)

pub conv_to_header_proto-eq : (h : Option ResponseHeader) → conv_to_header_proto h ≡ h
unfolding conv_to_header_proto
conv_to_header_proto-eq none = refl
conv_to_header_proto-eq (some h) = refl

module _ (env : Env) where
  -- As long as a response is prepared, the index selects one: it never leaves the slice.
  pub turn_total :
      (r : FakeResponse env) (rs : List (FakeResponse env)) (i : ℕ)
      → (a : FakeResponse env) × (turn env (r ∷ rs) i ≡ some a)
  turn_total r rs i = get_elem?-below (r ∷ rs) (i % length (r ∷ rs)) (omega arith)

  pub get_of-message : (g : GetResponse) → get_of (range_message env g) ≡ g
  unfolding get_of range_message
  get_of-message g = rw (conv_to_header_proto-eq, conv_key_values-proto)

  pub prepared-get :
      {A B : Type 0} (conv : A → B) (e : Option env.Err) (o : Option A) (x : A)
      (s : FakeKvServer env)
      → e ≡ none
      → o ≡ some x
      → (prepared env (λ y. ok (conv y)) e o s).0 ≡ ok (resp (conv x))
  unfolding prepared lift_reply
  prepared-get conv e o x s p q = rw (p, q)

  fake_range-answer :
      (s : FakeKvServer env) (req : RangeRequest) (a : FakeResponse env) (g : GetResponse)
      → turn env s.fake_responses s.fake_responses_idx ≡ some a
      → a.err ≡ none
      → a.response.get ≡ some g
      → (fake_range env req s).0 ≡ ok (resp (range_message env g))
  unfolding fake_range answer_with
  fake_range-answer s req a g at no_err kind =
      ap (λ p. p.0) (>>=-known (next_response env) _ _ (next_response-eq env _))
      ∙ rw at (prepared-get (range_message env) a.err a.response.get g _ no_err kind)

  -- A get that follows any requests to a new fake server is answered by the prepared response whose
  -- position is the number of recorded requests modulo the number of responses; if that holds a get
  -- response and no error, the client reads exactly that response.
  pub fake_range-turn :
      (r : FakeResponse env) (rs : List (FakeResponse env)) (before : List Request)
      (req : RangeRequest) (a : FakeResponse env) (g : GetResponse)
      → get_elem? (r ∷ rs) (length (records_of before) % length (r ∷ rs)) ≡ some a
      → a.err ≡ none
      → a.response.get ≡ some g
      → (m : RangeResponse) × ((fake_range env req
            (serve_all env (no_streams env) (new_fake env (r ∷ rs)) before)).0
          ≡ ok (resp m))
        × (get_of m ≡ g)
  fake_range-turn r rs before req a g at no_err kind = (
    range_message env g,
    fake_range-answer (serve_all env (no_streams env) (new_fake env (r ∷ rs)) before) req a g
        (rw serve_all-records (unfold new_fake in rw zero-add at)) no_err kind,
    get_of-message g,
  )

-- ===== src/Fake/Iterations.antt =====
-- An iteration over the fake server: the prepared responses, as messages on a stream, and back as what
-- the consumer is given.
use regatta_go.Prelude.{
  all, ℕ, ◌<◌, ◌≡◌, refl, ap, ◌∙◌, Bool, true, Option, none, some, List, [], ◌∷◌, ◌++◌, map, length,
  length-map, if◌then◌else◌, arith,
}
use regatta_go.Go.{ok}
use regatta_go.Go.Run.{Run, >>=-known}
use regatta_go.Env.{Env, Reply, resp, fail}
use regatta_go.Proto.{RangeRequest, RangeResponse}
use regatta_go.Responses.{GetResponse}
use regatta_go.Kv.{Iterator, from_items}
use regatta_go.Kv.Iteration.{iterate}
use regatta_go.Kv.Iteration.Delivery.{Pair, goes_on, delivered, iterate-delivers}
use regatta_go.Fake.{
  FakeResponse, FakeKvServer, note_request, next_response, answer_with, prepared, lift_reply,
  range_message, send_all, sent_by, fake_iterate_range,
}
use regatta_go.Fake.Answers.{get_of-message}
use regatta_go.Fake.Cycle.{turn, next_response-eq}

module _ (env : Env) where
  open env use {World, Err, Stream}

  -- A response in a pair with no error, as an iterator yields it.
  abbrev pub good : GetResponse → Pair env
  good g = (some g, none)

  -- The pairs of some responses up to the first at which the consumer wants no more.
  abbrev pub up_to_last : (Pair env → Bool) → List GetResponse → List (Pair env)
  up_to_last wants [] = []
  up_to_last wants (g ∷ gs) =
      let rest = up_to_last wants gs in good g ∷ (if wants (good g) then rest else [])

  -- The messages of some responses, as `Recv` gives them.
  abbrev pub replies_of : List GetResponse → List (Reply Err RangeResponse)
  replies_of gs = map resp (map (range_message env) gs)

  send_all-good :
      (gs : List GetResponse) → send_all env (map good gs) ≡ ok (map (range_message env) gs)
  unfolding send_all
  send_all-good [] = refl
  send_all-good (g ∷ gs) = rw (send_all-good gs)

  delivered-messages :
      (wants : Pair env → Bool) (gs : List GetResponse)
      → delivered env wants (replies_of gs) ≡ up_to_last wants gs
  delivered-messages wants [] = refl
  delivered-messages wants (g ∷ gs) = rw (get_of-message env g, delivered-messages wants gs)

  all-good : (gs : List GetResponse) → all (goes_on env) (replies_of gs) ≡ true
  all-good [] = refl
  all-good (g ∷ gs) = all-good gs

  prepared-sent :
      (drain : Stream → List (Pair env)) (e : Option Err) (o : Option (Iterator env))
      (gs : List GetResponse) (s : FakeKvServer env)
      → e ≡ none
      → o ≡ some (from_items (map good gs))
      → (prepared env (sent_by env drain) e o s).0 ≡ ok (resp (map (range_message env) gs))
  unfolding prepared lift_reply sent_by
  prepared-sent drain e o gs s p q = rw (p, q, send_all-good gs)

  fake_iterate_range-reply :
      (drain : Stream → List (Pair env)) (req : RangeRequest) (s : FakeKvServer env)
      (a : FakeResponse env) (gs : List GetResponse)
      → turn env s.fake_responses s.fake_responses_idx ≡ some a
      → a.err ≡ none
      → a.response.iter ≡ some (from_items (map good gs))
      → (fake_iterate_range env drain req s).0 ≡ ok (resp (map (range_message env) gs))
  unfolding fake_iterate_range note_request answer_with
  fake_iterate_range-reply drain req s a gs at no_err is_iter =
      ap (λ p. p.0) (>>=-known (next_response env) _ _ (next_response-eq env _))
      ∙ rw at (prepared-sent drain a.err a.response.iter gs _ no_err is_iter)

  messages-length : (gs : List GetResponse) → length (replies_of gs) ≡ length gs
  messages-length gs = length-map _ _ ∙ length-map _ gs

  module _ (recv : Run World (Reply Err RangeResponse))
      (yield : Option GetResponse → Option Err → Run World Bool)
      (pending : World → List (Reply Err RangeResponse)) (seen : World → List (Pair env))
      (wants : Pair env → Bool)
      (receives : (w : World) (r : Reply Err RangeResponse) (rs : List (Reply Err RangeResponse))
        → pending w ≡ r ∷ rs
        → (w' : World) × (recv w ≡ (ok r, w')) × (pending w' ≡ rs) × (seen w' ≡ seen w))
      (yields : (p : Pair env) (w : World)
        → (w' : World) × (yield p.0 p.1 w ≡ (ok (wants p), w'))
          × (pending w' ≡ pending w)
          × (seen w' ≡ seen w ++ p ∷ [])) where
    -- When the response whose turn it is holds an iterator over some responses and no error, the fake
    -- server sends one message for each, in order; and if `Recv` takes these one by one and then the
    -- end of the stream, and the consumer returns from each pair, then more rounds than there are
    -- messages are enough for the client's loop to be left, and the consumer is given exactly the
    -- prepared responses, unchanged and in order, up to the first at which it wants no more.
    pub fake_iterate_range-delivers :
        (drain : Stream → List (Pair env)) (req : RangeRequest) (s : FakeKvServer env)
        (a : FakeResponse env) (gs : List GetResponse) (n : ℕ) (e : Err)
        (rest : List (Reply Err RangeResponse)) (w : World)
        → turn env s.fake_responses s.fake_responses_idx ≡ some a
        → a.err ≡ none
        → a.response.iter ≡ some (from_items (map good gs))
        → pending w ≡ replies_of gs ++ fail e ∷ rest
        → env.is_eof e ≡ true
        → length gs < n
        → ((fake_iterate_range env drain req s).0 ≡ ok (resp (map (range_message env) gs)))
          × (w' : World) × (iterate env recv yield n w ≡ (ok true, w'))
          × (seen w' ≡ seen w ++ up_to_last wants gs)
    fake_iterate_range-delivers drain req s a gs n e rest w at no_err is_iter p eof lt =
        let (w', ran, shown) =
          iterate-delivers env recv yield pending seen wants receives yields n (replies_of gs) rest
            e w p (all-good gs) eof (omega (arith, messages-length gs)) in
        (
          fake_iterate_range-reply drain req s a gs at no_err is_iter,
          w',
          ran,
          shown ∙ ap (λ ps. seen w ++ ps) (delivered-messages wants gs),
        )

-- ===== src/Fake/Cycle.antt =====
-- The fake server over a sequence of requests: what it has recorded, and which prepared response
-- answers which request.
use native.Mathlib.Nat.{add_assoc, add-zero}
use mathlib.Core.List.{append-nil, append_assoc}
use regatta_go.Prelude.{
  ℕ, ◌+◌, ◌%◌, ◌≡◌, refl, ap, ◌∙◌, sym, Option, none, some, List, [], ◌∷◌, ◌++◌, length,
  length-append, get_elem?,
}
use regatta_go.Go.{Go, ok, panic}
use regatta_go.Go.Run.{lift, ◌>>=◌, ◌>>◌, >>=-known}
use regatta_go.Env.{Env}
use regatta_go.Proto.{RangeRequest, PutRequest, DeleteRangeRequest, TxnRequest}
use regatta_go.Responses.{GetResponse}
use regatta_go.Kv.{OpResponse}
use regatta_go.Recorded.{
  RecordedRequest, conv_range_to_request, conv_put_to_request, conv_delete_range_to_request,
  conv_txn_to_request,
}
use regatta_go.Fake.{
  FakeResponse, FakeKvServer, note_request, next_response, pick_from, prepared, lift_reply,
  answer_with, fake_range, fake_put, fake_delete_range, fake_txn, fake_iterate_range,
}

pub data Request : Type 0 where
  range : RangeRequest → Request
  put : PutRequest → Request
  delete_range : DeleteRangeRequest → Request
  txn : TxnRequest → Request
  iterate_range : RangeRequest → Request

unfoldable pub recorded_txn : Go RecordedRequest → List RecordedRequest
recorded_txn (ok r) = r ∷ []
recorded_txn (panic m) = []

-- What a request leaves in the record: itself, as an operation.
unfoldable pub record_of : Request → List RecordedRequest
unfolding recorded_txn
record_of (range r) = conv_range_to_request (some r) ∷ []
record_of (put r) = conv_put_to_request (some r) ∷ []
record_of (delete_range r) = conv_delete_range_to_request (some r) ∷ []
record_of (txn r) = recorded_txn (conv_txn_to_request (some r))
record_of (iterate_range r) = conv_range_to_request (some r) ∷ []

unfoldable pub records_of : List Request → List RecordedRequest
unfolding record_of
records_of [] = []
records_of (r ∷ rs) = record_of r ++ records_of rs

module _ (env : Env) where
  -- What iterators over streams yield, which the handler of iterations may read.
  abbrev pub Drain : Type 0
  Drain = env.Stream → List (Option GetResponse × Option env.Err)

  abbrev pub no_streams : Drain
  no_streams st = []

  -- The server after a request, whatever it answers.
  unfoldable pub serve : Drain → FakeKvServer env → Request → FakeKvServer env
  serve drain s (range r) = (fake_range env r s).1
  serve drain s (put r) = (fake_put env r s).1
  serve drain s (delete_range r) = (fake_delete_range env r s).1
  serve drain s (txn r) = (fake_txn env r s).1
  serve drain s (iterate_range r) = (fake_iterate_range env drain r s).1

  unfoldable pub serve_all : Drain → FakeKvServer env → List Request → FakeKvServer env
  unfolding serve
  serve_all drain s [] = s
  serve_all drain s (r ∷ rs) = serve_all drain (serve drain s r) rs

  -- How far the index moves in `n` requests.
  abbrev pub moved : List (FakeResponse env) → ℕ → ℕ
  moved [] n = 0
  moved (r ∷ rs) n = n

  abbrev pub served : FakeKvServer env → List RecordedRequest → FakeKvServer env
  served s rs = record s {
    recorded_requests = s.recorded_requests ++ rs;
    fake_responses_idx = s.fake_responses_idx + moved s.fake_responses (length rs);
  }

  -- The prepared response whose turn it is.
  abbrev pub turn : List (FakeResponse env) → ℕ → Option (FakeResponse env)
  turn [] i = none
  turn (r ∷ rs) i = get_elem? (r ∷ rs) (i % length (r ∷ rs))

  abbrev pub advanced : FakeKvServer env → FakeKvServer env
  advanced s = record s { fake_responses_idx = s.fake_responses_idx + moved s.fake_responses 1 }

  pick_from-eq :
      (rs : List (FakeResponse env)) (s : FakeKvServer env)
      → pick_from env rs s ≡ (
        ok (turn rs s.fake_responses_idx),
        record s { fake_responses_idx = s.fake_responses_idx + moved rs 1 },
      )
  unfolding pick_from
  pick_from-eq [] s =
      λ i. (ok none, record s { fake_responses_idx = sym (add-zero s.fake_responses_idx) i })
  pick_from-eq (r ∷ rs) s = refl

  pub next_response-eq :
      (s : FakeKvServer env)
      → next_response env s ≡ (ok (turn s.fake_responses s.fake_responses_idx), advanced s)
  unfolding next_response
  next_response-eq s = pick_from-eq s.fake_responses s

  module _ {A B : Type 0} (kind : OpResponse env → Option A) (conv : A → Go B) (empty : B) where
    lift-state : (g : Go B) (s : FakeKvServer env) → (lift_reply env g s).1 ≡ s
    unfolding lift_reply
    lift-state (ok b) s = refl
    lift-state (panic m) s = refl

    prepared-state :
        (e : Option env.Err) (a : Option A) (s : FakeKvServer env) → (prepared env conv e a s).1 ≡ s
    unfolding prepared
    prepared-state (some e) a s = refl
    prepared-state none none s = refl
    prepared-state none (some a) s = lift-state (conv a) s

    answer_with-state :
        (r : Option (FakeResponse env)) (s : FakeKvServer env)
        → (answer_with env kind conv empty r s).1 ≡ s
    unfolding answer_with
    answer_with-state none s = refl
    answer_with-state (some r) s = prepared-state r.err (kind r.response) s

  noted : FakeKvServer env → RecordedRequest → FakeKvServer env
  noted s q = record s { recorded_requests = s.recorded_requests ++ q ∷ [] }

  -- The common end of the handlers.
  respond-state :
      {A B : Type 0} (kind : OpResponse env → Option A) (conv : A → Go B) (empty : B)
      (q : RecordedRequest) (s : FakeKvServer env)
      → ((next_response env >>= answer_with env kind conv empty) (noted s q)).1 ≡ served s (q ∷ [])
  unfolding noted
  respond-state kind conv empty q s =
      ap (λ p. p.1)
        (>>=-known (next_response env) (answer_with env kind conv empty) (noted s q)
          (next_response-eq (noted s q)))
      ∙ answer_with-state kind conv empty _ _

  moved-zero : (rs : List (FakeResponse env)) → moved rs 0 ≡ 0
  moved-zero [] = refl
  moved-zero (r ∷ rs) = refl

  served-nil : (s : FakeKvServer env) → s ≡ served s []
  served-nil s = λ i. record s {
    recorded_requests = sym (append-nil s.recorded_requests) i;
    fake_responses_idx =
        sym
          (ap (λ n. s.fake_responses_idx + n) (moved-zero s.fake_responses)
            ∙ add-zero s.fake_responses_idx)
          i;
  }

  txn_case :
      {A B : Type 0} (kind : OpResponse env → Option A) (conv : A → Go B) (empty : B)
      (g : Go RecordedRequest) (s : FakeKvServer env)
      → ((lift g >>= λ q.
            note_request env q >> (next_response env >>= answer_with env kind conv empty))
          s).1
        ≡ served s (recorded_txn g)
  unfolding note_request recorded_txn
  txn_case kind conv empty (ok q) s = unfold noted in respond-state kind conv empty q s
  txn_case kind conv empty (panic m) s = served-nil s

  pub serve-eq :
      (drain : Drain) (s : FakeKvServer env) (r : Request)
      → serve drain s r ≡ served s (record_of r)
  unfolding serve record_of fake_range fake_put fake_delete_range fake_txn fake_iterate_range noted
  serve-eq drain s (range r) = respond-state _ _ _ (conv_range_to_request (some r)) s
  serve-eq drain s (put r) = respond-state _ _ _ (conv_put_to_request (some r)) s
  serve-eq drain s (delete_range r) = respond-state _ _ _ (conv_delete_range_to_request (some r)) s
  serve-eq drain s (txn r) = txn_case _ _ _ (conv_txn_to_request (some r)) s
  serve-eq drain s (iterate_range r) = respond-state _ _ _ (conv_range_to_request (some r)) s

  moved-append :
      (rs : List (FakeResponse env)) (a b : ℕ) → moved rs a + moved rs b ≡ moved rs (a + b)
  moved-append [] a b = refl
  moved-append (r ∷ rs) a b = refl

  served-served :
      (s : FakeKvServer env) (a b : List RecordedRequest)
      → served (served s a) b ≡ served s (a ++ b)
  served-served s a b = λ i. record s {
    recorded_requests = append_assoc s.recorded_requests a b i;
    fake_responses_idx =
        (add_assoc s.fake_responses_idx (moved s.fake_responses (length a))
              (moved s.fake_responses (length b))
            ∙ ap (λ n. s.fake_responses_idx + n)
                (moved-append s.fake_responses (length a) (length b)
                  ∙ ap (moved s.fake_responses) (sym (length-append a b))))
          i;
  }

  -- After any requests, gets, puts, deletes, transactions and iterations, the fake server has
  -- recorded each of them, in order, behind what it had recorded, and its index has moved by one for
  -- each if responses were prepared; the responses stay. A transaction whose conversion panics leaves
  -- nothing. What iterators over streams yield does not matter.
  pub serve_all-records :
      (drain : Drain) (s : FakeKvServer env) (rs : List Request)
      → serve_all drain s rs ≡ record s {
        recorded_requests = s.recorded_requests ++ records_of rs;
        fake_responses_idx = s.fake_responses_idx + moved s.fake_responses (length (records_of rs));
      }
  unfolding serve_all records_of
  serve_all-records drain s [] = served-nil s
  serve_all-records drain s (r ∷ rs) =
      serve_all-records drain (serve drain s r) rs
      ∙ (ap (λ t. served t (records_of rs)) (serve-eq drain s r)
          ∙ served-served s (record_of r) (records_of rs))

-- ===== src/Tests/Streams.antt =====
-- Streams at concrete inputs: the world holds the replies to come and the pairs that were seen.
use regatta_go.Prelude.{
  map, ◌≤◌, ◌+◌, ◌-◌, ℕ, zero, suc, ◌≡◌, refl, Bool, true, false, Option, none, some, List, [], ◌∷◌,
  ◌++◌, pos, arith, ◌==◌, if◌then◌else◌,
}
use regatta_go.Go.{ok, codes}
use regatta_go.Go.Run.{Run, >>=-known}
use regatta_go.Env.{Env, Reply, resp, fail}
use regatta_go.Proto.{RangeResponse}
use regatta_go.Responses.{GetResponse}
use regatta_go.Kv.Iteration.{iterate}
use regatta_go.Kv.Iteration.Delivery.{delivered, iterate-delivers, iterate-broken}
use regatta_go.Retry.{Options, repeatable}
use regatta_go.Interceptor.{wait_retry_backoff}
use regatta_go.Interceptor.Streams.{
  Transport, RetryingStream, stream_recv, resend, refill, reestablish_stream_and_resend_buffer,
}
use regatta_go.Interceptor.Resends.{
  Request, sends, closes, receives, receives-straight, reestablish-resends,
}
use regatta_go.Interceptor.Receives.{stream_recv-attempts}
use regatta_go.Kv.{from_items, no_response}
use regatta_go.Proto.{RangeRequest}
use regatta_go.Fake.{FakeResponse, FakeKvServer, range_message, fake_iterate_range}
use regatta_go.Fake.Iterations.{good, up_to_last, replies_of, fake_iterate_range-delivers}
use regatta_go.Tests.Services.{env_over}

abbrev Replies : Type 0
Replies = List (Reply ℕ RangeResponse)

abbrev Pairs : Type 0
Pairs = List (Option GetResponse × Option ℕ)

abbrev stream_env : Env
stream_env = env_over (Replies × Pairs)

abbrev receive : Run (Replies × Pairs) (Reply ℕ RangeResponse)
receive ([], ps) = (ok (fail 9), ([], ps))
receive (r ∷ rs, ps) = (ok r, (rs, ps))

-- A consumer that wants no more after an error.
abbrev wants_responses : Option GetResponse × Option ℕ → Bool
wants_responses (g, none) = true
wants_responses (g, some e) = false

abbrev consume : Option GetResponse → Option ℕ → Run (Replies × Pairs) Bool
consume g e (rs, ps) = (ok (wants_responses (g, e)), (rs, ps ++ (g, e) ∷ []))

receive-gives :
    (w : Replies × Pairs) (r : Reply ℕ RangeResponse) (rs : Replies)
    → w.0 ≡ r ∷ rs
    → (w' : Replies × Pairs) × (receive w ≡ (ok r, w')) × (w'.0 ≡ rs) × (w'.1 ≡ w.1)
receive-gives ([], ps) r rs h = cc
receive-gives (x ∷ xs, ps) r rs h = ((xs, ps), cc, cc, refl)

consume-notes :
    (p : Option GetResponse × Option ℕ) (w : Replies × Pairs)
    → (w' : Replies × Pairs) × (consume p.0 p.1 w ≡ (ok (wants_responses p), w'))
      × (w'.0 ≡ w.0)
      × (w'.1 ≡ w.1 ++ p ∷ [])
consume-notes (g, e) (rs, ps) = ((rs, ps ++ (g, e) ∷ []), refl, refl, refl)

abbrev message : RangeResponse
message = record { header = none; kvs = []; more = false; count = pos 1 }

abbrev replies : Replies
replies = resp message ∷ fail 4 ∷ resp message ∷ []

iterate-delivers_example :
    (w' : Replies × Pairs) × (iterate stream_env receive consume 4 (replies ++ fail 9 ∷ [], [])
      ≡ (ok true, w'))
    × (w'.1 ≡ [] ++ delivered stream_env wants_responses replies)
iterate-delivers_example =
    iterate-delivers stream_env receive consume (λ w. w.0) (λ w. w.1) wants_responses receive-gives
      consume-notes 4 replies [] 9 (replies ++ fail 9 ∷ [], []) refl refl refl (omega arith)

abbrev broken : Run (Replies × Pairs) (Reply ℕ RangeResponse)
broken w = (ok (fail 4), w)

abbrev insist : Option GetResponse → Option ℕ → Run (Replies × Pairs) Bool
insist g e w = (ok true, w)

iterate-broken_example :
    (w' : Replies × Pairs) × (iterate stream_env broken insist 3 ([], []) ≡ (ok false, w'))
iterate-broken_example =
    iterate-broken stream_env broken insist 4 (λ w. (w, refl)) (λ w. (w, refl)) refl 3 ([], [])

abbrev Asked : Type 0
Asked = List (Request ℕ ℕ) × ℕ

abbrev asked_env : Env
asked_env = env_over Asked

-- A server whose new streams take messages and then refuse to answer.
abbrev refusing : Transport asked_env
refusing = record {
  Msg = ℕ;
  open_stream = λ ctx gs w. (ok (resp 7), w);
  send_msg = λ st m w. (ok none, (w.0 ++ sends st m ∷ [], w.1));
  close_send = λ st w. (ok none, (w.0 ++ closes st ∷ [], w.1));
  recv_msg = λ st w. (ok (fail 1), (w.0, w.1 + 1));
  header = λ st w. (ok (fail 1), w);
  trailer = λ st w. (ok ([], []), w);
}

abbrev five : Options asked_env
five = record {
  retry_policy = repeatable;
  max = 5;
  backoff_func = λ n w. (pos 0, w);
  retry_auth = true;
}

abbrev stream : RetryingStream asked_env refusing
stream = record {
  stream = 3;
  buffered_sends = 1 ∷ 2 ∷ [];
  received_good = false;
  was_closed_send = true;
  ctx = tt;
  call_opts = five;
  gopts = [];
}

-- A server that gives one message, and then errors; the world counts the receives.
abbrev breaking : Transport asked_env
breaking = record refusing {
  recv_msg = λ st w. (ok (if w.1 == 0 then resp 5 else fail w.1), (w.0, w.1 + 1));
}

abbrev broken_stream : RetryingStream asked_env breaking
broken_stream = record {
  stream = 3;
  buffered_sends = 1 ∷ 2 ∷ [];
  received_good = false;
  was_closed_send = true;
  ctx = tt;
  call_opts = five;
  gopts = [];
}

receives-straight_example :
    receives asked_env breaking broken_stream 3 ([], 0)
    ≡ (ok (resp 5 ∷ fail 1 ∷ fail 2 ∷ [], record broken_stream { received_good = true }), ([], 3))
receives-straight_example =
    receives-straight asked_env breaking broken_stream 5 (fail 1 ∷ fail 2 ∷ []) ([], 0) ([], 3)
      (_, refl, (_, refl, (_, refl, refl)))

reestablish-resends_example :
    (w' : Asked) × (reestablish_stream_and_resend_buffer asked_env refusing stream ([], 0)
      ≡ (ok (resp 7), w'))
    × (w'.0 ≡ [] ++ (map (sends 7) (1 ∷ 2 ∷ []) ++ closes 7 ∷ []))
reestablish-resends_example =
    reestablish-resends asked_env refusing (λ w. w.0) (λ st m w. (_, refl, refl))
      (λ st w. (_, refl, refl)) stream ([], 0) ([], 0) 7 refl

resend-keeps :
    (ms : List ℕ) (w : Asked)
    → (w' : Asked) × (resend asked_env refusing 7 ms w ≡ (ok none, w')) × (w'.1 ≡ w.1)
unfolding resend
resend-keeps [] w = (w, refl, refl)
resend-keeps (m ∷ ms) (l, c) = resend-keeps ms (l ++ sends 7 m ∷ [], c)

reestablish-keeps :
    (s : RetryingStream asked_env refusing) (w : Asked)
    → (r : Reply ℕ ℕ) × (w' : Asked) × (reestablish_stream_and_resend_buffer asked_env refusing s w
        ≡ (ok r, w'))
      × (w'.1 ≡ w.1)
unfolding reestablish_stream_and_resend_buffer refill
reestablish-keeps s w =
    let (v, did, same) = resend-keeps s.buffered_sends w in
    (
      resp 7,
      (v.0 ++ closes 7 ∷ [], v.1),
      >>=-known (resend asked_env refusing 7 s.buffered_sends) _ w did,
      same,
    )

five-keeps :
    (ctx : Unit {0}) (a : ℕ) (w : Asked)
    → (r : Option ℕ) × (w' : Asked) × (wait_retry_backoff asked_env ctx a five w ≡ (ok r, w'))
      × (w'.1 ≡ w.1)
unfolding wait_retry_backoff
five-keeps ctx zero w = (none, w, refl, refl)
five-keeps ctx (suc n) w = (none, w, refl, refl)

stream_recv-attempts_example :
    let p = stream_recv asked_env refusing stream ([], 0) in
    (r : Reply ℕ ℕ) × (s' : RetryingStream asked_env refusing) × (p.0 ≡ ok (r, s'))
    × (p.1.1 ≤ 0 + suc (5 - 1))
stream_recv-attempts_example =
    stream_recv-attempts asked_env refusing (λ w. w.1) five (λ st w. (_, _, refl, refl)) five-keeps
      reestablish-keeps stream ([], 0) refl

abbrev prepared_pairs : List GetResponse
prepared_pairs =
    record { header = none; kvs = []; more = true; count = pos 1 }
    ∷ record { header = none; kvs = []; more = false; count = pos 2 }
    ∷ []

abbrev iterating : FakeResponse stream_env
iterating = record {
  response = record (no_response stream_env) {
    iter = some (from_items (map (good stream_env) prepared_pairs));
  };
  err = none;
}

abbrev iterate_server : FakeKvServer stream_env
iterate_server = record {
  recorded_requests = [];
  fake_responses = iterating ∷ [];
  fake_responses_idx = 4;
}

abbrev every : RangeRequest
every = record {
  table = codes "t";
  key = 0 ∷ [];
  range_end = some (0 ∷ []);
  limit = pos 0;
  linearizable = true;
  keys_only = false;
  count_only = false;
  min_mod_revision = pos 0;
  max_mod_revision = pos 0;
  min_create_revision = pos 0;
  max_create_revision = pos 0;
}

fake_iterate_range-delivers_example :
    ((fake_iterate_range stream_env (λ st. []) every iterate_server).0
      ≡ ok (resp (map (range_message stream_env) prepared_pairs)))
    × (w' : Replies × Pairs) × (iterate stream_env receive consume 3
          (replies_of stream_env prepared_pairs ++ fail 9 ∷ [], [])
        ≡ (ok true, w'))
    × (w'.1 ≡ [] ++ up_to_last stream_env wants_responses prepared_pairs)
fake_iterate_range-delivers_example =
    fake_iterate_range-delivers stream_env receive consume (λ w. w.0) (λ w. w.1) wants_responses
      receive-gives consume-notes (λ st. []) every iterate_server iterating prepared_pairs 3 9 []
      (replies_of stream_env prepared_pairs ++ fail 9 ∷ [], []) refl refl refl refl refl
      (omega arith)

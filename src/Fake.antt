-- ===== src/Fake.antt =====
-- fake.go: the fake server. Its handlers record the request, then answer with the next of the
-- prepared responses, in turn. An answer of another kind than the request is a nil pointer.
pub mod Cycle
pub mod Answers
pub mod Messages
pub mod Connected
pub mod Replies
pub mod Iterations
use regatta_go.Prelude.{
  ℕ, pos, ◌+◌, ◌%◌, Bool, true, false, Option, none, some, List, [], ◌∷◌, ◌++◌, length, get_elem?,
}
use regatta_go.Go.{Go, ok, panic}
use regatta_go.Go.Run.{Run, pure, raise, lift, ◌>>=◌, ◌>>◌}
use regatta_go.Env.{Env, Reply, resp, fail}
use regatta_go.Proto
use regatta_go.Proto.{
  KeyValue, RangeRequest, RangeResponse, PutRequest, DeleteRangeRequest, DeleteRangeResponse,
  TxnRequest,
}
use regatta_go.Responses.{GetResponse, PutResponse, DeleteResponse, TxnResponse}
use regatta_go.Kv.{Iterator, from_stream, from_items, OpResponse}
use regatta_go.Recorded.{
  RecordedRequest, conv_range_to_request, conv_put_to_request, conv_delete_range_to_request,
  conv_txn_to_request, conv_key_values_to_proto, conv_responses_to_proto, conv_to_header_proto,
}

module _ (env : Env) where
  open env use {Err, Stream}

  pub record FakeResponse : Type 0 where
    pub response : OpResponse env
    pub err : Option Err

  pub record FakeKvServer : Type 0 where
    pub recorded_requests : List RecordedRequest
    pub fake_responses : List FakeResponse
    pub fake_responses_idx : ℕ

  -- `NewFake`
  unfoldable pub new_fake : List FakeResponse → FakeKvServer
  new_fake rs = record { recorded_requests = []; fake_responses = rs; fake_responses_idx = 0 }

  -- `FakeClient`, without its listener, and `RecordedRequests`.
  pub record FakeClient : Type 0 where
    pub kv_server : FakeKvServer

  unfoldable pub recorded_requests_of : FakeClient → List RecordedRequest
  recorded_requests_of c = c.kv_server.recorded_requests

  unfoldable pub note_request : RecordedRequest → Run FakeKvServer (Unit {0})
  note_request r s = (ok tt, record s { recorded_requests = s.recorded_requests ++ r ∷ [] })

  -- The response at `idx % len`, and the step to the next; none is prepared, none is given.
  unfoldable pub pick : Option FakeResponse → Run FakeKvServer (Option FakeResponse)
  pick r s = (ok r, record s { fake_responses_idx = s.fake_responses_idx + 1 })

  unfoldable pub pick_from : List FakeResponse → Run FakeKvServer (Option FakeResponse)
  unfolding pick
  pick_from [] s = (ok none, s)
  pick_from (r ∷ rs) s = pick (get_elem? (r ∷ rs) (s.fake_responses_idx % length (r ∷ rs))) s

  unfoldable pub next_response : Run FakeKvServer (Option FakeResponse)
  unfolding pick_from
  next_response s = pick_from s.fake_responses s

  unfoldable pub lift_reply : {B : Type 0} → Go B → Run FakeKvServer (Reply Err B)
  lift_reply (ok b) = pure (resp b)
  lift_reply (panic m) = raise m

  unfoldable pub prepared :
      {A B : Type 0} → (A → Go B) → Option Err → Option A → Run FakeKvServer (Reply Err B)
  unfolding lift_reply
  prepared conv (some e) a = pure (fail e)
  prepared conv none none = raise "invalid memory address or nil pointer dereference"
  prepared conv none (some a) = lift_reply (conv a)

  -- An answer: the prepared error, or the prepared response of the kind that is asked for.
  unfoldable pub answer_with :
      {A B : Type 0}
      → (OpResponse env → Option A)
      → (A → Go B)
      → B
      → Option FakeResponse
      → Run FakeKvServer (Reply Err B)
  unfolding prepared
  answer_with kind conv empty none = pure (resp empty)
  answer_with kind conv empty (some r) = prepared conv r.err (kind r.response)

  unfoldable pub range_message : GetResponse → RangeResponse
  range_message r = record {
    header = conv_to_header_proto r.header;
    kvs = conv_key_values_to_proto r.kvs;
    more = r.more;
    count = r.count;
  }

  unfoldable pub fake_range : RangeRequest → Run FakeKvServer (Reply Err RangeResponse)
  unfolding note_request
  fake_range req = do
    note_request (conv_range_to_request (some req))
    r ← next_response
    answer_with (λ o. o.get) (λ a. ok (range_message a))
        (record { header = none; kvs = []; more = false; count = pos 0 }) r

  unfoldable pub copy_key_value : Option KeyValue → Option KeyValue
  copy_key_value none = none
  copy_key_value (some kv) = some (record {
    key = kv.key;
    create_revision = kv.create_revision;
    mod_revision = kv.mod_revision;
    value = kv.value;
  })

  unfoldable pub put_message : PutResponse → Proto.PutResponse
  unfolding copy_key_value
  put_message r = record {
    header = conv_to_header_proto r.header;
    prev_kv = copy_key_value r.prev_kv;
  }

  unfoldable pub fake_put : PutRequest → Run FakeKvServer (Reply Err Proto.PutResponse)
  unfolding note_request
  fake_put req = do
    note_request (conv_put_to_request (some req))
    r ← next_response
    answer_with (λ o. o.put) (λ a. ok (put_message a)) (record { header = none; prev_kv = none }) r

  unfoldable pub delete_message : DeleteResponse → DeleteRangeResponse
  delete_message r = record {
    header = conv_to_header_proto r.header;
    deleted = r.deleted;
    prev_kvs = conv_key_values_to_proto r.prev_kvs;
  }

  unfoldable pub fake_delete_range :
      DeleteRangeRequest → Run FakeKvServer (Reply Err DeleteRangeResponse)
  unfolding note_request
  fake_delete_range req = do
    note_request (conv_delete_range_to_request (some req))
    r ← next_response
    answer_with (λ o. o.del) (λ a. ok (delete_message a))
        (record { header = none; deleted = pos 0; prev_kvs = [] }) r

  unfoldable pub txn_message : TxnResponse → Proto.TxnResponse
  txn_message r = record {
    header = conv_to_header_proto r.header;
    succeeded = r.succeeded;
    responses = conv_responses_to_proto r.responses;
  }

  -- The conversion of the request may panic; nothing is recorded then.
  unfoldable pub fake_txn : TxnRequest → Run FakeKvServer (Reply Err Proto.TxnResponse)
  unfolding note_request
  fake_txn req = do
    recorded ← lift (conv_txn_to_request (some req))
    note_request recorded
    r ← next_response
    answer_with (λ o. o.txn) (λ a. ok (txn_message a))
        (record { header = none; succeeded = false; responses = [] }) r

  -- The messages that the prepared iterator makes the server send; a pair with no response is a nil
  -- pointer. `drain` gives what an iterator over a stream yields when it is never told to stop.
  unfoldable pub send_all : List (Option GetResponse × Option Err) → Go (List RangeResponse)
  send_all [] = ok []
  send_all ((none, e) ∷ rs) = panic "invalid memory address or nil pointer dereference"
  send_all ((some r, e) ∷ rs) = elim (send_all rs) [
    | ok ms ↦ ok (range_message r ∷ ms)
    | panic m ↦ panic m
  ]

  unfoldable pub sent_by :
      (Stream → List (Option GetResponse × Option Err)) → Iterator env → Go (List RangeResponse)
  unfolding send_all range_message
  sent_by drain (from_stream s) = send_all (drain s)
  sent_by drain (from_items items) = send_all items

  unfoldable pub fake_iterate_range :
      (Stream → List (Option GetResponse × Option Err))
      → RangeRequest
      → Run FakeKvServer (Reply Err (List RangeResponse))
  unfolding note_request
  fake_iterate_range drain req = do
    note_request (conv_range_to_request (some req))
    r ← next_response
    answer_with (λ o. o.iter) (sent_by drain) [] r

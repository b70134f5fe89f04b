-- ===== src/Tests/Traffic.antt =====
-- A client in front of the fake server at concrete calls. The world is what the server has recorded
-- and its index; the connection runs the handlers.
use regatta_go.Prelude.{
  ℕ, pos, ◌≡◌, refl, sym, ap, false, true, none, some, List, [], ◌∷◌, ◌++◌, map,
}
use regatta_go.Go.{ok, codes}
use regatta_go.Go.Run.{Run}
use regatta_go.Env.{Env, Reply, resp, fail}
use regatta_go.Responses.{GetResponse, get_of}
use regatta_go.Op.{t_range, t_put, Op, op, nil, zero_fields, to_range_request}
use regatta_go.Proto.{RangeResponse}
use regatta_go.Responses
use regatta_go.Options.{get_prefix}
use regatta_go.Options.Settings.{Setting, limit, prefix, from_key, serializable, prev_kv, options}
use regatta_go.Options.Ranged.{range_of}
use regatta_go.Kv.Ranges.{outcome, kv_get-sends, kv_delete-sends}
use regatta_go.Table.{kv_table, table_get, table_delete}
use regatta_go.Kv.{kv_do, kv_get, kv_delete, KvClient, KvHook, no_response, new_kv}
use regatta_go.Kv.Methods.{of_get, methods_of, new_kv_methods, new_kv_methods-Do}
use regatta_go.Recorded.{RecordedRequest}
use regatta_go.Fake.{
  FakeResponse, FakeKvServer, new_fake, fake_range, fake_put, fake_delete_range, fake_txn,
}
use regatta_go.Fake.Cycle.{Request, no_streams, serve, serve-eq}
use regatta_go.Fake.Messages.{Call, message_of, messages_of, recorded}
use regatta_go.Fake.Connected.{Served, Connected, after, new_kv-recorded}
use regatta_go.Fake.Replies.{Reads, new_kv-turn}
use regatta_go.Tests.Services.{env_over}

abbrev pub World : Type 0
World = List RecordedRequest × ℕ

abbrev pub env : Env
env = env_over World

abbrev pub got : GetResponse
got = record { header = none; kvs = []; more = false; count = pos 2 }

abbrev pub gives : FakeResponse env
gives = record { response = record (no_response env) { get = some got }; err = none }

abbrev pub stores : FakeResponse env
stores = record {
  response = record (no_response env) { put = some (record { header = none; prev_kv = none }) };
  err = none;
}

abbrev pub server : World → FakeKvServer env
server w = record {
  recorded_requests = w.0;
  fake_responses = stores ∷ gives ∷ [];
  fake_responses_idx = w.1;
}

abbrev pub over : {B : Type 0} → Run (FakeKvServer env) (Reply ℕ B) → Run World (Reply ℕ B)
over h w = let r = h (server w) in (r.0, (r.1.recorded_requests, r.1.fake_responses_idx))

abbrev pub client : KvClient env
client = record {
  range = λ ctx req opts. over (fake_range env req);
  iterate_range = λ ctx req opts w. (ok (fail 1), w);
  put = λ ctx req opts. over (fake_put env req);
  delete_range = λ ctx req opts. over (fake_delete_range env req);
  txn = λ ctx req opts. over (fake_txn env req);
  recv = λ s w. (ok (fail 9), w);
}

over-Served :
    {B : Type 0} (h : Run (FakeKvServer env) (Reply ℕ B))
    → ((s : FakeKvServer env) → (h s).1.fake_responses ≡ s.fake_responses)
    → Served env server (over h) h
over-Served h keeps w =
    (λ i. record (h (server w)).1 { fake_responses = sym (keeps (server w)) i }, λ m e. e)

serve-keeps :
    (r : Request) (s : FakeKvServer env)
    → (serve env (no_streams env) s r).fake_responses ≡ s.fake_responses
serve-keeps r s = ap (λ t. t.fake_responses) (serve-eq env (no_streams env) s r)

connected : Connected env client server
unfolding serve
connected = record {
  range = λ ctx req opts. over-Served (fake_range env req) (serve-keeps (Request.range req));
  put = λ ctx req opts. over-Served (fake_put env req) (serve-keeps (Request.put req));
  delete_range = λ ctx req opts.
      over-Served (fake_delete_range env req) (serve-keeps (Request.delete_range req));
  txn = λ ctx req opts. over-Served (fake_txn env req) (serve-keeps (Request.txn req));
}

abbrev pub put_a : Op
put_a = op (record zero_fields { t = t_put; key = codes "a"; val = codes "v" }) nil nil

abbrev pub get_a : Op
get_a = op (record zero_fields { t = t_range; key = codes "a"; rev = pos 3 }) nil nil

abbrev calls : List Call
calls = (codes "t", put_a) ∷ (codes "u", get_a) ∷ (codes "t", put_a) ∷ []

abbrev pub before : World
before = ([], 0)

abbrev sent : List Request
sent =
    Request.put (record { table = codes "t"; key = codes "a"; value = codes "v"; prev_kv = false })
    ∷ Request.range (record {
      table = codes "u";
      key = codes "a";
      range_end = none;
      limit = pos 0;
      linearizable = true;
      keys_only = false;
      count_only = false;
      min_mod_revision = pos 0;
      max_mod_revision = pos 0;
      min_create_revision = pos 0;
      max_create_revision = pos 0;
    })
    ∷ Request.put
        (record { table = codes "t"; key = codes "a"; value = codes "v"; prev_kv = false })
    ∷ []

calls-sent : messages_of calls ≡ ok sent
unfolding messages_of to_range_request
calls-sent = refl

new_kv-recorded_example :
    (server (after env tt (new_kv env client [] []) before calls)).recorded_requests
    ≡ (server before).recorded_requests ++ map recorded calls
new_kv-recorded_example =
    new_kv-recorded env client server connected [] tt calls sent before calls-sent

abbrev last_get : Request
last_get = Request.range (record {
  table = codes "v";
  key = codes "a";
  range_end = none;
  limit = pos 0;
  linearizable = true;
  keys_only = false;
  count_only = false;
  min_mod_revision = pos 0;
  max_mod_revision = pos 0;
  min_create_revision = pos 0;
  max_create_revision = pos 0;
})

get-sent : message_of (codes "v", get_a) ≡ ok last_get
unfolding to_range_request
get-sent = refl

-- The fourth call is answered by the second response.
new_kv-turn_example :
    (new_kv env client [] [] tt
      (codes "v")
      get_a
      (after env tt (new_kv env client [] []) before calls)).0
    ≡ ok (of_get env got, none)
unfolding new_fake
new_kv-turn_example =
    new_kv-turn env client server connected [] tt stores (gives ∷ []) calls sent (codes "v") get_a
      last_get before gives (of_get env got) refl calls-sent get-sent refl refl (Reads.get refl)

-- A hook that passes on what it is given.
abbrev passes : KvHook env
passes ctx table o next = next ctx table o

new_kv_methods-Do_example :
    new_kv_methods env client [] (passes ∷ []) ≡ methods_of env (new_kv env client [] (passes ∷ []))
new_kv_methods-Do_example = new_kv_methods-Do env client [] (passes ∷ [])

abbrev range_settings : List Setting
range_settings = limit (pos 5) ∷ prefix ∷ serializable ∷ limit (pos 7) ∷ []

abbrev answered : RangeResponse
answered = record { header = none; kvs = []; more = false; count = pos 3 }

-- A server with one answer for gets and one for deletes.
abbrev fixed : KvClient env
fixed = record client {
  range = λ ctx req opts w. (ok (resp answered), w);
  delete_range = λ ctx req opts w. (ok (fail 1), w);
}

kv_get-sends_example :
    (kv_get env (kv_do env fixed []) tt (codes "t") (codes "a") (options range_settings) before
      ≡ (ok (some (get_of answered), none), before))
    × (table_get env
          (kv_table env (kv_do env fixed []) (codes "t"))
          tt
          (codes "a")
          (options range_settings)
          before
        ≡ (ok (some (get_of answered), none), before))
kv_get-sends_example =
    kv_get-sends env fixed [] tt (codes "t") (codes "a") range_settings before before
      (resp answered) refl refl

-- The prefix "a" ends at "b", and the last limit counts.
range_of_settings : range_of (codes "t") (codes "a") range_settings ≡ record {
  table = codes "t";
  key = codes "a";
  range_end = some (codes "b");
  limit = pos 7;
  linearizable = false;
  keys_only = false;
  count_only = false;
  min_mod_revision = pos 0;
  max_mod_revision = pos 0;
  min_create_revision = pos 0;
  max_create_revision = pos 0;
}
unfolding get_prefix
range_of_settings = refl

abbrev delete_settings : List Setting
delete_settings = from_key ∷ prev_kv ∷ []

kv_delete-sends_example :
    (kv_delete env (kv_do env fixed []) tt (codes "t") [] (options delete_settings) before
      ≡ (ok (outcome env fixed [] tt Responses.delete_of (fail 1) before), before))
    × (table_delete env
          (kv_table env (kv_do env fixed []) (codes "t"))
          tt
          []
          (options delete_settings)
          before
        ≡ (ok (outcome env fixed [] tt Responses.delete_of (fail 1) before), before))
kv_delete-sends_example =
    kv_delete-sends env fixed [] tt (codes "t") [] delete_settings before before (fail 1) refl refl

-- ===== src/Kv/Puts.antt =====
-- A put, from the caller's options to the request that is sent and from the reply back.
use regatta_go.Prelude.{◌≡◌, refl, ap, ◌∙◌, false, ◌||◌, Option, none, some, List}
use regatta_go.Go.{ok, Bytes}
use regatta_go.Go.Run.{◌>>=◌, >>=-known}
use regatta_go.Env.{Env, Reply, resp, fail, to_err}
use regatta_go.Proto
use regatta_go.Proto.{PutRequest}
use regatta_go.Retry.{CallOption}
use regatta_go.Responses.{PutResponse, put_of}
use regatta_go.Op.{t_put, Op, fields}
use regatta_go.Options.Settings.{Setting, options, uses, is_ranged, is_prev_kv}
use regatta_go.Options.Accepts.{for_range}
use regatta_go.Options.Plain.{op_put-made}
use regatta_go.Kv.{KvClient, kv_do, do_op, answer, kv_put, checked, OpResponse, no_response}
use regatta_go.Table.{kv_table, table_put}

module _ (env : Env) (remote : KvClient env) (copts : List (CallOption env)) (ctx : env.Ctx) where
  -- What a caller gets for a reply.
  abbrev pub put_result :
      Reply env.Err Proto.PutResponse → env.World → Option PutResponse × Option env.Err
  put_result (resp m) w = (some (put_of m), none)
  put_result (fail e) w = (none, to_err env ctx (to_err env ctx (some e) w) w)

  -- What `Do` gives for a reply.
  abbrev do_result : Reply env.Err Proto.PutResponse → env.World → OpResponse env × Option env.Err
  do_result (resp m) w = (record (no_response env) { put = some (put_of m) }, none)
  do_result (fail e) w = (no_response env, to_err env ctx (some e) w)

  abbrev request : Bytes → Op → PutRequest
  request table o = record {
    table = table;
    key = (fields o).key;
    value = (fields o).val;
    prev_kv = (fields o).prev_kv;
  }

  do_op-put :
      (o : Op) (table : Bytes) (w w' : env.World) (r : Reply env.Err Proto.PutResponse)
      → remote.put ctx (request table o) copts w ≡ (ok r, w')
      → do_op env remote copts ctx table o t_put w ≡ (ok (do_result r w'), w')
  unfolding do_op answer
  do_op-put o table w w' (resp m) called =
      >>=-known (remote.put ctx (request table o) copts) _ w called
  do_op-put o table w w' (fail e) called =
      >>=-known (remote.put ctx (request table o) copts) _ w called

  put-do :
      (o : Op) (table : Bytes) (w w' : env.World) (r : Reply env.Err Proto.PutResponse)
      → (fields o).t ≡ t_put
      → remote.put ctx (request table o) copts w ≡ (ok r, w')
      → (kv_do env remote copts ctx table o >>= checked env ctx (λ x. x.put)) w
        ≡ (ok (put_result r w'), w')
  unfolding kv_do to_err
  put-do o table w w' r is_put called =
      >>=-known (kv_do env remote copts ctx table o) _ w
        (ap (λ t. do_op env remote copts ctx table o t w) is_put ∙ do_op-put o table w w' r called)
      ∙ by_reply r
    where
      by_reply :
          (r : Reply env.Err Proto.PutResponse)
          → checked env ctx (λ x. x.put) (do_result r w') w' ≡ (ok (put_result r w'), w')
      by_reply (resp m) = refl
      by_reply (fail e) = refl

  -- A put with accepted options makes one call of the stub: a put with the caller's table, key and
  -- value that asks for the previous pair exactly if `WithPrevKV` is among the options. If that
  -- call returns, its reply comes back as a response, its error after `toErr`, twice, and the
  -- table's client does the same as the client.
  pub kv_put-sends :
      (table key val : Bytes) (ss : List Setting) (w w' : env.World)
      (r : Reply env.Err Proto.PutResponse)
      → (uses is_ranged ss || for_range ss) ≡ false
      → remote.put ctx
          (record { table = table; key = key; value = val; prev_kv = uses is_prev_kv ss })
          copts
          w
        ≡ (ok r, w')
      → (kv_put env (kv_do env remote copts) ctx table key val (options ss) w
          ≡ (ok (put_result r w'), w'))
        × (table_put env (kv_table env (kv_do env remote copts) table) ctx key val (options ss) w
            ≡ (ok (put_result r w'), w'))
  unfolding kv_put table_put kv_table
  kv_put-sends table key val ss w w' r accepted called =
      let (o, made, t, k, v, p) = op_put-made key val ss accepted in
      let done =
        put-do o table w w' r t
          (ap (λ q. remote.put ctx q copts w) (request-eq o k v p) ∙ called) in
      (rw made done, rw made done)
    where
      request-eq :
          (o : Op)
          → (fields o).key ≡ key
          → (fields o).val ≡ val
          → (fields o).prev_kv ≡ uses is_prev_kv ss
          → request table o
            ≡ record { table = table; key = key; value = val; prev_kv = uses is_prev_kv ss }
      request-eq o k v p = λ i. record { table = table; key = k i; value = v i; prev_kv = p i }

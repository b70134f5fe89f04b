-- ===== src/Kv.antt =====
-- kv.go: the operations of a key-value client over the stub `KVClient`, the hooks around `Do`, and
-- the clients that are bound to a table. What `Do` returns on an error is an empty `OpResponse`.
pub mod Iteration
pub mod CallOptions
pub mod Puts
pub mod HookOrder
pub mod Methods
pub mod Retried
pub mod Ranges
use mathlib.Core.List.{foldl}
use regatta_go.Prelude.{
  ℕ, zero, suc, Bool, true, false, Option, none, some, List, [], ◌∷◌, ◌++◌, if◌then◌else◌,
}
use regatta_go.Go.{Go, ok, panic, Bytes}
use regatta_go.Go.Run.{Run, pure, raise, lift, gets, ◌>>=◌, ◌>>◌}
use regatta_go.Env.{Env, Reply, resp, fail, to_err}
use regatta_go.Proto
use regatta_go.Proto.{
  RangeRequest, RangeResponse, PutRequest, DeleteRangeRequest, DeleteRangeResponse, TxnRequest,
}
use regatta_go.Responses.{
  GetResponse, PutResponse, DeleteResponse, TxnResponse, get_of, put_of, delete_of, txn_of,
}
use regatta_go.Retry.{CallOption, with_repeatable, with_max, iterate_range_retries}
use regatta_go.Op.{
  OpType, t_invalid, t_range, t_iterate_range, t_put, t_delete_range, t_txn, OpFields, Op, fields,
  to_range_request, to_txn_request,
}
use regatta_go.Options.{OpOption, op_get, op_iterate, op_put, op_delete}

module _ (env : Env) where
  open env use {World, Err, Ctx, Stream, is_eof}

  -- The stub `regattapb.KVClient`, and `Recv` of the streams that it opens.
  pub record KvClient : Type 0 where
    pub range : Ctx → RangeRequest → List (CallOption env) → Run World (Reply Err RangeResponse)
    pub iterate_range : Ctx → RangeRequest → List (CallOption env) → Run World (Reply Err Stream)
    pub put : Ctx → PutRequest → List (CallOption env) → Run World (Reply Err Proto.PutResponse)
    pub delete_range :
        Ctx → DeleteRangeRequest → List (CallOption env) → Run World (Reply Err DeleteRangeResponse)
    pub txn : Ctx → TxnRequest → List (CallOption env) → Run World (Reply Err Proto.TxnResponse)
    pub recv : Stream → Run World (Reply Err RangeResponse)

  -- An `IteratorResponse`: the closure of `Do` over its stream, or a function of a caller that
  -- yields the listed pairs while it is told to go on.
  pub data Iterator : Type 0 where
    from_stream : Stream → Iterator
    from_items : List (Option GetResponse × Option Err) → Iterator

  pub record OpResponse : Type 0 where
    pub put : Option PutResponse
    pub get : Option GetResponse
    pub del : Option DeleteResponse
    pub txn : Option TxnResponse
    pub iter : Option Iterator

  abbrev pub no_response : OpResponse
  no_response = record { put = none; get = none; del = none; txn = none; iter = none }

  -- The type `KvDo`: the response and the error of one operation.
  abbrev pub KvDo : Type 0
  KvDo = Ctx → Bytes → Op → Run World (OpResponse × Option Err)

  -- `retryKVClient`: reads may be repeated, and an iteration has retries of its own.
  unfoldable pub retry_kv_client : KvClient → KvClient
  retry_kv_client client = record {
    range = λ ctx req opts. client.range ctx req (opts ++ with_repeatable env ∷ []);
    iterate_range = λ ctx req opts.
        client.iterate_range ctx req
          (opts ++ with_repeatable env ∷ with_max env iterate_range_retries ∷ []);
    put = client.put;
    delete_range = client.delete_range;
    txn = client.txn;
    recv = client.recv;
  }

  -- The end of `Do`: the response, or nothing and the error that the caller sees.
  unfoldable pub answer :
      {A : Type 0} → Ctx → (A → OpResponse) → Reply Err A → Run World (OpResponse × Option Err)
  answer ctx f (resp a) w = (ok (f a, none), w)
  answer ctx f (fail e) w = (ok (no_response, to_err env ctx (some e) w), w)

  -- The `switch` of `Do`.
  unfoldable pub do_op :
      KvClient
      → List (CallOption env)
      → Ctx
      → Bytes
      → Op
      → OpType
      → Run World (OpResponse × Option Err)
  unfolding answer
  do_op remote opts ctx table o t_range = do
    req ← lift (to_range_request o table)
    r ← remote.range ctx req opts
    answer ctx (λ a. record no_response { get = some (get_of a) }) r
  do_op remote opts ctx table o t_iterate_range = do
    req ← lift (to_range_request o table)
    r ← remote.iterate_range ctx req opts
    answer ctx (λ s. record no_response { iter = some (from_stream s) }) r
  do_op remote opts ctx table o t_put = do
    let f = fields o
    r ←
        remote.put ctx (record { table = table; key = f.key; value = f.val; prev_kv = f.prev_kv })
          opts
    answer ctx (λ a. record no_response { put = some (put_of a) }) r
  do_op remote opts ctx table o t_delete_range = do
    let f = fields o
    r ←
        remote.delete_range ctx
          (record {
            table = table;
            key = f.key;
            range_end = f.end;
            prev_kv = f.prev_kv;
            count = f.count;
          })
          opts
    answer ctx (λ a. record no_response { del = some (delete_of a) }) r
  do_op remote opts ctx table o t_txn = do
    req ← lift (to_txn_request o table)
    r ← remote.txn ctx req opts
    answer ctx (λ a. record no_response { txn = some (txn_of a) }) r
  do_op remote opts ctx table o t_invalid = raise "Unknown op"

  -- `kv.Do`
  unfoldable pub kv_do : KvClient → List (CallOption env) → KvDo
  unfolding do_op
  kv_do remote opts ctx table o = do_op remote opts ctx table o (fields o).t

  -- A hook `OnKVCall`, which is given the `Do` that it stands in front of.
  abbrev pub KvHook : Type 0
  KvHook = Ctx → Bytes → Op → KvDo → Run World (OpResponse × Option Err)

  -- `hookedKV.Do`
  unfoldable pub hooked_do : KvDo → KvHook → KvDo
  hooked_do inner hook ctx table o = hook ctx table o inner

  -- `newKV`: each hook wraps what stands before it.
  unfoldable pub new_kv : KvClient → List (CallOption env) → List KvHook → KvDo
  unfolding hooked_do retry_kv_client kv_do
  new_kv remote opts hooks = foldl hooked_do (kv_do (retry_kv_client remote) opts) hooks

  -- `r, err := kv.Do(…); return r.field, toErr(ctx, err)`
  abbrev pub checked :
      {A : Type 0} → Ctx → (OpResponse → A) → OpResponse × Option Err → Run World (A × Option Err)
  checked ctx field (r, err) w = (ok (field r, to_err env ctx err w), w)

  unfoldable pub kv_put :
      KvDo
      → Ctx
      → Bytes
      → Bytes
      → Bytes
      → List OpOption
      → Run World (Option PutResponse × Option Err)
  kv_put kv ctx table key val opts = do
    o ← lift (op_put key val opts)
    r ← kv ctx table o
    checked ctx (λ r. r.put) r

  unfoldable pub kv_get :
      KvDo → Ctx → Bytes → Bytes → List OpOption → Run World (Option GetResponse × Option Err)
  kv_get kv ctx table key opts = do
    o ← lift (op_get key opts)
    r ← kv ctx table o
    checked ctx (λ r. r.get) r

  unfoldable pub kv_iterate :
      KvDo → Ctx → Bytes → Bytes → List OpOption → Run World (Option Iterator × Option Err)
  kv_iterate kv ctx table key opts = do
    o ← lift (op_iterate key opts)
    r ← kv ctx table o
    checked ctx (λ r. r.iter) r

  unfoldable pub kv_delete :
      KvDo → Ctx → Bytes → Bytes → List OpOption → Run World (Option DeleteResponse × Option Err)
  kv_delete kv ctx table key opts = do
    o ← lift (op_delete key opts)
    r ← kv ctx table o
    checked ctx (λ r. r.del) r

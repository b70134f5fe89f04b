-- ===== src/Kv/Methods.antt =====
-- kv.go: the interface `KV` and its two implementations, with all their methods, and the chain of them
-- that `newKV` builds. The operations of `Kv` are those of one `Do`; here each method of a hooked client
-- is its own, and the chain has the same methods as its `Do`.
use mathlib.Core.List.{foldl}
use regatta_go.Prelude.{◌≡◌, refl, Option, some, List, [], ◌∷◌}
use regatta_go.Go.{Bytes}
use regatta_go.Go.Run.{Run, lift, ◌>>=◌}
use regatta_go.Env.{Env}
use regatta_go.Responses.{GetResponse, PutResponse, DeleteResponse, TxnResponse}
use regatta_go.Retry.{CallOption}
use regatta_go.Options.{OpOption, op_get, op_iterate, op_put, op_delete}
use regatta_go.Kv.{
  KvClient, KvDo, KvHook, Iterator, OpResponse, no_response, checked, kv_do, kv_put, kv_get,
  kv_iterate, kv_delete, retry_kv_client, hooked_do, new_kv,
}
use regatta_go.Txn.{Txn, new_txn, fresh}
use regatta_go.Table.{Table, kv_table}

module _ (env : Env) where
  open env use {World, Err, Ctx}

  -- `OpResponse()` of each response.
  unfoldable pub of_put : PutResponse → OpResponse env
  of_put r = record (no_response env) { put = some r }

  unfoldable pub of_get : GetResponse → OpResponse env
  of_get r = record (no_response env) { get = some r }

  unfoldable pub of_delete : DeleteResponse → OpResponse env
  of_delete r = record (no_response env) { del = some r }

  unfoldable pub of_txn : TxnResponse → OpResponse env
  of_txn r = record (no_response env) { txn = some r }

  unfoldable pub of_iterator : Iterator env → OpResponse env
  of_iterator r = record (no_response env) { iter = some r }

  pub record KvMethods : Type 0 where
    pub do_ : KvDo env
    pub put :
        Ctx → Bytes → Bytes → Bytes → List OpOption → Run World (Option PutResponse × Option Err)
    pub get : Ctx → Bytes → Bytes → List OpOption → Run World (Option GetResponse × Option Err)
    pub iterate :
        Ctx → Bytes → Bytes → List OpOption → Run World (Option (Iterator env) × Option Err)
    pub delete :
        Ctx → Bytes → Bytes → List OpOption → Run World (Option DeleteResponse × Option Err)
    pub txn : Ctx → Bytes → Txn env
    pub table : Bytes → Table env

  -- The methods that go through one `Do`: those of the struct `kv`.
  unfoldable pub methods_of : KvDo env → KvMethods
  methods_of d = record {
    do_ = d;
    put = kv_put env d;
    get = kv_get env d;
    iterate = kv_iterate env d;
    delete = kv_delete env d;
    txn = new_txn env d;
    table = kv_table env d;
  }

  -- The struct `hookedKV`: its `Do` gives the hook the embedded client's `Do`; its other methods are
  -- those below, not the embedded ones.
  module _ (inner : KvMethods) (hook : KvHook env) where
    hooked_kv_do : KvDo env
    hooked_kv_do ctx table o = hook ctx table o inner.do_

    hooked_put :
        Ctx → Bytes → Bytes → Bytes → List OpOption → Run World (Option PutResponse × Option Err)
    unfolding hooked_kv_do
    hooked_put ctx table key val opts = do
      o ← lift (op_put key val opts)
      r ← hooked_kv_do ctx table o
      checked env ctx (λ r. r.put) r

    hooked_get : Ctx → Bytes → Bytes → List OpOption → Run World (Option GetResponse × Option Err)
    unfolding hooked_kv_do
    hooked_get ctx table key opts = do
      o ← lift (op_get key opts)
      r ← hooked_kv_do ctx table o
      checked env ctx (λ r. r.get) r

    hooked_iterate :
        Ctx → Bytes → Bytes → List OpOption → Run World (Option (Iterator env) × Option Err)
    unfolding hooked_kv_do
    hooked_iterate ctx table key opts = do
      o ← lift (op_iterate key opts)
      r ← hooked_kv_do ctx table o
      checked env ctx (λ r. r.iter) r

    hooked_delete :
        Ctx → Bytes → Bytes → List OpOption → Run World (Option DeleteResponse × Option Err)
    unfolding hooked_kv_do
    hooked_delete ctx table key opts = do
      o ← lift (op_delete key opts)
      r ← hooked_kv_do ctx table o
      checked env ctx (λ r. r.del) r

    hooked_kv : KvMethods
    unfolding hooked_kv_do hooked_put hooked_get hooked_iterate hooked_delete
    hooked_kv = record {
      do_ = hooked_kv_do;
      put = hooked_put;
      get = hooked_get;
      iterate = hooked_iterate;
      delete = hooked_delete;
      txn = λ ctx table. record { kv = hooked_kv_do; ctx = ctx; table = table; builder = fresh };
      table = λ name. record { kv = hooked_kv_do; table = name };
    }

  -- `newKV`, the value that it returns.
  pub new_kv_methods : KvClient env → List (CallOption env) → List (KvHook env) → KvMethods
  unfolding hooked_kv methods_of
  new_kv_methods remote copts hooks =
      foldl hooked_kv (methods_of (kv_do env (retry_kv_client env remote) copts)) hooks

  hooked_kv-methods_of :
      (d : KvDo env) (h : KvHook env) → hooked_kv (methods_of d) h ≡ methods_of (hooked_do env d h)
  unfolding hooked_kv methods_of hooked_do kv_put kv_get kv_iterate kv_delete new_txn kv_table
  hooked_kv-methods_of d h = refl

  foldl-methods_of :
      (d : KvDo env) (hs : List (KvHook env))
      → foldl hooked_kv (methods_of d) hs ≡ methods_of (foldl (hooked_do env) d hs)
  foldl-methods_of d [] = refl
  foldl-methods_of d (h ∷ hs) = rw hooked_kv-methods_of (foldl-methods_of (hooked_do env d h) hs)

  -- Whatever the hooks, each method of the client that `newKV` builds, the transactions and the tables
  -- that it makes included, is that of a client with one `Do`: the `Do` behind all the hooks. So no
  -- operation passes a hook by.
  pub new_kv_methods-Do :
      (remote : KvClient env) (copts : List (CallOption env)) (hooks : List (KvHook env))
      → new_kv_methods remote copts hooks ≡ methods_of (new_kv env remote copts hooks)
  unfolding new_kv_methods new_kv
  new_kv_methods-Do remote copts hooks = foldl-methods_of _ hooks

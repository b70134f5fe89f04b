-- ===== src/Table.antt =====
-- kv.go: the client of one table, which hands its table's name to the `Do` of its client.
use regatta_go.Prelude.{Option, List}
use regatta_go.Go.{Bytes}
use regatta_go.Go.Run.{Run, lift, ◌>>=◌}
use regatta_go.Env.{Env}
use regatta_go.Responses.{GetResponse, PutResponse, DeleteResponse}
use regatta_go.Options.{OpOption, op_get, op_iterate, op_put, op_delete}
use regatta_go.Kv.{KvDo, Iterator, checked}
use regatta_go.Txn.{Txn, new_txn}

module _ (env : Env) where
  open env use {World, Err, Ctx}

  pub record Table : Type 0 where
    pub kv : KvDo env
    pub table : Bytes

  -- `kv.Table(name)` and `hookedKV.Table(name)`
  unfoldable pub kv_table : KvDo env → Bytes → Table
  kv_table kv name = record { kv = kv; table = name }

  unfoldable pub table_put :
      Table → Ctx → Bytes → Bytes → List OpOption → Run World (Option PutResponse × Option Err)
  table_put t ctx key val opts = do
    o ← lift (op_put key val opts)
    r ← t.kv ctx t.table o
    checked env ctx (λ r. r.put) r

  unfoldable pub table_get :
      Table → Ctx → Bytes → List OpOption → Run World (Option GetResponse × Option Err)
  table_get t ctx key opts = do
    o ← lift (op_get key opts)
    r ← t.kv ctx t.table o
    checked env ctx (λ r. r.get) r

  unfoldable pub table_iterate :
      Table → Ctx → Bytes → List OpOption → Run World (Option (Iterator env) × Option Err)
  table_iterate t ctx key opts = do
    o ← lift (op_iterate key opts)
    r ← t.kv ctx t.table o
    checked env ctx (λ r. r.iter) r

  unfoldable pub table_delete :
      Table → Ctx → Bytes → List OpOption → Run World (Option DeleteResponse × Option Err)
  table_delete t ctx key opts = do
    o ← lift (op_delete key opts)
    r ← t.kv ctx t.table o
    checked env ctx (λ r. r.del) r

  unfoldable pub table_txn : Table → Ctx → Txn env
  unfolding new_txn
  table_txn t ctx = new_txn env t.kv ctx t.table

-- ===== src/Txn.antt =====
-- txn.go: the builder of a transaction. Each call holds the mutex for its whole body, so the calls
-- are a sequence; a call returns the receiver, here the new state.
pub mod Order
pub mod Messages
pub mod Commits
use regatta_go.Prelude.{
  Bool, true, false, ◌||◌, Option, none, some, List, [], ◌∷◌, ◌++◌, if◌then◌else◌,
}
use regatta_go.Go.{Go, ok, panic, Bytes}
use regatta_go.Go.Run.{Run, pure, raise, ◌>>=◌}
use regatta_go.Env.{Env}
use regatta_go.Responses.{TxnResponse}
use regatta_go.Op.{Cmp, Op, is_write, op_txn}
use regatta_go.Kv.{KvDo, OpResponse}

-- The flags, the comparisons and the operations of the struct `txn`.
pub record Builder : Type 0 where
  pub cif : Bool
  pub cthen : Bool
  pub celse : Bool
  pub writes : Bool
  pub cmps : List Cmp
  pub sus : List Op
  pub fas : List Op

unfoldable pub fresh : Builder
fresh = record {
  cif = false;
  cthen = false;
  celse = false;
  writes = false;
  cmps = [];
  sus = [];
  fas = [];
}

unfoldable pub txn_if : Builder → List Cmp → Go Builder
txn_if b cs =
    if b.cif
    then panic "cannot call If twice!"
    else if b.cthen
    then panic "cannot call If after Then!"
    else if b.celse
    then panic "cannot call If after Else!"
    else ok (record b { cif = true; cmps = b.cmps ++ cs })

-- The loop over the operations of `Then`.
unfoldable pub then_loop : Builder → List Op → Builder
then_loop b [] = b
then_loop b (o ∷ os) =
    then_loop (record b { writes = b.writes || is_write o; sus = b.sus ++ o ∷ [] }) os

unfoldable pub txn_then : Builder → List Op → Go Builder
txn_then b ops =
    if b.cthen
    then panic "cannot call Then twice!"
    else if b.celse
    then panic "cannot call Then after Else!"
    else ok (then_loop (record b { cthen = true }) ops)

unfoldable pub else_loop : Builder → List Op → Builder
else_loop b [] = b
else_loop b (o ∷ os) =
    else_loop (record b { writes = b.writes || is_write o; fas = b.fas ++ o ∷ [] }) os

unfoldable pub txn_else : Builder → List Op → Go Builder
txn_else b ops =
    if b.celse
    then panic "cannot call Else twice!"
    else ok (else_loop (record b { celse = true }) ops)

-- The struct `txn`: the client, the context and the table it was made for, and its builder.
module _ (env : Env) where
  open env use {World, Err, Ctx}

  pub record Txn : Type 0 where
    pub kv : KvDo env
    pub ctx : Ctx
    pub table : Bytes
    pub builder : Builder

  -- `kv.Txn(ctx, table)` and `hookedKV.Txn(ctx, table)`
  unfoldable pub new_txn : KvDo env → Ctx → Bytes → Txn
  unfolding fresh
  new_txn kv ctx table = record { kv = kv; ctx = ctx; table = table; builder = fresh }

  -- A response with no `txn` in it is a nil pointer.
  committed : Option TxnResponse → Option Err → Run World (Option TxnResponse × Option Err)
  committed t (some e) = pure (none, some e)
  committed (some t) none =
      pure (
        some (record { header = t.header; succeeded = t.succeeded; responses = t.responses }),
        none,
      )
  committed none none = raise "invalid memory address or nil pointer dereference"

  unfoldable pub txn_commit : Txn → Run World (Option TxnResponse × Option Err)
  unfolding committed
  txn_commit t = do
    (r, err) ← t.kv t.ctx t.table (op_txn t.builder.cmps t.builder.sus t.builder.fas)
    committed r.txn err

-- ===== src/Kv/Ranges.antt =====
-- Gets, iterations and deletes, from the caller's options to the request that is sent and from the reply
-- back.
use regatta_go.Prelude.{◌≡◌, refl, ap, ◌∙◌, false, ◌||◌, Option, none, some, List}
use regatta_go.Go.{ok, Bytes}
use regatta_go.Go.Run.{Run, ◌>>=◌, >>=-known}
use regatta_go.Env.{Env, Reply, resp, fail, to_err}
use regatta_go.Proto.{RangeResponse, DeleteRangeResponse}
use regatta_go.Retry.{CallOption}
use regatta_go.Responses.{GetResponse, DeleteResponse, get_of}
use regatta_go.Responses
use regatta_go.Op.{t_range, t_iterate_range, Op, fields, range_request, to_range_request}
use regatta_go.Options.Settings.{Setting, options, uses, is_count, is_prev_kv}
use regatta_go.Options.Accepts.{both_ranges, for_range}
use regatta_go.Options.Ranged.{range_of, deletion_of, op_get-made, op_iterate-made, op_delete-made}
use regatta_go.Kv.{
  KvClient, kv_do, do_op, answer, kv_get, kv_iterate, kv_delete, checked, OpResponse, no_response,
  from_stream,
}
use regatta_go.Table.{kv_table, table_get, table_iterate, table_delete}

module _ (env : Env) (remote : KvClient env) (copts : List (CallOption env)) (ctx : env.Ctx) where
  open env use {World, Err, Stream}

  -- What a caller gets for a reply: the value made of it, or the error after `toErr`, twice.
  abbrev pub outcome : {A B : Type 0} → (A → B) → Reply Err A → World → Option B × Option Err
  outcome f (resp m) w = (some (f m), none)
  outcome f (fail e) w = (none, to_err env ctx (to_err env ctx (some e) w) w)

  -- A field that `f` sets and that is empty otherwise.
  called :
      {A B : Type 0} (call : Run World (Reply Err A)) (f : A → B) (put_in : A → OpResponse env)
      (field : OpResponse env → Option B) (w w' : World) (r : Reply Err A)
      → ((a : A) → field (put_in a) ≡ some (f a))
      → field (no_response env) ≡ none
      → call w ≡ (ok r, w')
      → ((call >>= answer env ctx put_in) >>= checked env ctx field) w ≡ (ok (outcome f r w'), w')
  unfolding answer to_err
  called call f put_in field w w' (resp m) sets empty h =
      >>=-known (call >>= answer env ctx put_in) _ w (>>=-known call _ w h)
      ∙ ap (λ x. (ok (x, none), w')) (sets m)
  called call f put_in field w w' (fail e) sets empty h =
      >>=-known (call >>= answer env ctx put_in) _ w (>>=-known call _ w h)
      ∙ ap (λ x. (ok (x, to_err env ctx (to_err env ctx (some e) w') w'), w')) empty

  to_range_request-eq :
      (o : Op) (table : Bytes)
      → (fields o).t ≡ t_range
      → to_range_request o table ≡ ok (range_request (fields o) table)
  unfolding to_range_request
  to_range_request-eq o table t = rw t

  -- A get with accepted options makes one call of the stub: a range under the caller's table, from
  -- the key to the end that the prefix, range and start options leave, with the last limit,
  -- linearizable unless `WithSerializable` is among the options, keys or counts only if that is
  -- asked for, and no bound on revisions. If that call returns, its reply comes back as a response,
  -- its error after `toErr`, twice, and the table's client does the same as the client.
  pub kv_get-sends :
      (table key : Bytes) (ss : List Setting) (w w' : World) (r : Reply Err RangeResponse)
      → (both_ranges ss || (uses is_count ss || uses is_prev_kv ss)) ≡ false
      → remote.range ctx (range_of table key ss) copts w ≡ (ok r, w')
      → (kv_get env (kv_do env remote copts) ctx table key (options ss) w
          ≡ (ok (outcome get_of r w'), w'))
        × (table_get env (kv_table env (kv_do env remote copts) table) ctx key (options ss) w
            ≡ (ok (outcome get_of r w'), w'))
  unfolding kv_get table_get kv_table kv_do do_op
  kv_get-sends table key ss w w' r accepted h =
      let (o, m, t, q) = op_get-made table key ss accepted in
      let done =
        called (remote.range ctx (range_of table key ss) copts) get_of _ (λ x. x.get) w w' r
          (λ a. refl) refl h in
      (
        rw (m, t, to_range_request-eq o table t, q) done,
        rw (m, t, to_range_request-eq o table t, q) done,
      )

  to_range_request-iterate :
      (o : Op) (table : Bytes)
      → (fields o).t ≡ t_iterate_range
      → to_range_request o table ≡ ok (range_request (fields o) table)
  unfolding to_range_request
  to_range_request-iterate o table t = rw t

  -- An iteration with options that a get accepts makes one call too: the range stream of the same
  -- request. If that call returns, the caller gets an iterator over the stream, or the error after
  -- `toErr`, twice, from the table's client too.
  pub kv_iterate-sends :
      (table key : Bytes) (ss : List Setting) (w w' : World) (r : Reply Err Stream)
      → (both_ranges ss || (uses is_count ss || uses is_prev_kv ss)) ≡ false
      → remote.iterate_range ctx (range_of table key ss) copts w ≡ (ok r, w')
      → (kv_iterate env (kv_do env remote copts) ctx table key (options ss) w
          ≡ (ok (outcome (λ s. from_stream s) r w'), w'))
        × (table_iterate env (kv_table env (kv_do env remote copts) table) ctx key (options ss) w
            ≡ (ok (outcome (λ s. from_stream s) r w'), w'))
  unfolding kv_iterate table_iterate kv_table kv_do do_op
  kv_iterate-sends table key ss w w' r accepted h =
      let (o, m, t, q) = op_iterate-made table key ss accepted in
      let done =
        called (remote.iterate_range ctx (range_of table key ss) copts) (λ s. from_stream s) _
          (λ x. x.iter) w w' r (λ a. refl) refl h in
      (
        rw (m, t, to_range_request-iterate o table t, q) done,
        rw (m, t, to_range_request-iterate o table t, q) done,
      )

  -- A delete with accepted options makes one call of the stub: a deletion under the caller's table,
  -- from the key to the end that the prefix, range and start options leave, that asks for the
  -- previous pairs or the count exactly if `WithPrevKV` or `WithCount` is among the options. If
  -- that call returns, its reply comes back as a response, its error after `toErr`, twice, and the
  -- table's client does the same as the client.
  pub kv_delete-sends :
      (table key : Bytes) (ss : List Setting) (w w' : World) (r : Reply Err DeleteRangeResponse)
      → (both_ranges ss || for_range ss) ≡ false
      → remote.delete_range ctx (deletion_of table key ss) copts w ≡ (ok r, w')
      → (kv_delete env (kv_do env remote copts) ctx table key (options ss) w
          ≡ (ok (outcome Responses.delete_of r w'), w'))
        × (table_delete env (kv_table env (kv_do env remote copts) table) ctx key (options ss) w
            ≡ (ok (outcome Responses.delete_of r w'), w'))
  unfolding kv_delete table_delete kv_table kv_do do_op
  kv_delete-sends table key ss w w' r accepted h =
      let (o, m, t, q) = op_delete-made table key ss accepted in
      let done =
        called (remote.delete_range ctx (deletion_of table key ss) copts) Responses.delete_of _
          (λ x. x.del) w w' r (λ a. refl) refl h in
      (rw (m, t, q) done, rw (m, t, q) done)

-- ===== src/Op/Requests.antt =====
-- The translation of operations to requests: when it panics, and which writes it reports.
use regatta_go.Prelude.{
  all, any, ◌≡◌, refl, ap, Bool, not, ◌&&◌, ◌||◌, List, [], ◌∷◌, ◌++◌, if◌then◌else◌, Bool-cases,
  inl, inr, arith,
}
use mathlib.Core.Path.{ap₂}
use regatta_go.Go.{is_ok, Bytes}
use regatta_go.Op.{
  OpType, t_range, Cmp, Op, op, Ops, nil, cons, ops_of, list_of, fields, is_t_range, is_t_put,
  is_t_delete_range, is_t_txn, is_get, is_put, is_delete, request_op, to_request_op, to_request_ops,
  to_txn_request, is_write, any_write, op_txn,
}

pub list_of-ops_of : (os : List Op) → list_of (ops_of os) ≡ os
list_of-ops_of [] = refl
list_of-ops_of (o ∷ os) = ap (λ xs. o ∷ xs) (list_of-ops_of os)

-- The operations that a transaction may hold.
abbrev pub fits_txn : Op → Bool
fits_txn o = is_get o || is_put o || is_delete o

to_request_op-ok : (o : Op) → is_ok (to_request_op o) ≡ fits_txn o
unfolding to_request_op is_get is_put is_delete
to_request_op-ok (op f a b) = by_type f.t
  where
    by_type :
        (t : OpType) → is_ok (request_op t f) ≡ (is_t_range t || is_t_put t || is_t_delete_range t)
    by_type t_range = refl
    by_type _ = refl

to_request_ops-ok : (os : List Op) → is_ok (to_request_ops os) ≡ all fits_txn os
unfolding to_request_ops
to_request_ops-ok [] = refl
to_request_ops-ok (o ∷ os) = ground (arith, to_request_op-ok o, to_request_ops-ok os)

-- The request of a transaction is built exactly when both its branches hold nothing but gets, puts
-- and deletes; a nested transaction, an iteration or an operation of no type makes it panic.
pub to_txn_request-accepts :
    (cmps : List Cmp) (thens elses : List Op) (table : Bytes)
    → is_ok (to_txn_request (op_txn cmps thens elses) table)
      ≡ (all fits_txn thens && all fits_txn elses)
unfolding to_txn_request op_txn
to_txn_request-accepts cmps thens elses table = ground (
  arith,
  list_of-ops_of thens,
  list_of-ops_of elses,
  to_request_ops-ok thens,
  to_request_ops-ok elses,
)

-- The plain operations of an operation, those of nested transactions included.
mutual
  pub leaves : Op → List Op
  leaves (op f a b) = if is_t_txn f.t then leaves_of a ++ leaves_of b else op f a b ∷ []

  pub leaves_of : Ops → List Op
  leaves_of nil = []
  leaves_of (cons o os) = leaves o ++ leaves_of os

pub any-append : (p : Op → Bool) (xs ys : List Op) → any p (xs ++ ys) ≡ (any p xs || any p ys)
any-append p [] ys = refl
any-append p (x ∷ xs) ys = ground (arith, any-append p xs ys)

abbrev pub is_no_get : Op → Bool
is_no_get o = not (is_t_range (fields o).t)

mutual
  unfolding leaves is_write

  is_write-any : (o : Op) → is_write o ≡ any is_no_get (leaves o)
  is_write-any (op f a b) = elim (Bool-cases (is_t_txn f.t)) [
    | inl e ↦
        rw (e, any-append is_no_get (leaves_of a) (leaves_of b))
          (ap₂ ◌||◌ (any_write-any a) (any_write-any b))
    | inr e ↦ rw e (ground arith)
  ]

  any_write-any : (os : Ops) → any_write os ≡ any is_no_get (leaves_of os)
  any_write-any nil = refl
  any_write-any (cons o os) =
      rw (any-append is_no_get (leaves o) (leaves_of os))
        (ap₂ ◌||◌ (is_write-any o) (any_write-any os))

-- An operation counts as a write exactly when some plain operation in it, at whatever depth of
-- nested transactions, is not a get.
pub is_write-leaves : (o : Op) → is_write o ≡ any is_no_get (leaves o)
is_write-leaves o = is_write-any o

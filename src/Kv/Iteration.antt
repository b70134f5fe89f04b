-- ===== src/Kv/Iteration.antt =====
-- kv.go: the loop of the iterator that `Do` returns for an iteration.
pub mod Delivery
use regatta_go.Prelude.{ℕ, zero, suc, Bool, true, false, Option, none, some}
use regatta_go.Go.Run.{Run, pure, ◌>>=◌}
use regatta_go.Env.{Env, Reply, resp, fail}
use regatta_go.Proto.{RangeResponse}
use regatta_go.Responses.{GetResponse, get_of}

module _ (env : Env) (recv : Run env.World (Reply env.Err RangeResponse))
    (yield : Option GetResponse → Option env.Err → Run env.World Bool) where
  open env use {World, Err, is_eof}

  -- What one round does with a reply: `true` goes on to the next.
  unfoldable pub round : Reply Err RangeResponse → Run World Bool
  round (fail e) = elim (is_eof e) [ true ↦ pure false | false ↦ yield none (some e) ]
  round (resp r) = yield (some (get_of r)) none

  -- The `for` loop on fuel: `false` means that the fuel ran out before the loop was left.
  unfoldable pub iterate : ℕ → Run World Bool
  unfolding round
  iterate zero = pure false
  iterate (suc fuel) = do
    r ← recv
    more ← round r
    elim more [ true ↦ iterate fuel | false ↦ pure true ]

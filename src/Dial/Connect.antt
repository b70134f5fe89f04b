-- ===== src/Dial/Connect.antt =====
-- client.go: `dial` over the connection of gRPC, the parameter `Network`.
use regatta_go.Prelude.{ℤ, Bool, true, false, List, if◌then◌else◌}
use regatta_go.Go.{Go, ok, Bytes}
use regatta_go.Go.Run.{Run, pure, lift, ◌>>=◌}
use regatta_go.Env.{Env, Reply, resp, fail}
use regatta_go.Config.{Config}
use regatta_go.Client.{is_positive}
use regatta_go.Dial.{DialOpt}

-- The states of a connection that the client names.
pub data ConnState : Type 0 where
  idle ready other_state : ConnState

module _ (env : Env) where
  open env use {World, Err, Ctx}

  pub record Network : Type 1 where
    pub Conn : Type 0
    -- `grpc.NewClient`
    pub new_conn : Bytes → List DialOpt → Run World (Reply Err Conn)
    -- `context.WithTimeout`
    pub with_timeout : Ctx → ℤ → Ctx
    -- `WaitForStateChange`
    pub wait_for_state_change : Ctx → Conn → ConnState → Run World Bool
    -- the error of a connection that is not ready in time
    pub not_ready : Ctx → World → Err
    -- `GetState`
    pub state : Conn → World → ConnState

  module _ (net : Network) where
    open net use {Conn}

    -- After `WaitForStateChange`.
    in_time : Ctx → Conn → Bool → Run World (Reply Err Conn)
    in_time ctx conn true w = (ok (resp conn), w)
    in_time ctx conn false w = (ok (fail (net.not_ready ctx w)), w)

    unfoldable pub await_connection : Config → Ctx → Reply Err Conn → Run World (Reply Err Conn)
    unfolding in_time
    await_connection cfg ctx (fail e) = pure (fail e)
    await_connection cfg ctx (resp conn) =
        if is_positive cfg.initial_connection_timeout
        then (let ctx' = net.with_timeout ctx cfg.initial_connection_timeout in
            net.wait_for_state_change ctx' conn ready >>= in_time ctx' conn)
        else pure (resp conn)

    unfoldable pub dial : Config → Ctx → Go (Bytes × List DialOpt) → Run World (Reply Err Conn)
    unfolding await_connection
    dial cfg ctx args = lift args >>= λ a. (net.new_conn a.0 a.1 >>= await_connection cfg ctx)

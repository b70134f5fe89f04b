-- ===== src/Resolver.antt =====
-- internal/resolver/resolver.go: the resolver that hands the client's endpoints to gRPC. The manual
-- resolver of gRPC that it embeds is the parameter `Manual`; a method returns the receiver as it is
-- afterwards.
pub mod Agreement
use regatta_go.Prelude.{Option, none, some, List, [], ◌∷◌}
use regatta_go.Go.{Go, ok, panic, ◌>>=◌, Bytes, codes}
use regatta_go.Go.Run.{Run}
use regatta_go.Env.{Reply, resp, fail}
use regatta_go.Endpoint.{Url, interpret}

-- `Addr` and `ServerName` of a `resolver.Address`.
abbrev pub Address : Type 0
Address = Bytes × Bytes

pub record State (ServiceConfig : Type 0) : Type 0 where
  pub addresses : List Address
  pub service_config : Option ServiceConfig

pub record Manual : Type 1 where
  pub World : Type 0
  pub Err : Type 0
  -- a manual resolver, a `resolver.ClientConn` and a parsed service configuration
  pub Inner : Type 0
  pub Conn : Type 0
  pub ServiceConfig : Type 0
  pub parse_service_config : Conn → Bytes → ServiceConfig
  -- the field `Err` of a parsed configuration
  pub config_err : ServiceConfig → Option Err
  -- the field `CC`
  pub cc : Inner → Option Conn
  pub build : Inner → Conn → World → Reply Err Inner × World
  pub update_state : Inner → State ServiceConfig → World → World

abbrev pub policy : Bytes
policy = codes "{\"loadBalancingPolicy\": \"round_robin\"}"

module _ (man : Manual) where
  open man use {World, Err, Inner, Conn, ServiceConfig}

  pub record Resolver : Type 0 where
    pub inner : Inner
    pub endpoints : List Bytes
    pub service_config : Option ServiceConfig

  -- `New`, over the manual resolver that it makes.
  unfoldable pub new : Inner → List Bytes → Resolver
  new inner endpoints = record { inner = inner; endpoints = endpoints; service_config = none }

module _ (parse_url : Bytes → Option Url) where
  -- The loop of `updateState`.
  unfoldable pub addresses_of : List Bytes → Go (List Address)
  addresses_of [] = ok []
  addresses_of (ep ∷ eps) = do a ← interpret parse_url ep; rest ← addresses_of eps; ok (a ∷ rest)

  module _ (man : Manual) where
    open man use {World, Err, Inner, Conn, ServiceConfig}

    send : Resolver man → Go (List Address) → Run World (Resolver man)
    send r (panic m) w = (panic m, w)
    send r (ok addresses) w = (
      ok r,
      man.update_state r.inner (record { addresses = addresses; service_config = r.service_config })
          w,
    )

    if_connected : Resolver man → Option Conn → Run World (Resolver man)
    unfolding send addresses_of
    if_connected r none w = (ok r, w)
    if_connected r (some cc) w = send r (addresses_of r.endpoints) w

    unfoldable pub update_state : Resolver man → Run World (Resolver man)
    unfolding if_connected
    update_state r = if_connected r (man.cc r.inner)

    unfoldable pub set_endpoints : Resolver man → List Bytes → Run World (Resolver man)
    unfolding update_state
    set_endpoints r eps = update_state (record r { endpoints = eps })

    -- `Build` after `r.Resolver.Build`, and after the configuration was parsed.
    after_build : Resolver man → Reply Err Inner × World → Go (Resolver man × Option Err) × World
    unfolding update_state
    after_build r (fail e, w) = (ok (r, some e), w)
    after_build r (resp inner, w) =
        let (g, w') = update_state (record r { inner = inner }) w in
        (g >>= (λ r'. ok (r', none)), w')

    after_parse : Resolver man → Conn → Option Err → Run World (Resolver man × Option Err)
    unfolding after_build
    after_parse r cc (some e) w = (ok (r, some e), w)
    after_parse r cc none w = after_build r (man.build r.inner cc w)

    unfoldable pub build : Resolver man → Conn → Run World (Resolver man × Option Err)
    unfolding after_parse
    build r cc =
        let sc = man.parse_service_config cc policy in
        after_parse (record r { service_config = some sc }) cc (man.config_err sc)

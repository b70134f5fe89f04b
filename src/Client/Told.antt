-- ===== src/Client/Told.antt =====
-- client.go: `SetEndpoints`, `Sync` and the loop of `autoSync` over the resolver itself, and what gRPC is
-- told by them.
use regatta_go.Prelude.{◌≡◌, refl, ap, ◌∙◌, Option, none, some, List, [], ◌∷◌, ◌++◌, if◌then◌else◌}
use regatta_go.Go.{ok, Bytes, is_empty}
use regatta_go.Go.Run.{Run, pure, ◌>>=◌, >>=-known}
use regatta_go.Env.{resp, fail}
use regatta_go.Proto.Admin.{Member}
use regatta_go.Endpoint.{Url}
use regatta_go.Client.{named_urls}
use regatta_go.Resolver
use regatta_go.Resolver.{Address, State, Manual, Resolver, new, addresses_of, build}
use regatta_go.Resolver.Agreement as Agreement
use regatta_go.Resolver.Agreement.{Agrees, idle, run_event-Agrees}

module _ (man : Manual) (parse_url : Bytes → Option Url) where
  -- The endpoints of a client and its resolver.
  pub record Held : Type 0 where
    pub endpoints : List Bytes
    pub resolver : Resolver man

  -- `newClient` makes the resolver of the configured endpoints.
  unfoldable pub held_new : man.Inner → List Bytes → Held
  held_new inner eps = record { endpoints = eps; resolver = new man inner eps }

  -- `Client.SetEndpoints`
  unfoldable pub held_set_endpoints : Held → List Bytes → Run man.World Held
  held_set_endpoints c eps = do
    r ← Resolver.set_endpoints parse_url man c.resolver eps
    pure (record { endpoints = eps; resolver = r })

  -- `Client.Sync`, with the members that were listed; `none` is an error of the listing.
  unfoldable pub held_sync : Held → Option (List Member) → Run man.World Held
  unfolding held_set_endpoints
  held_sync c none = pure c
  held_sync c (some members) = held_set_endpoints c (named_urls members)

  -- What happens to them: gRPC builds the resolver, a caller sets endpoints, and a caller or the loop
  -- of `autoSync` lists the members.
  pub data Event : Type 0 where
    built : man.Conn → Event
    endpoints_set : List Bytes → Event
    synced : Option (List Member) → Event

  unfoldable pub held_event : Held → Event → Run man.World Held
  unfolding held_sync
  held_event c (built conn) = do
    r ← (build parse_url man c.resolver conn >>= λ p. pure p.0)
    pure (record c { resolver = r })
  held_event c (endpoints_set eps) = held_set_endpoints c eps
  held_event c (synced reply) = held_sync c reply

  abbrev pub held_events : Held → List Event → Run man.World Held
  held_events c [] = pure c
  held_events c (e ∷ es) = held_event c e >>= λ c'. held_events c' es

  -- The URLs of the members that have a name, in order.
  abbrev pub urls_if : Bytes → List Bytes → List Bytes
  urls_if [] urls = []
  urls_if (c ∷ cs) urls = urls

  abbrev pub urls_of : List Member → List Bytes
  urls_of [] = []
  urls_of (m ∷ ms) = urls_if m.name m.client_urls ++ urls_of ms

  named_urls-urls_of : (ms : List Member) → named_urls ms ≡ urls_of ms
  unfolding named_urls
  named_urls-urls_of [] = refl
  named_urls-urls_of (m ∷ ms) = by_name m.name (named_urls-urls_of ms)
    where
      by_name :
          (name : Bytes)
          → named_urls ms ≡ urls_of ms
          → (if is_empty name then named_urls ms else m.client_urls ++ named_urls ms)
            ≡ urls_if name m.client_urls ++ urls_of ms
      by_name [] rest = rest
      by_name (c ∷ cs) rest = ap (λ us. m.client_urls ++ us) rest

  -- The endpoints that were given last: by a caller, or by a listing that succeeded.
  abbrev pub given : List Bytes → Event → List Bytes
  given eps (built conn) = eps
  given eps (endpoints_set eps') = eps'
  given eps (synced none) = eps
  given eps (synced (some members)) = urls_of members

  abbrev pub last_given : List Bytes → List Event → List Bytes
  last_given eps [] = eps
  last_given eps (e ∷ es) = last_given (given eps e) es

  module _ (latest : man.World → Option (State man.ServiceConfig))
      (attached : man.World → Option man.Conn) where
    -- The client and its resolver have the same endpoints, and gRPC knows them.
    pub data InStep (c : Held) (w : man.World) : Type 0 where
      in_step :
          c.resolver.endpoints ≡ c.endpoints
          → Agrees man parse_url latest attached c.resolver w
          → InStep c w

    abbrev pub Leaves : List Bytes → Run man.World Held → man.World → Type 0
    Leaves eps m w =
        (c : Held) × (w' : man.World) × (m w ≡ (ok c, w')) × InStep c w' × (c.endpoints ≡ eps)

    module _
        (updates : (inner : man.Inner) (s : State man.ServiceConfig) (w : man.World)
          → (latest (man.update_state inner s w) ≡ some s)
            × (attached (man.update_state inner s w) ≡ attached w))
        (attaches : (inner : man.Inner) (conn : man.Conn) (w : man.World) (inner' : man.Inner)
            (w' : man.World)
          → man.build inner conn w ≡ (resp inner', w')
          → (man.cc inner' ≡ some conn) × (attached w' ≡ some conn))
        (refuses : (inner : man.Inner) (conn : man.Conn) (w : man.World) (e : man.Err)
            (w' : man.World)
          → man.build inner conn w ≡ (fail e, w')
          → (latest w' ≡ latest w) × (attached w' ≡ attached w)) where
      set-InStep :
          (c : Held) (eps : List Bytes) (w : man.World)
          → InStep c w
          → Leaves eps (held_set_endpoints c eps) w
      unfolding held_set_endpoints
      set-InStep c eps w (in_step same a) =
          let (r, w', h, a', q) =
            run_event-Agrees man parse_url latest attached updates attaches refuses c.resolver
              (Agreement.endpoints_set eps) w a in
          (
            record { endpoints = eps; resolver = r },
            w',
            >>=-known (Resolver.set_endpoints parse_url man c.resolver eps) _ w h,
            in_step q a',
            refl,
          )

      event-InStep :
          (c : Held) (e : Event) (w : man.World)
          → InStep c w
          → Leaves (given c.endpoints e) (held_event c e) w
      unfolding held_event held_sync
      event-InStep c (built conn) w (in_step same a) =
          let (r, w', h, a', q) =
            run_event-Agrees man parse_url latest attached updates attaches refuses c.resolver
              (Agreement.built conn) w a in
          (
            record c { resolver = r },
            w',
            >>=-known (build parse_url man c.resolver conn >>= λ p. pure p.0) _ w h,
            in_step (q ∙ same) a',
            refl,
          )
      event-InStep c (endpoints_set eps) w i = set-InStep c eps w i
      event-InStep c (synced none) w i = (c, w, refl, i, refl)
      event-InStep c (synced (some members)) w i =
          rw (← named_urls-urls_of members) (set-InStep c (named_urls members) w i)

      events-InStep :
          (c : Held) (es : List Event) (w : man.World)
          → InStep c w
          → Leaves (last_given c.endpoints es) (held_events c es) w
      events-InStep c [] w i = (c, w, refl, i, refl)
      events-InStep c (e ∷ es) w i =
          let (c1, w1, h, i1, q) = event-InStep c e w i in
          let (c2, w2, h2, i2, q2) = events-InStep c1 es w1 i1 in
          (
            c2,
            w2,
            >>=-known (held_event c e) (λ c'. held_events c' es) w h ∙ h2,
            i2,
            q2 ∙ ap (λ eps. last_given eps es) q,
          )

      -- A client over a manual resolver without a connection, while gRPC has built none, whatever gRPC
      -- builds, callers set and listings of members return, and in whatever order: nothing panics, the
      -- client's endpoints are the last that a caller set or a listing gave, which are all URLs of the
      -- members with a name, in order, and its resolver has the same. If gRPC has built a connection by
      -- then, it is the resolver's, and the addresses gRPC was last told are one for each of these
      -- endpoints, in order: the address and the server name that `Interpret` reads from it. If not, the
      -- resolver has none. An update must be what gRPC knows afterwards, a build that succeeds must
      -- attach the connection, and one that fails must change nothing of this.
      pub held_events-told :
          (inner : man.Inner) (eps : List Bytes) (es : List Event) (w : man.World)
          → man.cc inner ≡ none
          → attached w ≡ none
          → Leaves (last_given eps es) (held_events (held_new inner eps) es) w
      unfolding held_new new
      held_events-told inner eps es w h n = events-InStep _ es w (in_step refl (idle h n))

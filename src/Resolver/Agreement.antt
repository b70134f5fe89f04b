-- ===== src/Resolver/Agreement.antt =====
-- internal/resolver/resolver.go: what gRPC was last told, and the endpoints that were last set.
use regatta_go.Prelude.{◌≡◌, refl, sym, ap, ◌∙◌, Option, none, some, List, [], ◌∷◌}
use regatta_go.Go.{Go, ok, Bytes}
use regatta_go.Go.Run.{Run, pure, ◌>>=◌, >>=-known}
use regatta_go.Env.{Reply, resp, fail}
use regatta_go.Endpoint.{Url, interpret}
use regatta_go.Endpoint.Unix.{interpret-total}
use regatta_go.Resolver.{
  Address, State, Manual, Resolver, new, addresses_of, update_state, set_endpoints, build, send,
  if_connected, after_build, after_parse, policy,
}

-- The addresses are those that the endpoints spell, one for each, in order.
abbrev pub Spelled : (Bytes → Option Url) → List Bytes → List Address → Type 0
Spelled parse_url [] [] = Unit
Spelled parse_url [] (a ∷ as') = ⊥
Spelled parse_url (ep ∷ eps) [] = ⊥
Spelled parse_url (ep ∷ eps) (a ∷ as') = (interpret parse_url ep ≡ ok a) × Spelled parse_url eps as'

addresses_of-total :
    (parse_url : Bytes → Option Url) (eps : List Bytes)
    → (list : List Address) × (addresses_of parse_url eps ≡ ok list) × Spelled parse_url eps list
unfolding addresses_of
addresses_of-total parse_url [] = ([], refl, tt)
addresses_of-total parse_url (ep ∷ eps) =
    let (a, h) = interpret-total parse_url ep in
    let (list, hs, all_spelled) = addresses_of-total parse_url eps in
    (a ∷ list, rw (h, hs) refl, (h, all_spelled))

module _ (man : Manual) (parse_url : Bytes → Option Url)
    (latest : man.World → Option (State man.ServiceConfig))
    (attached : man.World → Option man.Conn) where
  -- The calls that reach a resolver: by gRPC, and by the client.
  pub data Event : Type 0 where
    built : man.Conn → Event
    endpoints_set : List Bytes → Event

  abbrev pub run_event : Resolver man → Event → Run man.World (Resolver man)
  run_event r (built conn) = build parse_url man r conn >>= λ p. pure p.0
  run_event r (endpoints_set eps) = set_endpoints parse_url man r eps

  abbrev pub run_events : Resolver man → List Event → Run man.World (Resolver man)
  run_events r [] = pure r
  run_events r (e ∷ es) = run_event r e >>= λ r'. run_events r' es

  -- The list that was set last.
  abbrev pub last_set : List Bytes → List Event → List Bytes
  last_set eps [] = eps
  last_set eps (built conn ∷ es) = last_set eps es
  last_set eps (endpoints_set eps' ∷ es) = last_set eps' es

  abbrev pub told : Option (State man.ServiceConfig) → Option (List Address)
  told none = none
  told (some s) = some s.addresses

  -- gRPC has built no connection, and the resolver has none; or it was last told the addresses of
  -- exactly the endpoints that are set, in their order.
  pub data Agrees (r : Resolver man) (w : man.World) : Type 0 where
    idle : man.cc r.inner ≡ none → attached w ≡ none → Agrees r w
    synced :
        (conn : man.Conn) (list : List Address)
        → man.cc r.inner ≡ some conn
        → attached w ≡ some conn
        → Spelled parse_url r.endpoints list
        → told (latest w) ≡ some list
        → Agrees r w

  module _
      (updates : (inner : man.Inner) (s : State man.ServiceConfig) (w : man.World)
        → (latest (man.update_state inner s w) ≡ some s)
          × (attached (man.update_state inner s w) ≡ attached w))
      (attaches : (inner : man.Inner) (conn : man.Conn) (w : man.World) (inner' : man.Inner)
          (w' : man.World)
        → man.build inner conn w ≡ (resp inner', w')
        → (man.cc inner' ≡ some conn) × (attached w' ≡ some conn))
      (refuses : (inner : man.Inner) (conn : man.Conn) (w : man.World) (e : man.Err)
          (w' : man.World)
        → man.build inner conn w ≡ (fail e, w')
        → (latest w' ≡ latest w) × (attached w' ≡ attached w)) where
    same : (r : Resolver man) (w : man.World) → Agrees r w → man.cc r.inner ≡ attached w
    same r w (idle c a) = c ∙ sym a
    same r w (synced conn list c a s t) = c ∙ sym a

    update_state-Agrees :
        (r : Resolver man) (w : man.World)
        → man.cc r.inner ≡ attached w
        → (w' : man.World) × (update_state parse_url man r w ≡ (ok r, w')) × Agrees r w'
    unfolding update_state if_connected send
    update_state-Agrees r w both = by_connection (man.cc r.inner) refl
      where
        by_connection :
            (o : Option man.Conn)
            → man.cc r.inner ≡ o
            → (w' : man.World) × (if_connected parse_url man r o w ≡ (ok r, w')) × Agrees r w'
        by_connection none h = (w, refl, idle h (sym both ∙ h))
        by_connection (some conn) h =
            let (list, q, spelled) = addresses_of-total parse_url r.endpoints in
            let s : State man.ServiceConfig = record {
              addresses = list;
              service_config = r.service_config;
            } in
            let (l, a) = updates r.inner s w in
            (
              man.update_state r.inner s w,
              rw q refl,
              synced conn list h (a ∙ sym both ∙ h) spelled (ap told l),
            )

    -- What a call leaves behind.
    abbrev pub Leaves :
        Resolver man → List Bytes → Run man.World (Resolver man) → man.World → Type 0
    Leaves r eps m w =
        (r' : Resolver man) × (w' : man.World) × (m w ≡ (ok r', w'))
        × Agrees r' w'
        × (r'.endpoints ≡ eps)

    kept :
        (r r' : Resolver man) (w w' : man.World)
        → r'.inner ≡ r.inner
        → r'.endpoints ≡ r.endpoints
        → latest w' ≡ latest w
        → attached w' ≡ attached w
        → Agrees r w
        → Agrees r' w'
    kept r r' w w' i e l a (idle c n) = idle (ap man.cc i ∙ c) (a ∙ n)
    kept r r' w w' i e l a (synced conn list c n spelled t) =
        synced conn list (ap man.cc i ∙ c) (a ∙ n) (rw (← e) at spelled) (ap told l ∙ t)

    pub run_event-Agrees :
        (r : Resolver man) (e : Event) (w : man.World)
        → Agrees r w
        → Leaves r (last_set r.endpoints (e ∷ [])) (run_event r e) w
    unfolding set_endpoints build after_build after_parse
    run_event-Agrees r (endpoints_set eps) w a =
        let (w', h, a') = update_state-Agrees (record r { endpoints = eps }) w (same r w a) in
        (_, w', h, a', refl)
    run_event-Agrees r (built conn) w a =
        let (e, r', w', h, a', q) =
          by_config (man.config_err (man.parse_service_config conn policy)) in
        (r', w', >>=-known (build parse_url man r conn) (λ p. pure p.0) w h, a', q)
      where
        r1 : Resolver man
        r1 = record r { service_config = some (man.parse_service_config conn policy) }

        -- What `Build` returns and leaves.
        Returns : Go (Resolver man × Option man.Err) × man.World → Type 0
        Returns g =
            (e : Option man.Err) × (r' : Resolver man) × (w' : man.World) × (g ≡ (ok (r', e), w'))
            × Agrees r' w'
            × (r'.endpoints ≡ r.endpoints)

        by_build :
            (p : Reply man.Err man.Inner × man.World)
            → man.build r.inner conn w ≡ p
            → Returns (after_build parse_url man r1 p)
        by_build (fail e, w') h =
            let (l, n) = refuses r.inner conn w e w' h in
            (some e, r1, w', refl, kept r r1 w w' refl refl l n a, refl)
        by_build (resp inner, w') h =
            let (c, n) = attaches r.inner conn w inner w' h in
            let (w2, q, a') = update_state-Agrees (record r1 { inner = inner }) w' (c ∙ sym n) in
            (none, _, w2, rw q refl, a', refl)

        by_config : (o : Option man.Err) → Returns (after_parse parse_url man r1 conn o w)
        by_config (some e) = (some e, r1, w, refl, kept r r1 w w refl refl refl refl a, refl)
        by_config none = by_build (man.build r.inner conn w) refl

    last_set-step :
        (eps : List Bytes) (e : Event) (es : List Event)
        → last_set eps (e ∷ es) ≡ last_set (last_set eps (e ∷ [])) es
    last_set-step eps (built conn) es = refl
    last_set-step eps (endpoints_set eps') es = refl

    run_events-Agrees :
        (r : Resolver man) (es : List Event) (w : man.World)
        → Agrees r w
        → Leaves r (last_set r.endpoints es) (run_events r es) w
    run_events-Agrees r [] w a = (r, w, refl, a, refl)
    run_events-Agrees r (e ∷ es) w a =
        let (r1, w1, h, a1, q) = run_event-Agrees r e w a in
        let (r2, w2, h2, a2, q2) = run_events-Agrees r1 es w1 a1 in
        (
          r2,
          w2,
          >>=-known (run_event r e) (λ r'. run_events r' es) w h ∙ h2,
          a2,
          q2 ∙ ap (λ eps. last_set eps es) q ∙ sym (last_set-step r.endpoints e es),
        )

    -- Over a manual resolver without a connection, while gRPC has built none, after any sequence of
    -- builds and new lists of endpoints, failed builds among them, a resolver holds the list that was
    -- set last, and nothing panics. If gRPC has built a connection by then, it is the resolver's, and
    -- the addresses gRPC was last told are one for each endpoint of this list, in order: the address
    -- and the server name that `Interpret` reads from it. If not, the resolver has none. An update must
    -- be what gRPC knows afterwards, a build that succeeds must attach the connection, one of its own
    -- that fails must change nothing of this.
    pub run_events-synced :
        (inner : man.Inner) (eps : List Bytes) (es : List Event) (w : man.World)
        → man.cc inner ≡ none
        → attached w ≡ none
        → Leaves (new man inner eps) (last_set eps es) (run_events (new man inner eps) es) w
    unfolding new
    run_events-synced inner eps es w h n = run_events-Agrees _ es w (idle h n)

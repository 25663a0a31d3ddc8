-- ===== src/Proxy/Served.antt =====
-- From a client's first datagram to its delivery, over two rounds of crates/sleepytale/src/state.rs.
use sleepytale.Base.{
  ℕ, ◌≤◌, ◌≡◌, ◌≢◌, refl, sym, ap, ◌∙◌, inl, inr, Option, none, some, List, [], ◌∷◌, arith, length,
  Option-cases,
}
use sleepytale.Base.Bytes.{Bytes, bytes_key}
use sleepytale.Base.Result.{ok}
use sleepytale.Base.Map.{Map, IsUnique, lookup, lookup-insert_self}
use sleepytale.Base.Map.Values.{All-lookup}
use sleepytale.Net.{SocketAddr, addr_key}
use sleepytale.Config.{BackendConfig, Config, normalize}
use sleepytale.Config.Validate.{validate}
use sleepytale.Knock.{min_initial}
use sleepytale.Sni.Keys.{Crypto}
use sleepytale.Sni.RoundTrip.Message.{Message, IsMessage, datagram}
use sleepytale.Runtime.{
  Os, World, Event, offered, opened, aborted, woke, stopped, Wake, ready, start_failed, task_failed,
}
use sleepytale.Relay.{called, session_backend, reap_idle}
use sleepytale.Relay.Sessions.{pin_or}
use sleepytale.Relay.Closing.{close_pins_only, drop_sessions_for_lem}
use sleepytale.Proxy.{Lifecycle, sleeping, waking, running, ManagedBackend, State, start}
use sleepytale.Proxy.Tick.{
  deliver_held, make_ready, awaited, settle, settle_at, idle_check, supervise, supervise_at,
  tick_backend, tick,
}
use sleepytale.Proxy.Run.{Input, ticked, received, round, rounds}
use sleepytale.Proxy.Worlds.{settle_keeps, supervise_keeps, reap_keeps}
use sleepytale.Proxy.Reachable.{IsSound, sound, woke-IsSound}
use sleepytale.Proxy.Rounds.{rounds-IsConsistent}
use sleepytale.Proxy.Delivery.{Offered, CanBind, deliver_held_offers, forward_leaves_others}
use sleepytale.Proxy.Traces.{IsLogged, Follows-refl, follows}
use sleepytale.Proxy.Visits.{Others, All-Others, insert-Others, visit}
use sleepytale.Proxy.Offer.{woken_state, offered_name_wakes}

module _ {B : Type 0} where
  -- The knock was handed to some socket for the address.
  abbrev pub Sent : SocketAddr → Bytes → World B → Type 0
  Sent to knock w = (socket : ℕ) × IsLogged (offered socket to knock) w.trace

  Offered-Sent :
      (to : SocketAddr) (knock : Bytes) (es : List (Event B))
      → Offered to knock es
      → (socket : ℕ) × IsLogged (offered socket to knock) es
  Offered-Sent to knock [] h = absurd h
  Offered-Sent to knock (offered socket a d ∷ es) (inl (p, q)) = (socket, inl (cc))
  Offered-Sent to knock (offered socket a d ∷ es) (inr h) =
      let (k, l) = Offered-Sent to knock es h in (k, inr l)
  Offered-Sent to knock (opened client socket task ∷ es) h =
      let (k, l) = Offered-Sent to knock es h in (k, inr l)
  Offered-Sent to knock (aborted task ∷ es) h =
      let (k, l) = Offered-Sent to knock es h in (k, inr l)
  Offered-Sent to knock (woke task config console ∷ es) h =
      let (k, l) = Offered-Sent to knock es h in (k, inr l)
  Offered-Sent to knock (stopped addr backend ∷ es) h =
      let (k, l) = Offered-Sent to knock es h in (k, inr l)

  same-Sent :
      (to : SocketAddr) (knock : Bytes) {r r' : ManagedBackend B × World B}
      → r ≡ r'
      → Sent to knock r'.1
      → Sent to knock r.1
  same-Sent to knock e h = rw e h

  moved-Sent :
      {to a : SocketAddr} (knock : Bytes) {w w' : World B}
      → to ≡ a
      → w ≡ w'
      → Sent a knock w'
      → Sent to knock w
  moved-Sent knock e same h = rw (e, same) h

module _ {B : Type 0} (os : Os B) (client : SocketAddr) where
  -- The client has no session.
  abbrev IsNew : World B → Type 0
  IsNew w = session_backend client w ≡ none

  -- Nothing is held for the client.
  abbrev HoldsNone : ManagedBackend B → Type 0
  HoldsNone m = lookup client m.held ≡ none

  deliver_held-IsNew :
      (backend : SocketAddr) (held : Map SocketAddr Bytes) (w : World B)
      → lookup client held ≡ none
      → IsNew w
      → IsNew (deliver_held os backend held w)
  unfolding deliver_held lookup session_backend
  deliver_held-IsNew backend [] w none_held h = h
  deliver_held-IsNew backend ((c, d) ∷ held) w none_held h =
      let other : c ≢ client = λ e. ground (arith, e, none_held) in
      deliver_held-IsNew backend held _ (ground (arith, other, none_held))
        (forward_leaves_others os client c backend d w other ∙ h)

  awaited-IsNew :
      (m : ManagedBackend B) (w : World B) (o : Option (Wake B))
      → HoldsNone m
      → IsNew w
      → IsNew (awaited os m w o).1
  unfolding make_ready session_backend
  awaited-IsNew m w none none_held h = h
  awaited-IsNew m w (some (ready b)) none_held h =
      deliver_held-IsNew m.config.backend m.held (called w) none_held h
  awaited-IsNew m w (some start_failed) none_held h = h
  awaited-IsNew m w (some task_failed) none_held h = h

  settle_at-IsNew :
      (m : ManagedBackend B) (w : World B) (l : Lifecycle B)
      → HoldsNone m
      → IsNew w
      → IsNew (settle_at os m w l).1
  unfolding session_backend
  settle_at-IsNew m w sleeping none_held h = h
  settle_at-IsNew m w (waking task) none_held h = awaited-IsNew m (called w) _ none_held h
  settle_at-IsNew m w (running b) none_held h = h

  supervise_at-IsNew :
      (idle_timeout : ℕ) (m : ManagedBackend B) (w : World B) (l : Lifecycle B)
      → IsUnique w.sessions
      → IsNew w
      → IsNew (supervise_at os idle_timeout m w l).1
  unfolding idle_check session_backend
  supervise_at-IsNew idle_timeout m w sleeping u h = h
  supervise_at-IsNew idle_timeout m w (waking task) u h = h
  supervise_at-IsNew idle_timeout m w (running b) u h =
      ground (arith, h, drop_sessions_for_lem m.config.backend client (called w) u)

  tick_backend-IsNew :
      (idle_timeout : ℕ) (m : ManagedBackend B) (w : World B)
      → IsSound w
      → HoldsNone m
      → IsNew w
      → IsNew (tick_backend os idle_timeout m w).1
  unfolding tick_backend settle supervise
  tick_backend-IsNew idle_timeout m w v none_held h =
      let (m', w') = settle_at os m w m.lifecycle in
      supervise_at-IsNew idle_timeout m' w' m'.lifecycle (settle_keeps (sound os) m w v).0
        (settle_at-IsNew m w m.lifecycle none_held h)

  settle_ready :
      (task : ℕ) (p : B) (m : ManagedBackend B) (w : World B)
      → m.lifecycle ≡ waking task
      → os.finished w.calls task ≡ some (ready p)
      → settle os m w ≡ make_ready os p m (called w)
  unfolding settle
  settle_ready task p m w up done = ap (settle_at os m w) up ∙ ap (awaited os m (called w)) done

  make_ready-Sent :
      (p : B) (knock : Bytes) (m : ManagedBackend B) (w : World B)
      → CanBind os
      → m.held ≡ (client, knock) ∷ []
      → IsNew w
      → Sent m.config.backend knock (make_ready os p m (called w)).1
  unfolding make_ready lookup session_backend
  make_ready-Sent p knock m w can held h =
      let offer =
        deliver_held_offers os m.config.backend client knock m.held (called (called w)) can
          (rw held (refl, tt)) (rw held (ground arith)) in
      Offered-Sent m.config.backend knock _ (rw (ap (λ o. pin_or o m.config.backend) h) at offer)

  -- A backend whose startup task is ready gets what was held.
  ready-Sent :
      (idle_timeout task : ℕ) (p : B) (knock : Bytes) (m : ManagedBackend B) (w : World B)
      → CanBind os
      → m.lifecycle ≡ waking task
      → m.held ≡ (client, knock) ∷ []
      → os.finished w.calls task ≡ some (ready p)
      → IsNew w
      → Sent m.config.backend knock (tick_backend os idle_timeout m w).1
  unfolding tick_backend
  ready-Sent idle_timeout task p knock m w can up held done h =
      let (m', w') = settle os m w in
      let (socket, sent) =
        same-Sent m.config.backend knock (settle_ready task p m w up done)
          (make_ready-Sent p knock m w can held h) in
      let onward = supervise_keeps (follows os w') idle_timeout m' w' (Follows-refl w') in
      (socket, onward.1 _ sent)

  reaped-IsNew :
      (session_timeout : ℕ) (w : World B)
      → IsSound w
      → IsNew w
      → IsNew (reap_idle os session_timeout w).1
  unfolding reap_idle session_backend
  reaped-IsNew session_timeout w v h =
      elim (Option-cases (session_backend client (reap_idle os session_timeout w).1)) [
        | inl e ↦ e
        | inr (to, e) ↦ cc (close_pins_only _ client to (called w) v.0 e)
      ]

  -- So it does in a tick of all backends, none of which holds anything else of the client.
  tick_served :
      (idle_timeout session_timeout task : ℕ) (a : SocketAddr) (p : B) (knock : Bytes)
      (m : ManagedBackend B) (s s' : State B)
      → s' ≡ s
      → m.config.backend ≡ a
      → CanBind os
      → IsSound s.world
      → IsNew s.world
      → Others os idle_timeout IsNew HoldsNone a s.backends
      → lookup a s.backends ≡ some m
      → m.lifecycle ≡ waking task
      → m.held ≡ (client, knock) ∷ []
      → ((n : ℕ) → os.finished n task ≡ some (ready p))
      → Sent a knock (tick os idle_timeout session_timeout s').world
  unfolding tick
  tick_served idle_timeout session_timeout task a p knock m s s' same here can v h others found up
        held done =
      let w = (reap_idle os session_timeout s.world).1 in
      let (u, _, _, new, _, rest) =
        visit os idle_timeout IsNew HoldsNone a m s.backends w (tick_backend-IsNew idle_timeout)
          found (reap_keeps (sound os) session_timeout s.world v) others
          (reaped-IsNew session_timeout s.world v h) in
      let (socket, sent) =
        ready-Sent idle_timeout task p knock m u can up held (done u.calls) new in
      moved-Sent knock (sym here) (ap (λ t. (tick os idle_timeout session_timeout t).world) same)
        (socket, rest.1 _ sent)

module _ {Prk B : Type 0} (crypto : Crypto Prk) (os : Os B) (config : Config) where
  -- In an accepted configuration, after any events, a client without a session and without a datagram
  -- held anywhere sends a well-formed sealed Initial of 1200 bytes at least that offers the name of a
  -- route, up to case and one final dot. If the backend of that route sleeps, its startup task is
  -- ready by the next tick, and upstream sockets can be bound, then after that tick the Initial has
  -- been handed to a socket for that backend.
  pub offered_name_served :
      (is : List Input) (client : SocketAddr) (m : Message) (name : Bytes) (route : BackendConfig)
      (b : ManagedBackend B) (p : B)
      → let s = rounds crypto os config is (start config) in
        validate config ≡ ok tt
        → lookup name config.routes ≡ some route
        → IsMessage crypto m
        → normalize m.hello.name ≡ normalize name
        → min_initial ≤ length (datagram m)
        → session_backend client s.world ≡ none
        → ((a : SocketAddr) (n : ManagedBackend B)
            → lookup a s.backends ≡ some n
            → lookup client n.held ≡ none)
        → lookup route.backend s.backends ≡ some b
        → b.lifecycle ≡ sleeping
        → CanBind os
        → ((n : ℕ) → os.finished n s.world.calls ≡ some (ready p))
        → Sent route.backend
            (datagram m)
            (round crypto os config ticked
              (round crypto os config (received client (datagram m)) s)).world
  unfolding round session_backend
  offered_name_served is client m name route b p accepted has offer same size new nowhere found
        asleep can done =
      let s = rounds crypto os config is (start config) in
      let woken =
        offered_name_wakes crypto os config is client m name route b accepted has offer same size
          new found asleep in
      let v = rounds-IsConsistent crypto os config is in
      let idle = config.idle_timeout in
      let a = route.backend in
      let b' = record b { lifecycle = waking s.world.calls; held = (client, datagram m) ∷ [] } in
      let s' = woken_state crypto os config s a b client (datagram m) route in
      let none_held = All-lookup (HoldsNone os client) s.backends v.distinct nowhere in
      let others =
        insert-Others os idle (IsNew os client) (HoldsNone os client) a b' s.backends
          (All-Others os idle (IsNew os client) (HoldsNone os client) a s.backends none_held) in
      let sound' = woke-IsSound B _ _ _ _ ((sound os).on_call s.world v.relay) in
      tick_served os client idle config.session_timeout s.world.calls a p (datagram m) b' s' _
        (ap (λ r. r.1) woken) (v.entries a b found).0 can sound' new others
        (lookup-insert_self a b' s.backends) refl refl done

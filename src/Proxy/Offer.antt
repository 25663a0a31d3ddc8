-- ===== src/Proxy/Offer.antt =====
-- A client that offers a server name to crates/sleepytale/src/state.rs: the reading of the name, the
-- route table and the lifecycle of the backend together.
use sleepytale.Base.{◌≤◌, ◌≡◌, ap, ◌∙◌, some, none, List, [], ◌∷◌, length, ◌&&◌}
use sleepytale.Base.Bytes.{Bytes, bytes_key}
use sleepytale.Base.Result.{ok}
use sleepytale.Base.Map.{lookup, insert}
use sleepytale.Net.{SocketAddr, addr_key}
use sleepytale.Config.{BackendConfig, Config, routes, resolve, normalize}
use sleepytale.Config.Validate.{validate}
use sleepytale.Config.Resolve.{resolve-routes}
use sleepytale.Knock.{min_initial}
use sleepytale.Sni.Keys.{Crypto}
use sleepytale.Sni.RoundTrip.Message.{
  Message, IsMessage, datagram, peek_server_name-datagram, is_quic_initial-datagram,
}
use sleepytale.Runtime.{Os, woke}
use sleepytale.Relay.{called, logged, session_backend}
use sleepytale.Proxy.{sleeping, waking, ManagedBackend, State, start, wants_console}
use sleepytale.Proxy.Datagram.{handle_datagram, select_target, or_resolve}
use sleepytale.Proxy.Run.{Input, rounds}
use sleepytale.Proxy.Rounds.{rounds-IsConsistent}
use sleepytale.Proxy.Held.{knock_wakes}
use sleepytale.Proxy.Configs.{route_config}

module _ {Prk B : Type 0} (crypto : Crypto Prk) (os : Os B) (config : Config) where
  select_target-datagram :
      (client : SocketAddr) (m : Message) (s : State B) (name : Bytes) (route : BackendConfig)
      → validate config ≡ ok tt
      → lookup name config.routes ≡ some route
      → IsMessage crypto m
      → normalize m.hello.name ≡ normalize name
      → session_backend client s.world ≡ none
      → select_target crypto os (routes config) (wants_console config) client (datagram m) s.world
        ≡ route.backend
  unfolding select_target
  select_target-datagram client m s name route accepted has offered same new =
      ap (or_resolve crypto os (routes config) (wants_console config) (datagram m)) new
      ∙ (ap (λ n. (resolve (routes config) n).backend) (peek_server_name-datagram crypto m offered)
          ∙ ap (λ r. r.backend) (resolve-routes config name m.hello.name route accepted has same))

  -- A startup task is spawned for the configuration, and the knock is held.
  abbrev pub woken_state :
      State B → SocketAddr → ManagedBackend B → SocketAddr → Bytes → BackendConfig → State B
  woken_state s target b client knock c = record {
    world =
        logged (woke s.world.calls c (c.server.forward_stdin && wants_console config))
          (called s.world);
    backends =
        insert target (record b { lifecycle = waking s.world.calls; held = (client, knock) ∷ [] })
          s.backends;
  }

  -- In an accepted configuration, after any events, a client without a session whose sealed Initial
  -- of 1200 bytes at least offers a name that equals a route's up to case and one final dot wakes the
  -- backend of that route, when it sleeps: a startup task with the route's configuration is spawned,
  -- and the datagram is held. Nothing else of the state changes.
  pub offered_name_wakes :
      (is : List Input) (client : SocketAddr) (m : Message) (name : Bytes) (route : BackendConfig)
      (b : ManagedBackend B)
      → let s = rounds crypto os config is (start config) in
        validate config ≡ ok tt
        → lookup name config.routes ≡ some route
        → IsMessage crypto m
        → normalize m.hello.name ≡ normalize name
        → min_initial ≤ length (datagram m)
        → session_backend client s.world ≡ none
        → lookup route.backend s.backends ≡ some b
        → b.lifecycle ≡ sleeping
        → handle_datagram crypto os (routes config) (wants_console config) client (datagram m) s ≡ (
          ok tt,
          record {
            world =
                logged
                  (woke s.world.calls route (route.server.forward_stdin && wants_console config))
                  (called s.world);
            backends =
                insert route.backend
                  (record b { lifecycle = waking s.world.calls; held = (client, datagram m) ∷ [] })
                  s.backends;
          },
        )
  offered_name_wakes is client m name route b accepted has offered same size new found asleep =
      let s = rounds crypto os config is (start config) in
      let target = select_target-datagram client m s name route accepted has offered same new in
      let entry = (rounds-IsConsistent crypto os config is).entries route.backend b found in
      let woken = rw target at (
        knock_wakes crypto os (routes config) (wants_console config) client (datagram m) s b
          (rw target found) asleep entry.1 (is_quic_initial-datagram crypto m offered size)) in
      woken
      ∙ ap (λ c. (ok tt, woken_state s route.backend b client (datagram m) c))
          (route_config crypto os config is name route b accepted has found)

-- ===== src/Proxy/Rounds.antt =====
-- The start and the rounds of `run` in crates/sleepytale/src/state.rs.
use sleepytale.Base.{◌≡◌, some, List, [], ◌∷◌, arith}
use sleepytale.Base.Map.{
  Map, lookup, insert_sorted, IsUnique, insert_sorted-IsUnique, lookup-insert_sorted,
}
use sleepytale.Net.{SocketAddr, addr_key}
use sleepytale.Config.{BackendConfig, Config, routes, all}
use sleepytale.Sni.Keys.{Crypto}
use sleepytale.Runtime.{Os}
use sleepytale.Relay.{session_backend}
use sleepytale.Relay.Tasks.{start-AreTracked}
use sleepytale.Proxy.{ManagedBackend, State, start, new_backend, collect_backends, wants_console}
use sleepytale.Proxy.Run.{Input, ticked, received, read_failed, round, rounds}
use sleepytale.Proxy.Invariant.{IsWellFormed, new_backend-IsWellFormed}
use sleepytale.Proxy.Reachable.{IsEntry}
use sleepytale.Proxy.Loop.{IsConsistent, tick-IsConsistent, handle_datagram-IsConsistent}

-- What `collect` makes of the routes: sleeping backends, each under its address.
module _ {B : Type 0} where
  pub record IsFresh (ms : Map SocketAddr (ManagedBackend B)) : Type 0 where
    pub distinct : IsUnique ms
    pub entries : (a : SocketAddr) (m : ManagedBackend B) → lookup a ms ≡ some m → IsEntry a m

  collect_backends-IsFresh :
      (routes : List BackendConfig) (ms : Map SocketAddr (ManagedBackend B))
      → IsFresh ms
      → IsFresh (collect_backends ms routes)
  unfolding collect_backends
  collect_backends-IsFresh [] ms v = v
  collect_backends-IsFresh (r ∷ rs) ms v = collect_backends-IsFresh rs _ (record {
    distinct = insert_sorted-IsUnique r.backend (new_backend r) ms v.distinct;
    entries = λ a m h. added a m (new_backend-IsWellFormed r) h;
  })
    where
      added :
          (a : SocketAddr) (m : ManagedBackend B)
          → IsWellFormed {B = B} (new_backend r)
          → lookup a (insert_sorted r.backend (new_backend r) ms) ≡ some m
          → IsEntry a m
      added a m fresh h =
          ground
            (arith, lookup-insert_sorted r.backend a (new_backend r) ms, v.entries a m, fresh, h)

  pub start-IsConsistent : (c : Config) → IsConsistent {B = B} (start c)
  unfolding start session_backend lookup
  start-IsConsistent c =
      let fresh =
        collect_backends-IsFresh (all (routes c)) []
          (record { distinct = tt; entries = λ a m h. cc }) in
      record {
        relay = (tt, start-AreTracked);
        distinct = fresh.distinct;
        entries = fresh.entries;
        pins = λ client target h. cc;
      }

module _ {Prk B : Type 0} (crypto : Crypto Prk) (os : Os B) (config : Config) where
  pub round-IsConsistent :
      (i : Input) (s : State B) → IsConsistent s → IsConsistent (round crypto os config i s)
  unfolding round
  round-IsConsistent ticked s v =
      tick-IsConsistent os config.idle_timeout config.session_timeout s v
  round-IsConsistent (received client datagram) s v =
      handle_datagram-IsConsistent crypto os (routes config) (wants_console config) client datagram
        s v
  round-IsConsistent read_failed s v = v

  rounds_from :
      (is : List Input) (s : State B) → IsConsistent s → IsConsistent (rounds crypto os config is s)
  unfolding rounds
  rounds_from [] s v = v
  rounds_from (i ∷ is) s v = rounds_from is _ (round-IsConsistent i s v)

  -- After any events the state is consistent: the relay's sessions are unique and its return paths
  -- accounted for; each backend stands under its own address and is well formed; and whatever
  -- backend a client is pinned to is running.
  pub rounds-IsConsistent :
      (is : List Input) → IsConsistent (rounds crypto os config is (start config))
  rounds-IsConsistent is = rounds_from is (start config) (start-IsConsistent config)

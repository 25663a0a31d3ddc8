-- ===== src/Proxy.antt =====
-- crates/sleepytale/src/state.rs: the lifecycle of the backends and the loop over the events.
pub mod Datagram
pub mod Tick
pub mod Run
pub mod Worlds
pub mod Invariant
pub mod Pins
pub mod Reachable
pub mod Loop
pub mod Rounds
pub mod Targets
pub mod Delivery
pub mod Shutdown
pub mod Held
pub mod Idle
pub mod Configs
pub mod Traces
pub mod Each
pub mod Owners
pub mod Past
pub mod Visits
pub mod Transitions
pub mod Consoles
pub mod Lending
pub mod Noise
pub mod Once
pub mod Unused
pub mod Quiet
pub mod Served
pub mod Origins
pub mod Children
pub mod Offer
pub mod Resting
pub mod Serve
pub mod Binding
use sleepytale.Base.{
  ℕ, suc, ◌+◌, ◌-◌, Bool, true, false, not, ◌&&◌, ◌||◌, Option, none, some, List, [], ◌∷◌, leb,
  ◌==◌, if◌then◌else◌, length, any, is_some,
}
use sleepytale.Base.Bytes.{Bytes}
use sleepytale.Base.Result.{Result, ok, err}
use sleepytale.Base.Map.{Map, lookup, insert, insert_sorted, values}
use sleepytale.Net.{SocketAddr, addr_key}
use sleepytale.Config.{ServerConfig, BackendConfig, Config, Routes, routes, resolve, all}
use sleepytale.Knock.{is_quic_initial}
use sleepytale.Sni.{peek_server_name}
use sleepytale.Sni.Keys.{Crypto}
use sleepytale.Runtime.{
  Wake, ready, start_failed, task_failed, Os, Event, woke, stopped, World, start_world,
}
use sleepytale.Relay.{
  called, logged, session_backend, session_count_for, drop_sessions_for, clear, forward_to_backend,
  reap_idle,
}

abbrev pub max_held_clients : ℕ
max_held_clients = 8

-- `Waking` holds the number of the startup task.
pub data Lifecycle (B : Type 0) : Type 0 where
  sleeping : Lifecycle B
  waking : ℕ → Lifecycle B
  running : B → Lifecycle B

pub record ManagedBackend (B : Type 0) : Type 0 where
  pub config : BackendConfig
  pub lifecycle : Lifecycle B
  pub empty_since : Option ℕ
  pub held : Map SocketAddr Bytes

-- The state of `run`: the surroundings with the relay's sessions, and the backends by address.
pub record State (B : Type 0) : Type 0 where
  pub world : World B
  pub backends : Map SocketAddr (ManagedBackend B)

pub data ProxyError : Type 0 where
  not_configured : ProxyError

module _ {B : Type 0} where
  unfoldable pub new_backend : BackendConfig → ManagedBackend B
  new_backend config = record {
    config = config;
    lifecycle = sleeping;
    empty_since = none;
    held = [];
  }

  -- The backend afterwards, and whether the datagram was kept.
  unfoldable pub hold : SocketAddr → Bytes → ManagedBackend B → ManagedBackend B × Bool
  hold client datagram m =
      if not (is_some (lookup client m.held)) && leb max_held_clients (length m.held)
      then (m, false)
      else (record m { held = insert client datagram m.held }, true)

  -- `collect` into a `BTreeMap` by the backend's address.
  unfoldable pub collect_backends :
      Map SocketAddr (ManagedBackend B) → List BackendConfig → Map SocketAddr (ManagedBackend B)
  unfolding new_backend
  collect_backends m [] = m
  collect_backends m (route ∷ rest) =
      collect_backends (insert_sorted route.backend (new_backend route) m) rest

  unfoldable pub start : Config → State B
  unfolding collect_backends
  start c = record { world = start_world; backends = collect_backends [] (all (routes c)) }

  -- The call of `tokio::spawn`, whose number names the task, and the hold of the knock. The console
  -- goes to a backend that wants it.
  unfoldable pub wake :
      Bool → SocketAddr → Bytes → ManagedBackend B → World B → ManagedBackend B × World B
  unfolding hold
  wake console client datagram m w = (
    (hold client datagram (record m { lifecycle = waking w.calls })).0,
    logged (woke w.calls m.config (m.config.server.forward_stdin && console)) (called w),
  )

abbrev servers : List BackendConfig → List ServerConfig
servers [] = []
servers (b ∷ bs) = b.server ∷ servers bs

-- `console`: does any backend want standard input? No reader is started otherwise.
unfoldable pub wants_console : Config → Bool
unfolding values
wants_console c = any (λ s. s.forward_stdin) (c.server ∷ servers (values c.routes))

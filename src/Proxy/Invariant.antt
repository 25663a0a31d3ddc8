-- ===== src/Proxy/Invariant.antt =====
-- The invariant of one backend in crates/sleepytale/src/state.rs.
use sleepytale.Base.{
  ℕ, ◌≤◌, ◌≡◌, ◌≢◌, refl, Bool, true, false, Option, none, some, [], length, arith,
}
use sleepytale.Base.Bytes.{Bytes}
use sleepytale.Base.Map.{Map, IsUnique, insert-IsUnique, length-insert, insert-ne-nil}
use sleepytale.Net.{SocketAddr, addr_key}
use sleepytale.Config.{BackendConfig}
use sleepytale.Runtime.{Wake, ready, start_failed, task_failed, Os, World}
use sleepytale.Proxy.{
  Lifecycle, sleeping, waking, running, ManagedBackend, new_backend, hold, wake, max_held_clients,
}
use sleepytale.Relay.{called}
use sleepytale.Proxy.Tick.{
  make_ready, awaited, settle, settle_at, idle_check, after_exit_check, supervise, supervise_at,
  tick_backend,
}

-- Only a waking backend holds datagrams, and it holds one at least; only a running one counts how
-- long it has been empty.
abbrev pub Suits : {B : Type 0} → Lifecycle B → Map SocketAddr Bytes → Option ℕ → Type 0
Suits sleeping held since = (held ≡ []) × (since ≡ none)
Suits (waking task) held since = (held ≢ []) × (since ≡ none)
Suits (running backend) held since = held ≡ []

pub record IsWellFormed {B : Type 0} (m : ManagedBackend B) : Type 0 where
  pub suits : Suits m.lifecycle m.held m.empty_since
  pub bounded : length m.held ≤ max_held_clients
  pub unique : IsUnique m.held

module _ {B : Type 0} where
  pub new_backend-IsWellFormed :
      (config : BackendConfig) → IsWellFormed {B = B} (new_backend config)
  unfolding new_backend
  new_backend-IsWellFormed config = record {
    suits = (refl, refl);
    bounded = omega arith;
    unique = tt;
  }

  -- A backend that is waking keeps its form when it holds a datagram.
  pub hold-IsWellFormed :
      (client : SocketAddr) (datagram : Bytes) (task : ℕ) (m : ManagedBackend B)
      → m.lifecycle ≡ waking task
      → IsWellFormed m
      → IsWellFormed (hold client datagram m).0
  unfolding hold
  hold-IsWellFormed client datagram task m e v = record {
    suits = ground (arith, v.suits, e, insert-ne-nil client datagram m.held);
    bounded = ground (arith, v.bounded, length-insert client datagram m.held);
    unique = ground (arith, v.unique, insert-IsUnique client datagram m.held v.unique);
  }

  pub wake-IsWellFormed :
      (console : Bool) (client : SocketAddr) (datagram : Bytes) (m : ManagedBackend B) (w : World B)
      → m.lifecycle ≡ sleeping
      → IsWellFormed m
      → IsWellFormed (wake console client datagram m w).0
  unfolding wake hold
  wake-IsWellFormed console client datagram m w e v =
      let empty : (m.held ≡ []) × (m.empty_since ≡ none) = ground (arith, v.suits, e) in
      record {
        suits = ground (arith, empty.0, empty.1, insert-ne-nil client datagram m.held);
        bounded = ground (arith, v.bounded, length-insert client datagram m.held);
        unique = ground (arith, v.unique, insert-IsUnique client datagram m.held v.unique);
      }

module _ {B : Type 0} (os : Os B) where
  awaited-IsWellFormed :
      (m : ManagedBackend B) (w : World B) (task : ℕ) (o : Option (Wake B))
      → m.lifecycle ≡ waking task
      → IsWellFormed m
      → IsWellFormed (awaited os m w o).0
  unfolding make_ready
  awaited-IsWellFormed m w task none e v = v
  awaited-IsWellFormed m w task (some (ready backend)) e v = record {
    suits = refl;
    bounded = omega arith;
    unique = tt;
  }
  awaited-IsWellFormed m w task (some start_failed) e v = record {
    suits = (refl, ground (arith, v.suits));
    bounded = omega arith;
    unique = tt;
  }
  awaited-IsWellFormed m w task (some task_failed) e v = record {
    suits = (refl, ground (arith, v.suits));
    bounded = omega arith;
    unique = tt;
  }

  settle_at-IsWellFormed :
      (m : ManagedBackend B) (w : World B) (l : Lifecycle B)
      → m.lifecycle ≡ l
      → IsWellFormed m
      → IsWellFormed (settle_at os m w l).0
  settle_at-IsWellFormed m w sleeping e v = v
  settle_at-IsWellFormed m w (waking task) e v = awaited-IsWellFormed m (called w) task _ e v
  settle_at-IsWellFormed m w (running backend) e v = v

  after_exit_check-IsWellFormed :
      (idle_timeout : ℕ) (backend : B) (m : ManagedBackend B) (w : World B) (o : Option Bool)
      → m.lifecycle ≡ running backend
      → IsWellFormed m
      → IsWellFormed (after_exit_check os idle_timeout backend m w o).0
  unfolding idle_check
  after_exit_check-IsWellFormed idle_timeout backend m w none e v = v
  after_exit_check-IsWellFormed idle_timeout backend m w (some true) e v = record {
    suits = (ground (arith, v.suits), refl);
    bounded = v.bounded;
    unique = v.unique;
  }
  after_exit_check-IsWellFormed idle_timeout backend m w (some false) e v = record {
    suits = ground (arith, v.suits);
    bounded = ground (arith, v.bounded);
    unique = ground (arith, v.unique);
  }

  supervise_at-IsWellFormed :
      (idle_timeout : ℕ) (m : ManagedBackend B) (w : World B) (l : Lifecycle B)
      → m.lifecycle ≡ l
      → IsWellFormed m
      → IsWellFormed (supervise_at os idle_timeout m w l).0
  supervise_at-IsWellFormed idle_timeout m w sleeping e v = v
  supervise_at-IsWellFormed idle_timeout m w (waking task) e v = v
  supervise_at-IsWellFormed idle_timeout m w (running backend) e v =
      after_exit_check-IsWellFormed idle_timeout backend m (called w) _ e v

  pub tick_backend-IsWellFormed :
      (idle_timeout : ℕ) (m : ManagedBackend B) (w : World B)
      → IsWellFormed m
      → IsWellFormed (tick_backend os idle_timeout m w).0
  unfolding tick_backend settle supervise
  tick_backend-IsWellFormed idle_timeout m w v =
      supervise_at-IsWellFormed idle_timeout _ _ _ refl
        (settle_at-IsWellFormed m w m.lifecycle refl v)

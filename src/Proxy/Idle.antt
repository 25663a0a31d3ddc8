-- ===== src/Proxy/Idle.antt =====
-- How `tick` of crates/sleepytale/src/state.rs treats a running backend.
use sleepytale.Base.{ℕ, suc, ◌-◌, ◌≤◌, ◌≡◌, ◌≢◌, true, false, none, some, arith, refl}
use sleepytale.Base.Map.{IsUnique}
use sleepytale.Net.{SocketAddr, addr_key}
use sleepytale.Runtime.{Os, World}
use sleepytale.Relay.{called, session_backend, session_count_for}
use sleepytale.Relay.Closing.{
  unpinned, drop_sessions_for_lem, pinned_counts, session_count_for-eq-zero_iff,
}
use sleepytale.Proxy.{sleeping, running, ManagedBackend}
use sleepytale.Proxy.Tick.{idle_check, supervise, since_or}

module _ {B : Type 0} (os : Os B) (idle_timeout : ℕ) where
  idle_check_used :
      (client : SocketAddr) (b : B) (m : ManagedBackend B) (w : World B)
      → session_count_for m.config.backend w ≢ 0
      → idle_check os idle_timeout b m w ≡ (record m { empty_since = none }, w)
  unfolding idle_check
  idle_check_used client b m w used = ground (arith, used)

  pub supervise_alive :
      (b : B) (m : ManagedBackend B) (w : World B)
      → m.lifecycle ≡ running b
      → os.has_exited w.calls b ≡ some false
      → supervise os idle_timeout m w ≡ idle_check os idle_timeout b m (called w)
  unfolding supervise
  supervise_alive b m w e alive = simp (e, alive)

  -- A running backend that has not exited and has a session keeps running, and its idle time
  -- starts anew.
  pub supervise_used :
      (client : SocketAddr) (b : B) (m : ManagedBackend B) (w : World B)
      → m.lifecycle ≡ running b
      → os.has_exited w.calls b ≡ some false
      → IsUnique w.sessions
      → session_backend client w ≡ some m.config.backend
      → supervise os idle_timeout m w ≡ (record m { empty_since = none }, called w)
  unfolding session_backend session_count_for
  supervise_used client b m w e alive u pinned =
      rw (supervise_alive b m w e alive)
        (idle_check_used client b m (called w) (pinned_counts client m.config.backend w u pinned))

  -- A backend that has exited sleeps from then on. The clients pinned to it have no session any
  -- more, and every other client's session stays.
  pub supervise_exited :
      (client : SocketAddr) (b : B) (m : ManagedBackend B) (w : World B)
      → m.lifecycle ≡ running b
      → os.has_exited w.calls b ≡ some true
      → IsUnique w.sessions
      → ((supervise os idle_timeout m w).0.lifecycle ≡ sleeping)
        × (session_backend client (supervise os idle_timeout m w).1
            ≡ unpinned m.config.backend (session_backend client w))
  unfolding supervise session_backend
  supervise_exited client b m w e gone u =
      simp (e, gone) (refl, drop_sessions_for_lem m.config.backend client (called w) u)

  idle_check_stops :
      (b : B) (m : ManagedBackend B) (w : World B)
      → IsUnique w.sessions
      → m.lifecycle ≡ running b
      → (idle_check os idle_timeout b m w).0.lifecycle ≡ sleeping
      → (session_count_for m.config.backend w ≡ 0)
        × (idle_timeout ≤ os.clock (suc w.calls) - since_or os m.empty_since (os.clock w.calls))
  unfolding idle_check
  idle_check_stops b m w u e h = ground (arith, e, h)

  -- A running backend that has not exited is stopped only if no client has a session for it, and
  -- the idle timeout has passed since it was first seen without one.
  pub supervise_stops_unused :
      (b : B) (m : ManagedBackend B) (w : World B)
      → m.lifecycle ≡ running b
      → os.has_exited w.calls b ≡ some false
      → IsUnique w.sessions
      → (supervise os idle_timeout m w).0.lifecycle ≡ sleeping
      → ((client : SocketAddr) → session_backend client w ≢ some m.config.backend)
        × (idle_timeout
            ≤ os.clock (suc (suc w.calls)) - since_or os m.empty_since (os.clock (suc w.calls)))
  unfolding session_backend session_count_for
  supervise_stops_unused b m w e alive u stops =
      let found =
        idle_check_stops b m (called w) u e (rw (supervise_alive b m w e alive) at stops) in
      ((session_count_for-eq-zero_iff m.config.backend w u).0 found.0, found.1)

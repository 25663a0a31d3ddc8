-- ===== src/Proxy/Past.antt =====
-- The times that crates/sleepytale/src/state.rs notes for its backends lie in the past.
use sleepytale.Base.{ℕ, suc, ◌-◌, ◌≤◌, ◌<◌, ◌≡◌, Bool, true, false, Option, none, some, arith}
use sleepytale.Base.Bytes.{Bytes}
use sleepytale.Net.{SocketAddr}
use sleepytale.Runtime.{Os, World, Wake, ready, start_failed, task_failed}
use sleepytale.Relay.{called}
use sleepytale.Proxy.{Lifecycle, sleeping, waking, running, ManagedBackend, new_backend, hold, wake}
use sleepytale.Proxy.Tick.{
  deliver_held, make_ready, awaited, settle, settle_at, idle_check, after_exit_check, supervise,
  supervise_at, tick_backend, since_or,
}
use sleepytale.Proxy.Worlds.{deliver_held_keeps}
use sleepytale.Proxy.Traces.{follows}
use sleepytale.Proxy.Each.{KeepsEach}

module _ {B : Type 0} (os : Os B) where
  -- The clock never goes back.
  abbrev pub IsMonotone : Type 0
  IsMonotone = (i j : ℕ) → i ≤ j → os.clock i ≤ os.clock j

  -- The time, if there is one, is no later than the last reading that there can have been.
  abbrev pub IsPast : World B → Option ℕ → Type 0
  IsPast w none = Unit
  IsPast w (some since) = (0 < w.calls) × (since ≤ os.clock (w.calls - 1))

module _ {B : Type 0} where
  empty_since-hold :
      (client : SocketAddr) (datagram : Bytes) (m : ManagedBackend B)
      → (hold client datagram m).0.empty_since ≡ m.empty_since
  unfolding hold
  empty_since-hold client datagram m = ground arith

module _ {B : Type 0} (os : Os B) (monotone : IsMonotone os) where
  IsPast-stays :
      (w w' : World B) (o : Option ℕ) → w.calls ≤ w'.calls → IsPast os w o → IsPast os w' o
  IsPast-stays w w' none le h = tt
  IsPast-stays w w' (some since) le h =
      omega (arith, monotone (w.calls - 1) (w'.calls - 1) (omega arith))

  awaited-IsPast :
      (m : ManagedBackend B) (w : World B) (o : Option (Wake B))
      → IsPast os w m.empty_since
      → IsPast os (awaited os m w o).1 (awaited os m w o).0.empty_since
  unfolding make_ready
  awaited-IsPast m w none h = h
  awaited-IsPast m w (some (ready b)) h =
      let later =
        deliver_held_keeps (follows os (called w)) m.config.backend m.held (called w)
          (omega arith, λ e p. p) in
      let w' = deliver_held os m.config.backend m.held (called w) in
      omega (arith, later.0, monotone w.calls (w'.calls - 1))
  awaited-IsPast m w (some start_failed) h = h
  awaited-IsPast m w (some task_failed) h = h

  settle_at-IsPast :
      (m : ManagedBackend B) (w : World B) (l : Lifecycle B)
      → IsPast os w m.empty_since
      → IsPast os (settle_at os m w l).1 (settle_at os m w l).0.empty_since
  settle_at-IsPast m w sleeping h = h
  settle_at-IsPast m w (waking task) h =
      awaited-IsPast m (called w) _ (IsPast-stays w (called w) m.empty_since (omega arith) h)
  settle_at-IsPast m w (running b) h = h

  since-IsPast :
      (w : World B) (o : Option ℕ)
      → IsPast os w o
      → IsPast os (called (called w)) (some (since_or os o (os.clock w.calls)))
  since-IsPast w none h = omega (arith, monotone w.calls (suc (suc w.calls) - 1) (omega arith))
  since-IsPast w (some since) h =
      omega (arith, monotone (w.calls - 1) (suc (suc w.calls) - 1) (omega arith))

  idle_check-IsPast :
      (idle_timeout : ℕ) (b : B) (m : ManagedBackend B) (w : World B)
      → IsPast os w m.empty_since
      → IsPast os
          (idle_check os idle_timeout b m w).1
          (idle_check os idle_timeout b m w).0.empty_since
  unfolding idle_check
  idle_check-IsPast idle_timeout b m w h = ground (arith, since-IsPast w m.empty_since h)

  after_exit_check-IsPast :
      (idle_timeout : ℕ) (b : B) (m : ManagedBackend B) (w : World B) (o : Option Bool)
      → IsPast os w m.empty_since
      → let r = after_exit_check os idle_timeout b m w o in IsPast os r.1 r.0.empty_since
  after_exit_check-IsPast idle_timeout b m w none h = h
  after_exit_check-IsPast idle_timeout b m w (some true) h = tt
  after_exit_check-IsPast idle_timeout b m w (some false) h = idle_check-IsPast idle_timeout b m w h

  supervise_at-IsPast :
      (idle_timeout : ℕ) (m : ManagedBackend B) (w : World B) (l : Lifecycle B)
      → IsPast os w m.empty_since
      → let r = supervise_at os idle_timeout m w l in IsPast os r.1 r.0.empty_since
  supervise_at-IsPast idle_timeout m w sleeping h = h
  supervise_at-IsPast idle_timeout m w (waking task) h = h
  supervise_at-IsPast idle_timeout m w (running b) h =
      after_exit_check-IsPast idle_timeout b m (called w) _
        (IsPast-stays w (called w) m.empty_since (omega arith) h)

  tick_backend-IsPast :
      (idle_timeout : ℕ) (m : ManagedBackend B) (w : World B)
      → IsPast os w m.empty_since
      → let r = tick_backend os idle_timeout m w in IsPast os r.1 r.0.empty_since
  unfolding tick_backend settle supervise
  tick_backend-IsPast idle_timeout m w h =
      let (m', w') = settle_at os m w m.lifecycle in
      supervise_at-IsPast idle_timeout m' w' m'.lifecycle (settle_at-IsPast m w m.lifecycle h)

  wake-IsPast :
      (console : Bool) (client : SocketAddr) (datagram : Bytes) (m : ManagedBackend B) (w : World B)
      → IsPast os w m.empty_since
      → let r = wake console client datagram m w in IsPast os r.1 r.0.empty_since
  unfolding wake
  wake-IsPast console client datagram m w h =
      rw (empty_since-hold client datagram (record m { lifecycle = waking w.calls }))
        (IsPast-stays w (called w) m.empty_since (omega arith) h)

  pub past : (console : Bool) → KeepsEach os console (λ w m. IsPast os w m.empty_since)
  unfolding new_backend
  past console = record {
    on_new = λ c. tt;
    on_world = λ m w w' f h. IsPast-stays w w' m.empty_since f.0 h;
    on_tick = tick_backend-IsPast;
    on_wake = wake-IsPast console;
    on_hold = λ client datagram m w h. rw (empty_since-hold client datagram m) h;
  }

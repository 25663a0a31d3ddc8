-- ===== src/Proxy/Tick.antt =====
-- `tick`, `deliver_held` and `stop_backend` of crates/sleepytale/src/state.rs.
use sleepytale.Base.{
  ℕ, ◌-◌, Bool, true, false, Option, none, some, [], ◌∷◌, leb, ◌==◌, if◌then◌else◌,
}
use sleepytale.Base.Bytes.{Bytes}
use sleepytale.Base.Map.{Map}
use sleepytale.Net.{SocketAddr}
use sleepytale.Runtime.{Wake, ready, start_failed, task_failed, Os, stopped, World}
use sleepytale.Relay.{
  called, logged, session_count_for, drop_sessions_for, forward_to_backend, reap_idle,
}
use sleepytale.Proxy.{Lifecycle, sleeping, waking, running, ManagedBackend, State}

module _ {B : Type 0} where
  -- An error of `Backend::stop` is logged.
  abbrev pub stop_backend : SocketAddr → B → World B → World B
  stop_backend addr backend w = logged (stopped addr backend) (called w)

module _ {B : Type 0} (os : Os B) where
  -- A delivery that fails concerns only its client.
  unfoldable pub deliver_held : SocketAddr → Map SocketAddr Bytes → World B → World B
  deliver_held backend [] w = w
  deliver_held backend ((client, datagram) ∷ held) w =
      deliver_held backend held (forward_to_backend os client backend datagram w).1

  -- A backend that is ready runs from now on, and gets what was held.
  unfoldable pub make_ready : B → ManagedBackend B → World B → ManagedBackend B × World B
  unfolding deliver_held
  make_ready backend m w = (
    record m { lifecycle = running backend; empty_since = some (os.clock w.calls); held = [] },
    deliver_held m.config.backend m.held (called w),
  )

  abbrev pub awaited : ManagedBackend B → World B → Option (Wake B) → ManagedBackend B × World B
  awaited m w none = (m, w)
  awaited m w (some (ready backend)) = make_ready backend m w
  awaited m w (some start_failed) = (record m { lifecycle = sleeping; held = [] }, w)
  awaited m w (some task_failed) = (record m { lifecycle = sleeping; held = [] }, w)

  -- The first `if let`: a startup task that has finished.
  abbrev pub settle_at : ManagedBackend B → World B → Lifecycle B → ManagedBackend B × World B
  settle_at m w sleeping = (m, w)
  settle_at m w (waking task) = awaited m (called w) (os.finished w.calls task)
  settle_at m w (running backend) = (m, w)

  unfoldable pub settle : ManagedBackend B → World B → ManagedBackend B × World B
  unfolding make_ready
  settle m w = settle_at m w m.lifecycle

  abbrev pub since_or : Option ℕ → ℕ → ℕ
  since_or none now = now
  since_or (some since) now = since

  -- A running backend that has not exited: it is stopped after `idle_timeout` without sessions.
  unfoldable pub idle_check : ℕ → B → ManagedBackend B → World B → ManagedBackend B × World B
  idle_check idle_timeout backend m w =
      let addr = m.config.backend in
      let since = since_or m.empty_since (os.clock w.calls) in
      let elapsed = os.clock (called w).calls - since in
      if session_count_for addr w == 0
      then (if leb idle_timeout elapsed
          then (
            record m { lifecycle = sleeping; empty_since = none },
            stop_backend addr backend (called (called w)),
          )
          else (record m { empty_since = some since }, called (called w)))
      else (record m { empty_since = none }, w)

  abbrev pub after_exit_check :
      ℕ → B → ManagedBackend B → World B → Option Bool → ManagedBackend B × World B
  after_exit_check idle_timeout backend m w none = (m, w)
  after_exit_check idle_timeout backend m w (some true) =
      (record m { lifecycle = sleeping; empty_since = none }, drop_sessions_for m.config.backend w)
  after_exit_check idle_timeout backend m w (some false) = idle_check idle_timeout backend m w

  -- The second `if let`: a backend that runs.
  abbrev pub supervise_at :
      ℕ → ManagedBackend B → World B → Lifecycle B → ManagedBackend B × World B
  supervise_at idle_timeout m w sleeping = (m, w)
  supervise_at idle_timeout m w (waking task) = (m, w)
  supervise_at idle_timeout m w (running backend) =
      after_exit_check idle_timeout backend m (called w) (os.has_exited w.calls backend)

  unfoldable pub supervise : ℕ → ManagedBackend B → World B → ManagedBackend B × World B
  unfolding idle_check
  supervise idle_timeout m w = supervise_at idle_timeout m w m.lifecycle

  -- The body of the loop over `values_mut()`.
  unfoldable pub tick_backend : ℕ → ManagedBackend B → World B → ManagedBackend B × World B
  unfolding settle supervise
  tick_backend idle_timeout m w = let (m', w') = settle m w in supervise idle_timeout m' w'

  unfoldable pub tick_backends :
      ℕ → Map SocketAddr (ManagedBackend B) → World B → Map SocketAddr (ManagedBackend B) × World B
  unfolding tick_backend
  tick_backends idle_timeout [] w = ([], w)
  tick_backends idle_timeout ((addr, m) ∷ rest) w =
      let (m', w') = tick_backend idle_timeout m w in
      let (rest', w'') = tick_backends idle_timeout rest w' in ((addr, m') ∷ rest', w'')

  unfoldable pub tick : ℕ → ℕ → State B → State B
  unfolding tick_backends
  tick idle_timeout session_timeout s =
      let (count, w) = reap_idle os session_timeout s.world in
      let (backends, w') = tick_backends idle_timeout s.backends w in
      record { world = w'; backends = backends }

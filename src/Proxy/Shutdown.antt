-- ===== src/Proxy/Shutdown.antt =====
-- The end of `Proxy::run` of crates/sleepytale/src/state.rs.
use sleepytale.Base.{ℕ, ◌≤◌, ◌≡◌, refl, ◌∙◌, ◌⊎◌, Option, none, some, List, [], ◌∷◌, arith, inl}
use sleepytale.Base.Map.{Map, lookup}
use sleepytale.Net.{SocketAddr, addr_key}
use sleepytale.Config.{Config}
use sleepytale.Sni.Keys.{Crypto}
use sleepytale.Runtime.{Os, World, Event, stopped, Wake, ready, start_failed, task_failed}
use sleepytale.Relay.{called, clear}
use sleepytale.Relay.Tasks.{occurs, spawned, ended, live}
use sleepytale.Proxy.{Lifecycle, sleeping, waking, running, ManagedBackend, State, start}
use sleepytale.Proxy.Run.{Input, stop_all, shutdown, run, rounds, stop_lifecycle, stop_ready}
use sleepytale.Proxy.Worlds.{Keeps}
use sleepytale.Proxy.Reachable.{IsSound, sound}
use sleepytale.Proxy.Rounds.{rounds-IsConsistent}

-- `Backend::stop` was called on this backend.
abbrev pub Stopped : {B : Type 0} → SocketAddr → B → List (Event B) → Type 0
Stopped addr b [] = ⊥
Stopped addr b (stopped a c ∷ es) = ((a ≡ addr) × (c ≡ b)) ⊎ Stopped addr b es
Stopped addr b (e ∷ es) = Stopped addr b es

module _ {B : Type 0} (os : Os B) where
  module _ {P : World B → Type 0} (k : Keeps os P) where
    stop_ready_keeps :
        (addr : SocketAddr) (w : World B) (o : Option (Wake B)) → P w → P (stop_ready os addr w o)
    stop_ready_keeps addr w none h = h
    stop_ready_keeps addr w (some (ready b)) h = k.on_stopped addr b _ (k.on_call w h)
    stop_ready_keeps addr w (some start_failed) h = h
    stop_ready_keeps addr w (some task_failed) h = h

    stop_lifecycle_keeps :
        (grace : ℕ) (addr : SocketAddr) (w : World B) (l : Lifecycle B)
        → P w
        → P (stop_lifecycle os grace addr w l)
    stop_lifecycle_keeps grace addr w sleeping h = h
    stop_lifecycle_keeps grace addr w (running b) h = k.on_stopped addr b _ (k.on_call w h)
    stop_lifecycle_keeps grace addr w (waking task) h =
        stop_ready_keeps addr (called w) (os.within_grace w.calls task grace) (k.on_call w h)

    stop_all_keeps :
        (grace : ℕ) (ms : Map SocketAddr (ManagedBackend B)) (w : World B)
        → P w
        → P (stop_all os grace ms w).1
    unfolding stop_all
    stop_all_keeps grace [] w h = h
    stop_all_keeps grace ((a, m) ∷ ms) w h =
        stop_all_keeps grace ms _ (stop_lifecycle_keeps grace m.config.backend w m.lifecycle h)

  -- A backend of the list is asleep afterwards, and otherwise as it was.
  all_asleep :
      (grace : ℕ) (a : SocketAddr) (m : ManagedBackend B) (ms : Map SocketAddr (ManagedBackend B))
      (w : World B)
      → lookup a ms ≡ some m
      → lookup a (stop_all os grace ms w).0 ≡ some (record m { lifecycle = sleeping })
  unfolding stop_all lookup
  all_asleep grace a m [] w h = cc
  all_asleep grace a m ((b, n) ∷ ms) w h =
      ground
        (arith, all_asleep grace a m ms (stop_lifecycle os grace n.config.backend w n.lifecycle))

  sessions-stop_lifecycle :
      (grace : ℕ) (addr : SocketAddr) (w : World B) (l : Lifecycle B)
      → (stop_lifecycle os grace addr w l).sessions ≡ w.sessions
  sessions-stop_lifecycle grace addr w l = ground arith

  sessions-stop_all :
      (grace : ℕ) (ms : Map SocketAddr (ManagedBackend B)) (w : World B)
      → (stop_all os grace ms w).1.sessions ≡ w.sessions
  unfolding stop_all
  sessions-stop_all grace [] w = refl
  sessions-stop_all grace ((b, n) ∷ ms) w =
      sessions-stop_all grace ms _ ∙ sessions-stop_lifecycle grace n.config.backend w n.lifecycle

  stop_lifecycle_extends :
      (grace : ℕ) (addr a : SocketAddr) (b : B) (w : World B) (l : Lifecycle B)
      → Stopped a b w.trace
      → Stopped a b (stop_lifecycle os grace addr w l).trace
  stop_lifecycle_extends grace addr a b w l h = ground (arith, h)

  stop_all_extends :
      (grace : ℕ) (a : SocketAddr) (b : B) (ms : Map SocketAddr (ManagedBackend B)) (w : World B)
      → Stopped a b w.trace
      → Stopped a b (stop_all os grace ms w).1.trace
  unfolding stop_all
  stop_all_extends grace a b [] w h = h
  stop_all_extends grace a b ((c, n) ∷ ms) w h =
      stop_all_extends grace a b ms _
        (stop_lifecycle_extends grace n.config.backend a b w n.lifecycle h)

  now-Stopped :
      (grace : ℕ) (b : B) (n : ManagedBackend B) (w : World B)
      → n.lifecycle ≡ running b
      → Stopped n.config.backend b (stop_lifecycle os grace n.config.backend w n.lifecycle).trace
  now-Stopped grace b n w e = rw e (inl (refl, refl))

  all-Stopped :
      (grace : ℕ) (a : SocketAddr) (b : B) (m : ManagedBackend B)
      (ms : Map SocketAddr (ManagedBackend B)) (w : World B)
      → lookup a ms ≡ some m
      → m.lifecycle ≡ running b
      → Stopped m.config.backend b (stop_all os grace ms w).1.trace
  unfolding stop_all lookup
  all-Stopped grace a b m [] w h e = cc
  all-Stopped grace a b m ((c, n) ∷ ms) w h e =
      let w' = stop_lifecycle os grace n.config.backend w n.lifecycle in
      ground (
        arith,
        h,
        now-Stopped grace b n w,
        stop_all_extends grace n.config.backend b ms w',
        all-Stopped grace a b m ms w',
      )

  shutdown-IsSound :
      (grace : ℕ) (s : State B) → IsSound s.world → IsSound (shutdown os grace s).world
  unfolding shutdown
  shutdown-IsSound grace s v =
      stop_all_keeps (sound os) grace s.backends _ ((sound os).on_clear s.world v)

  shutdown-sessions : (grace : ℕ) (s : State B) → (shutdown os grace s).world.sessions ≡ []
  unfolding shutdown clear
  shutdown-sessions grace s = sessions-stop_all grace s.backends (clear s.world)

  -- A shutdown calls `stop` on every backend that runs, and leaves it asleep.
  pub shutdown_stops :
      (grace : ℕ) (a : SocketAddr) (m : ManagedBackend B) (b : B) (s : State B)
      → lookup a s.backends ≡ some m
      → m.lifecycle ≡ running b
      → Stopped m.config.backend b (shutdown os grace s).world.trace
        × (lookup a (shutdown os grace s).backends ≡ some (record m { lifecycle = sleeping }))
  unfolding shutdown
  shutdown_stops grace a m b s found e = (
    all-Stopped grace a b m s.backends (clear s.world) found e,
    all_asleep grace a m s.backends (clear s.world) found,
  )

module _ {Prk B : Type 0} (crypto : Crypto Prk) (os : Os B) (config : Config) where
  -- When the proxy has shut down, whatever the events before, it has no session left, and has
  -- aborted every return path that it spawned as often as it spawned it, which is at most once.
  pub run_ends_tasks :
      (is : List Input)
      → let w = (run crypto os config is).world in
        (w.sessions ≡ [])
        × ((t : ℕ) → occurs t (ended w.trace) ≡ occurs t (spawned w.trace))
        × ((t : ℕ) → occurs t (spawned w.trace) ≤ 1)
  unfolding run live
  run_ends_tasks is =
      let s = rounds crypto os config is (start config) in
      let v =
        shutdown-IsSound os config.shutdown_grace s
          (rounds-IsConsistent crypto os config is).relay in
      let closed = shutdown-sessions os config.shutdown_grace s in
      (closed, λ t. ground (arith, v.1.balance t, closed), v.1.once)

-- ===== src/Proxy/Worlds.antt =====
-- Properties of the relay and its surroundings, carried through the loop of
-- crates/sleepytale/src/state.rs.
use sleepytale.Base.{ℕ, ◌&&◌, Bool, true, false, Option, none, some, [], ◌∷◌, arith}
use sleepytale.Base.Bytes.{Bytes}
use sleepytale.Base.Map.{Map}
use sleepytale.Net.{SocketAddr, addr_key}
use sleepytale.Config.{BackendConfig, Config, Routes, routes}
use sleepytale.Sni.Keys.{Crypto}
use sleepytale.Runtime.{Wake, ready, start_failed, task_failed, Os, Session, World, woke, stopped}
use sleepytale.Relay.{
  called, logged, forward_to_backend, close_sessions, drop_sessions_for, clear, reap_idle,
}
use sleepytale.Proxy.{
  Lifecycle, sleeping, waking, running, ManagedBackend, State, wake, wants_console,
}
use sleepytale.Proxy.Datagram.{dispatch, on_backend, handle_datagram}
use sleepytale.Proxy.Tick.{
  deliver_held, make_ready, awaited, settle, idle_check, after_exit_check, supervise, supervise_at,
  tick_backend, tick_backends, tick, settle_at,
}
use sleepytale.Proxy.Run.{Input, ticked, received, read_failed, round}

pub record Keeps {B : Type 0} (os : Os B) (P : World B → Type 0) : Type 0 where
  pub on_call : (w : World B) → P w → P (called w)
  pub on_stopped :
      (addr : SocketAddr) (backend : B) (w : World B) → P w → P (logged (stopped addr backend) w)
  pub on_forward :
      (client backend : SocketAddr) (datagram : Bytes) (w : World B)
      → P w
      → P (forward_to_backend os client backend datagram w).1
  pub on_close : (p : SocketAddr → Session → Bool) (w : World B) → P w → P (close_sessions p w)
  pub on_clear : (w : World B) → P w → P (clear w)

module _ {B : Type 0} {os : Os B} {P : World B → Type 0} (k : Keeps os P) where
  pub deliver_held_keeps :
      (backend : SocketAddr) (held : Map SocketAddr Bytes) (w : World B)
      → P w
      → P (deliver_held os backend held w)
  unfolding deliver_held
  deliver_held_keeps backend [] w h = h
  deliver_held_keeps backend ((client, datagram) ∷ held) w h =
      deliver_held_keeps backend held _ (k.on_forward client backend datagram w h)

  awaited_keeps :
      (m : ManagedBackend B) (w : World B) (o : Option (Wake B)) → P w → P (awaited os m w o).1
  unfolding make_ready
  awaited_keeps m w none h = h
  awaited_keeps m w (some (ready backend)) h =
      deliver_held_keeps m.config.backend m.held (called w) (k.on_call w h)
  awaited_keeps m w (some start_failed) h = h
  awaited_keeps m w (some task_failed) h = h

  settle_at_keeps :
      (m : ManagedBackend B) (w : World B) (l : Lifecycle B) → P w → P (settle_at os m w l).1
  settle_at_keeps m w sleeping h = h
  settle_at_keeps m w (waking task) h = awaited_keeps m (called w) _ (k.on_call w h)
  settle_at_keeps m w (running backend) h = h

  pub settle_keeps : (m : ManagedBackend B) (w : World B) → P w → P (settle os m w).1
  unfolding settle
  settle_keeps m w h = settle_at_keeps m w m.lifecycle h

  idle_check_keeps :
      (idle_timeout : ℕ) (backend : B) (m : ManagedBackend B) (w : World B)
      → P w
      → P (idle_check os idle_timeout backend m w).1
  unfolding idle_check
  idle_check_keeps idle_timeout backend m w h =
      let twice = k.on_call (called w) (k.on_call w h) in
      ground (arith, twice, k.on_stopped m.config.backend backend _ (k.on_call _ twice))

  after_exit_check_keeps :
      (idle_timeout : ℕ) (backend : B) (m : ManagedBackend B) (w : World B) (o : Option Bool)
      → P w
      → P (after_exit_check os idle_timeout backend m w o).1
  unfolding drop_sessions_for
  after_exit_check_keeps idle_timeout backend m w none h = h
  after_exit_check_keeps idle_timeout backend m w (some true) h = k.on_close _ w h
  after_exit_check_keeps idle_timeout backend m w (some false) h =
      idle_check_keeps idle_timeout backend m w h

  supervise_at_keeps :
      (idle_timeout : ℕ) (m : ManagedBackend B) (w : World B) (l : Lifecycle B)
      → P w
      → P (supervise_at os idle_timeout m w l).1
  supervise_at_keeps idle_timeout m w sleeping h = h
  supervise_at_keeps idle_timeout m w (waking task) h = h
  supervise_at_keeps idle_timeout m w (running backend) h =
      after_exit_check_keeps idle_timeout backend m (called w) _ (k.on_call w h)

  pub supervise_keeps :
      (idle_timeout : ℕ) (m : ManagedBackend B) (w : World B)
      → P w
      → P (supervise os idle_timeout m w).1
  unfolding supervise
  supervise_keeps idle_timeout m w h = supervise_at_keeps idle_timeout m w m.lifecycle h

  pub tick_backend_keeps :
      (idle_timeout : ℕ) (m : ManagedBackend B) (w : World B)
      → P w
      → P (tick_backend os idle_timeout m w).1
  unfolding tick_backend
  tick_backend_keeps idle_timeout m w h = supervise_keeps idle_timeout _ _ (settle_keeps m w h)

  pub tick_backends_keeps :
      (idle_timeout : ℕ) (ms : Map SocketAddr (ManagedBackend B)) (w : World B)
      → P w
      → P (tick_backends os idle_timeout ms w).1
  unfolding tick_backends
  tick_backends_keeps idle_timeout [] w h = h
  tick_backends_keeps idle_timeout ((addr, m) ∷ ms) w h =
      tick_backends_keeps idle_timeout ms _ (tick_backend_keeps idle_timeout m w h)

  pub reap_keeps : (session_timeout : ℕ) (w : World B) → P w → P (reap_idle os session_timeout w).1
  unfolding reap_idle
  reap_keeps session_timeout w h = k.on_close _ _ (k.on_call w h)

  pub tick_keeps :
      (idle_timeout session_timeout : ℕ) (s : State B)
      → P s.world
      → P (tick os idle_timeout session_timeout s).world
  unfolding tick
  tick_keeps idle_timeout session_timeout s h =
      tick_backends_keeps idle_timeout s.backends _ (reap_keeps session_timeout s.world h)

-- The startup tasks that are spawned keep it too.
abbrev pub KeepsWoken : {B : Type 0} → (World B → Type 0) → Type 0
KeepsWoken {B} P =
    (task : ℕ) (config : BackendConfig) (console : Bool) (w : World B)
    → P w
    → P (logged (woke task config console) w)

module _ {Prk B : Type 0} (crypto : Crypto Prk) {os : Os B} {P : World B → Type 0} (k : Keeps os P)
    (woken : KeepsWoken P) where
  dispatch_keeps :
      (rs : Routes) (console : Bool) (client target : SocketAddr) (datagram : Bytes)
      (m : ManagedBackend B) (s : State B) (l : Lifecycle B)
      → P s.world
      → P (dispatch crypto os rs console client target datagram m s l).world
  unfolding wake
  dispatch_keeps rs console client target datagram m s (running b) h =
      k.on_forward client target datagram s.world h
  dispatch_keeps rs console client target datagram m s sleeping h =
      let given = m.config.server.forward_stdin && console in
      let spawned = woken s.world.calls m.config given _ (k.on_call s.world h) in
      ground (arith, h, spawned)
  dispatch_keeps rs console client target datagram m s (waking task) h = ground (arith, h)

  on_backend_keeps :
      (rs : Routes) (console : Bool) (client target : SocketAddr) (datagram : Bytes) (s : State B)
      (o : Option (ManagedBackend B))
      → P s.world
      → P (on_backend crypto os rs console client target datagram s o).1.world
  on_backend_keeps rs console client target datagram s none h = h
  on_backend_keeps rs console client target datagram s (some m) h =
      dispatch_keeps rs console client target datagram m s m.lifecycle h

  pub handle_datagram_keeps :
      (rs : Routes) (console : Bool) (client : SocketAddr) (datagram : Bytes) (s : State B)
      → P s.world
      → P (handle_datagram crypto os rs console client datagram s).1.world
  unfolding handle_datagram
  handle_datagram_keeps rs console client datagram s h =
      on_backend_keeps rs console client _ datagram s _ h

  pub round_keeps :
      (config : Config) (i : Input) (s : State B) → P s.world → P (round crypto os config i s).world
  unfolding round
  round_keeps config ticked s h = tick_keeps k config.idle_timeout config.session_timeout s h
  round_keeps config (received client datagram) s h =
      handle_datagram_keeps (routes config) (wants_console config) client datagram s h
  round_keeps config read_failed s h = h

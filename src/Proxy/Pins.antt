-- ===== src/Proxy/Pins.antt =====
-- Sessions and lifecycles of crates/sleepytale/src/state.rs: what a tick of one backend does to
-- the backends that the clients are pinned to.
use sleepytale.Base.{
  ℕ, ◌≡◌, ◌≢◌, refl, ap, ◌∙◌, Bool, true, false, Option, none, some, [], ◌∷◌, arith, ◌⊎◌, inl, inr,
}
use sleepytale.Base.Bytes.{Bytes}
use sleepytale.Base.Map.{Map, IsUnique}
use sleepytale.Net.{SocketAddr, addr_key}
use sleepytale.Runtime.{Wake, ready, start_failed, task_failed, Os, World}
use sleepytale.Relay.{called, session_backend}
use sleepytale.Relay.Sessions.{forward_pins_only}
use sleepytale.Relay.Closing.{drop_sessions_for_lem, pinned_counts}
use sleepytale.Proxy.{Lifecycle, sleeping, waking, running, ManagedBackend}
use sleepytale.Proxy.Tick.{
  deliver_held, make_ready, awaited, settle, settle_at, idle_check, after_exit_check, supervise,
  supervise_at, tick_backend,
}

abbrev pub is_running : {B : Type 0} → Lifecycle B → Bool
is_running sleeping = false
is_running (waking task) = false
is_running (running backend) = true

-- The client has a session for the backend at this address.
abbrev pub IsPinned : {B : Type 0} → SocketAddr → SocketAddr → World B → Type 0
IsPinned client target w = session_backend client w ≡ some target

module _ {B : Type 0} (os : Os B) where
  deliver_held_pins :
      (client target backend : SocketAddr) (held : Map SocketAddr Bytes) (w : World B)
      → IsPinned client target (deliver_held os backend held w)
      → IsPinned client target w ⊎ (target ≡ backend)
  unfolding deliver_held
  deliver_held_pins client target backend [] w h = inl h
  deliver_held_pins client target backend ((c, datagram) ∷ held) w h = ground (
    arith,
    deliver_held_pins client target backend held _ h,
    forward_pins_only os client c backend target datagram w,
  )

  awaited_pins :
      (client target : SocketAddr) (m : ManagedBackend B) (w : World B) (o : Option (Wake B))
      → IsPinned client target (awaited os m w o).1
      → IsPinned client target w
        ⊎ ((target ≡ m.config.backend) × (is_running (awaited os m w o).0.lifecycle ≡ true))
  unfolding make_ready session_backend
  awaited_pins client target m w none h = inl h
  awaited_pins client target m w (some (ready backend)) h =
      ground (arith, deliver_held_pins client target m.config.backend m.held (called w) h)
  awaited_pins client target m w (some start_failed) h = inl h
  awaited_pins client target m w (some task_failed) h = inl h

  -- A task that has finished pins clients to its own backend only, which then runs.
  pub settle_at_pins :
      (client target : SocketAddr) (m : ManagedBackend B) (w : World B) (l : Lifecycle B)
      → m.lifecycle ≡ l
      → (is_running m.lifecycle ≡ true → is_running (settle_at os m w l).0.lifecycle ≡ true)
        × (IsPinned client target (settle_at os m w l).1
            → IsPinned client target w
              ⊎ ((target ≡ m.config.backend)
                  × (is_running (settle_at os m w l).0.lifecycle ≡ true)))
  unfolding session_backend
  settle_at_pins client target m w sleeping e = (λ r. r, λ h. inl h)
  settle_at_pins client target m w (waking task) e =
      (λ r. cc (ap is_running e), λ h. awaited_pins client target m (called w) _ h)
  settle_at_pins client target m w (running backend) e = (λ r. r, λ h. inl h)

  config-settle_at :
      (m : ManagedBackend B) (w : World B) (l : Lifecycle B)
      → (settle_at os m w l).0.config ≡ m.config
  unfolding make_ready
  config-settle_at m w l = ground arith

  after_exit_check_pins :
      (idle_timeout : ℕ) (backend : B) (client target : SocketAddr) (m : ManagedBackend B)
      (w : World B) (o : Option Bool)
      → IsUnique w.sessions
      → m.lifecycle ≡ running backend
      → let r = after_exit_check os idle_timeout backend m w o in
        IsPinned client target r.1
        → IsPinned client target w
          × ((target ≢ m.config.backend) ⊎ (is_running r.0.lifecycle ≡ true))
  unfolding idle_check session_backend
  after_exit_check_pins idle_timeout backend client target m w none u e h =
      (h, inr (ap is_running e))
  after_exit_check_pins idle_timeout backend client target m w (some true) u e h =
      ground (arith, drop_sessions_for_lem m.config.backend client w u)
  after_exit_check_pins idle_timeout backend client target m w (some false) u e h =
      ground (arith, pinned_counts client m.config.backend w u)

  supervise_at_pins :
      (idle_timeout : ℕ) (client target : SocketAddr) (m : ManagedBackend B) (w : World B)
      (l : Lifecycle B)
      → IsUnique w.sessions
      → m.lifecycle ≡ l
      → (IsPinned client m.config.backend w → is_running m.lifecycle ≡ true)
      → let r = supervise_at os idle_timeout m w l in
        IsPinned client target r.1
        → IsPinned client target w
          × ((target ≢ m.config.backend) ⊎ (is_running r.0.lifecycle ≡ true))
  unfolding session_backend
  supervise_at_pins idle_timeout client target m w sleeping u e up h = ground (arith, up)
  supervise_at_pins idle_timeout client target m w (waking task) u e up h = ground (arith, up)
  supervise_at_pins idle_timeout client target m w (running backend) u e up h =
      after_exit_check_pins idle_timeout backend client target m (called w) _ u e h

  -- After a tick of a backend, who is pinned to it was so before or was delivered what was held, and
  -- it runs; the pins to other backends are those from before.
  pub tick_backend_pins :
      (idle_timeout : ℕ) (client target : SocketAddr) (m : ManagedBackend B) (w : World B)
      → IsUnique w.sessions
      → IsUnique (settle os m w).1.sessions
      → ((c : SocketAddr) → IsPinned c m.config.backend w → is_running m.lifecycle ≡ true)
      → let r = tick_backend os idle_timeout m w in
        IsPinned client target r.1
        → ((target ≡ m.config.backend) × (is_running r.0.lifecycle ≡ true))
          ⊎ ((target ≢ m.config.backend) × IsPinned client target w)
  unfolding tick_backend settle supervise
  tick_backend_pins idle_timeout client target m w u u' up h =
      let (m', w') = settle os m w in
      let same = config-settle_at m w m.lifecycle in
      let settled = settle_at_pins client target m w m.lifecycle refl in
      let settled' = settle_at_pins client m.config.backend m w m.lifecycle refl in
      let later = supervise_at_pins idle_timeout client target m' w' m'.lifecycle u' refl in
      ground (arith, same, settled.0, settled.1, settled'.0, settled'.1, later, up client, h)

  config-supervise_at :
      (idle_timeout : ℕ) (m : ManagedBackend B) (w : World B) (l : Lifecycle B)
      → (supervise_at os idle_timeout m w l).0.config ≡ m.config
  unfolding idle_check
  config-supervise_at idle_timeout m w l = ground arith

  pub config-tick_backend :
      (idle_timeout : ℕ) (m : ManagedBackend B) (w : World B)
      → (tick_backend os idle_timeout m w).0.config ≡ m.config
  unfolding tick_backend settle supervise
  config-tick_backend idle_timeout m w =
      config-supervise_at idle_timeout _ _ _ ∙ config-settle_at m w m.lifecycle

-- ===== src/Proxy/Unused.antt =====
-- The backends of crates/sleepytale/src/state.rs that nobody uses, over a tick of all backends.
use sleepytale.Base.{
  ℕ, suc, ◌-◌, ◌<◌, ◌≡◌, ◌≢◌, ◌⊎◌, inl, refl, ap, ◌∙◌, Bool, true, false, Option, none, some, [],
  ◌∷◌, All, arith,
}
use sleepytale.Base.Map.{Map, IsUnique, values}
use sleepytale.Net.{SocketAddr, addr_key}
use sleepytale.Runtime.{Os, World}
use sleepytale.Relay.{called, session_backend, session_count_for}
use sleepytale.Relay.Closing.{drop_sessions_for_lem, session_count_for-eq-zero_iff}
use sleepytale.Proxy.{Lifecycle, sleeping, waking, running, ManagedBackend}
use sleepytale.Proxy.Tick.{
  settle, settle_at, idle_check, after_exit_check, supervise, supervise_at, tick_backend,
  tick_backends, since_or,
}
use sleepytale.Proxy.Pins.{settle_at_pins}
use sleepytale.Proxy.Worlds.{settle_keeps, tick_backend_keeps}
use sleepytale.Proxy.Reachable.{IsSound, sound}

abbrev pub is_waking : {B : Type 0} → Lifecycle B → Bool
is_waking sleeping = false
is_waking (waking task) = true
is_waking (running b) = false

module _ {B : Type 0} (os : Os B) (idle_timeout : ℕ) (a : SocketAddr) where
  -- No client has a session for the address.
  abbrev pub NoPins : World B → Type 0
  NoPins w = (client : SocketAddr) → session_backend client w ≢ some a

  -- The backend is another's, or does not wake: its tick enters no session for the address.
  abbrev pub IsQuiet : ManagedBackend B → Type 0
  IsQuiet m = (m.config.backend ≢ a) ⊎ (is_waking m.lifecycle ≡ false)

  settle_at-NoPins :
      (m : ManagedBackend B) (w : World B) (l : Lifecycle B)
      → m.lifecycle ≡ l
      → IsQuiet m
      → NoPins w
      → NoPins (settle_at os m w l).1
  settle_at-NoPins m w sleeping e q h = h
  settle_at-NoPins m w (waking task) e q h = λ client p.
      ground (arith, e, q, h client, (settle_at_pins os client a m w (waking task) e).1 p)
  settle_at-NoPins m w (running b) e q h = h

  after_exit_check-NoPins :
      (b : B) (m : ManagedBackend B) (w : World B) (o : Option Bool)
      → IsUnique w.sessions
      → NoPins w
      → NoPins (after_exit_check os idle_timeout b m w o).1
  unfolding idle_check session_backend
  after_exit_check-NoPins b m w none u h = h
  after_exit_check-NoPins b m w (some true) u h =
      λ client p. ground (arith, h client, p, drop_sessions_for_lem m.config.backend client w u)
  after_exit_check-NoPins b m w (some false) u h = λ client p. ground (arith, h client, p)

  supervise_at-NoPins :
      (m : ManagedBackend B) (w : World B) (l : Lifecycle B)
      → IsUnique w.sessions
      → NoPins w
      → NoPins (supervise_at os idle_timeout m w l).1
  unfolding session_backend
  supervise_at-NoPins m w sleeping u h = h
  supervise_at-NoPins m w (waking task) u h = h
  supervise_at-NoPins m w (running b) u h = after_exit_check-NoPins b m (called w) _ u h

  pub tick_backend-NoPins :
      (m : ManagedBackend B) (w : World B)
      → IsSound w
      → IsQuiet m
      → NoPins w
      → NoPins (tick_backend os idle_timeout m w).1
  unfolding tick_backend settle supervise
  tick_backend-NoPins m w v q h =
      let (m', w') = settle_at os m w m.lifecycle in
      supervise_at-NoPins m' w' m'.lifecycle (settle_keeps (sound os) m w v).0
        (settle_at-NoPins m w m.lifecycle refl q h)

  pub tick_backends-NoPins :
      (ms : Map SocketAddr (ManagedBackend B)) (w : World B)
      → IsSound w
      → All IsQuiet (values ms)
      → NoPins w
      → NoPins (tick_backends os idle_timeout ms w).1
  unfolding tick_backends values
  tick_backends-NoPins [] w v q h = h
  tick_backends-NoPins ((k, m) ∷ ms) w v (q, qs) h =
      tick_backends-NoPins ms (tick_backend os idle_timeout m w).1
        (tick_backend_keeps (sound os) idle_timeout m w v) qs (tick_backend-NoPins m w v q h)

  -- A running backend that nobody uses is asleep after its tick, unless the idle timeout has not
  -- passed since the time that is then noted, which is that noted before if there was one.
  abbrev pub Waits : B → ManagedBackend B → World B → ManagedBackend B → Type 0
  Waits b m v r =
      (r.lifecycle ≡ running b)
      × (r.config ≡ m.config)
      × (r.empty_since ≡ some (since_or os m.empty_since (os.clock (suc v.calls))))
      × (os.clock (suc (suc v.calls)) - since_or os m.empty_since (os.clock (suc v.calls))
          < idle_timeout)

  idle_check_unused :
      (b : B) (m : ManagedBackend B) (v : World B)
      → m.lifecycle ≡ running b
      → session_count_for m.config.backend v ≡ 0
      → let r = (idle_check os idle_timeout b m (called v)).0 in
        (r.lifecycle ≡ sleeping) ⊎ Waits b m v r
  unfolding idle_check session_count_for
  idle_check_unused b m v up none_left = ground (arith, up, none_left)

  after_exit_check_unused :
      (b : B) (m : ManagedBackend B) (v : World B) (o : Option Bool)
      → o ≢ none
      → m.lifecycle ≡ running b
      → session_count_for m.config.backend v ≡ 0
      → let r = (after_exit_check os idle_timeout b m (called v) o).0 in
        (r.lifecycle ≡ sleeping) ⊎ Waits b m v r
  after_exit_check_unused b m v none asked up none_left = absurd (asked refl)
  after_exit_check_unused b m v (some true) asked up none_left = inl refl
  after_exit_check_unused b m v (some false) asked up none_left =
      idle_check_unused b m v up none_left

  tick_asks :
      (b : B) (m : ManagedBackend B) (v : World B)
      → m.lifecycle ≡ running b
      → tick_backend os idle_timeout m v
        ≡ after_exit_check os idle_timeout b m (called v) (os.has_exited v.calls b)
  unfolding tick_backend settle supervise
  tick_asks b m v up =
      ap (λ s. supervise os idle_timeout s.0 s.1) (ap (settle_at os m v) up)
      ∙ ap (supervise_at os idle_timeout m v) up

  pub tick_unused :
      (b : B) (m : ManagedBackend B) (v : World B)
      → m.lifecycle ≡ running b
      → m.config.backend ≡ a
      → os.has_exited v.calls b ≢ none
      → IsSound v
      → NoPins v
      → let r = (tick_backend os idle_timeout m v).0 in (r.lifecycle ≡ sleeping) ⊎ Waits b m v r
  unfolding session_backend
  tick_unused b m v up here asked w none_left =
      let none_counted =
        (session_count_for-eq-zero_iff m.config.backend v w.0).1
          (λ c p. none_left c (p ∙ ap some here)) in
      rw (tick_asks b m v up)
        (after_exit_check_unused b m v (os.has_exited v.calls b) asked up none_counted)

  pub asleep_stays :
      (m : ManagedBackend B) (v : World B)
      → m.lifecycle ≡ sleeping
      → (tick_backend os idle_timeout m v).0 ≡ m
  unfolding tick_backend settle supervise
  asleep_stays m v e =
      ap (λ r. (supervise os idle_timeout r.0 r.1).0) (ap (settle_at os m v) e)
      ∙ ap (λ l. (supervise_at os idle_timeout m v l).0) e

-- ===== src/Proxy/Loop.antt =====
-- The invariant of the state in crates/sleepytale/src/state.rs, and its ticks and datagrams.
use sleepytale.Base.{
  if◌then◌else◌, ℕ, ◌≡◌, refl, ap, ◌∙◌, Bool, true, false, Option, none, some, arith, ◌||◌,
}
use sleepytale.Base.Bytes.{Bytes}
use sleepytale.Base.Map.{lookup, IsUnique, insert-IsUnique, lookup-insert}
use sleepytale.Net.{SocketAddr, addr_key}
use sleepytale.Config.{Routes}
use sleepytale.Knock.{is_quic_initial}
use sleepytale.Sni.Keys.{Crypto}
use sleepytale.Runtime.{Os, World}
use sleepytale.Relay.{called, session_backend, reap_idle}
use sleepytale.Relay.Sessions.{forward_pins_only}
use sleepytale.Relay.Closing.{close_pins_only}
use sleepytale.Proxy.{Lifecycle, sleeping, waking, running, ManagedBackend, State, hold, wake}
use sleepytale.Proxy.Datagram.{handle_datagram, dispatch, on_backend, store}
use sleepytale.Proxy.Tick.{tick}
use sleepytale.Proxy.Worlds.{tick_keeps, handle_datagram_keeps}
use sleepytale.Proxy.Invariant.{hold-IsWellFormed, wake-IsWellFormed}
use sleepytale.Proxy.Held.{config-wake, config-hold}
use sleepytale.Proxy.Pins.{IsPinned}
use sleepytale.Proxy.Reachable.{
  runs, IsEntry, IsSound, sound, woke-IsSound, tick_backends-IsUnique, tick_backends-Entries,
  tick_backends-PinsRun,
}

-- The relay is sound; the backends stand under their addresses, each well formed; and whoever has a
-- session has it for a backend that runs.
pub record IsConsistent {B : Type 0} (s : State B) : Type 0 where
  pub relay : IsSound s.world
  pub distinct : IsUnique s.backends
  pub entries : (a : SocketAddr) (m : ManagedBackend B) → lookup a s.backends ≡ some m → IsEntry a m
  pub pins :
      (client target : SocketAddr)
      → IsPinned client target s.world
      → runs (lookup target s.backends) ≡ true

or_false : (b : Bool) → (b || false) ≡ true → b ≡ true
or_false b h = ground arith

module _ {B : Type 0} (os : Os B) (session_timeout : ℕ) where
  reap-IsSound : (s : State B) → IsSound s.world → IsSound (reap_idle os session_timeout s.world).1
  unfolding reap_idle
  reap-IsSound s v = (sound os).on_close _ _ ((sound os).on_call s.world v)

  reaped_pins :
      (s : State B) (client target : SocketAddr)
      → IsUnique s.world.sessions
      → IsPinned client target (reap_idle os session_timeout s.world).1
      → (IsPinned client target s.world → runs (lookup target s.backends) ≡ true)
      → (runs (lookup target s.backends) || false) ≡ true
  unfolding reap_idle session_backend
  reaped_pins s client target u h up =
      ground (arith, up, close_pins_only _ client target (called s.world) u h)

module _ {B : Type 0} (os : Os B) where
  pub tick-IsConsistent :
      (idle_timeout session_timeout : ℕ) (s : State B)
      → IsConsistent s
      → IsConsistent (tick os idle_timeout session_timeout s)
  unfolding tick reap_idle
  tick-IsConsistent idle_timeout session_timeout s v = record {
    relay = tick_keeps (sound os) idle_timeout session_timeout s v.relay;
    distinct = tick_backends-IsUnique os idle_timeout s.backends _ v.distinct;
    entries = tick_backends-Entries os idle_timeout s.backends _ v.distinct v.entries;
    pins = λ client target h. or_false _ (
        tick_backends-PinsRun os idle_timeout (λ a. false) s.backends _ v.distinct v.entries
          (reap-IsSound os session_timeout s v.relay) (λ a e. cc)
          (λ c t p. reaped_pins os session_timeout s c t v.relay.0 p (v.pins c t)) client target h);
  }

module _ {Prk B : Type 0} (crypto : Crypto Prk) (os : Os B) (rs : Routes) (console : Bool) where
  -- A backend that is not running is written back not running, and under its own address.
  store-IsConsistent :
      (target : SocketAddr) (m : ManagedBackend B) (w : World B) (s : State B)
      → IsConsistent s
      → IsSound w
      → w.sessions ≡ s.world.sessions
      → IsEntry target m
      → runs (lookup target s.backends) ≡ false
      → IsConsistent (store target m w s)
  unfolding session_backend
  store-IsConsistent target m w s v u same e down = record {
    relay = u;
    distinct = insert-IsUnique target m s.backends v.distinct;
    entries = λ a n h. ground (arith, lookup-insert target a m s.backends, v.entries a n, e.0, e.1);
    pins = λ client t h. ground (arith, lookup-insert target t m s.backends, v.pins client t, same);
  }

  wake-IsConsistent :
      (initial : Bool) (client target : SocketAddr) (datagram : Bytes) (m : ManagedBackend B)
      (s : State B)
      → lookup target s.backends ≡ some m
      → m.lifecycle ≡ sleeping
      → IsConsistent s
      → let after =
          if initial
          then (let (m', w) = wake console client datagram m s.world in store target m' w s)
          else s in
        IsSound after.world → IsConsistent after
  unfolding wake
  wake-IsConsistent false client target datagram m s found e v u = v
  wake-IsConsistent true client target datagram m s found e v u =
      let (here, form) = v.entries target m found in
      store-IsConsistent target _ _ s v u refl
        (
          ap (λ c. c.backend) (config-wake console client datagram m s.world) ∙ here,
          wake-IsWellFormed console client datagram m s.world e form,
        )
        (ground (arith, found, e))

  hold-IsConsistent :
      (initial : Bool) (client target : SocketAddr) (datagram : Bytes) (task : ℕ)
      (m : ManagedBackend B) (s : State B)
      → lookup target s.backends ≡ some m
      → m.lifecycle ≡ waking task
      → IsConsistent s
      → IsConsistent (if initial then store target (hold client datagram m).0 s.world s else s)
  hold-IsConsistent false client target datagram task m s found e v = v
  hold-IsConsistent true client target datagram task m s found e v =
      let (here, form) = v.entries target m found in
      store-IsConsistent target _ _ s v v.relay refl
        (
          ap (λ c. c.backend) (config-hold client datagram m) ∙ here,
          hold-IsWellFormed client datagram task m e form,
        )
        (ground (arith, found, e))

  dispatch-IsConsistent :
      (client target : SocketAddr) (datagram : Bytes) (m : ManagedBackend B) (s : State B)
      (l : Lifecycle B)
      → lookup target s.backends ≡ some m
      → m.lifecycle ≡ l
      → IsConsistent s
      → IsSound (dispatch crypto os rs console client target datagram m s l).world
      → IsConsistent (dispatch crypto os rs console client target datagram m s l)
  dispatch-IsConsistent client target datagram m s (running b) found e v u = record {
    relay = u;
    distinct = v.distinct;
    entries = v.entries;
    pins = λ c t h.
        ground
          (arith, forward_pins_only os c client target t datagram s.world h, v.pins c t, found, e);
  }
  dispatch-IsConsistent client target datagram m s sleeping found e v u =
      wake-IsConsistent (is_quic_initial datagram) client target datagram m s found e v u
  dispatch-IsConsistent client target datagram m s (waking task) found e v u =
      hold-IsConsistent (is_quic_initial datagram) client target datagram task m s found e v

  on_backend-IsConsistent :
      (client target : SocketAddr) (datagram : Bytes) (s : State B) (o : Option (ManagedBackend B))
      → lookup target s.backends ≡ o
      → IsConsistent s
      → IsSound (on_backend crypto os rs console client target datagram s o).1.world
      → IsConsistent (on_backend crypto os rs console client target datagram s o).1
  on_backend-IsConsistent client target datagram s none found v u = v
  on_backend-IsConsistent client target datagram s (some m) found v u =
      dispatch-IsConsistent client target datagram m s m.lifecycle found refl v u

  pub handle_datagram-IsConsistent :
      (client : SocketAddr) (datagram : Bytes) (s : State B)
      → IsConsistent s
      → IsConsistent (handle_datagram crypto os rs console client datagram s).1
  unfolding handle_datagram
  handle_datagram-IsConsistent client datagram s v =
      on_backend-IsConsistent client _ datagram s _ refl v (
        handle_datagram_keeps crypto (sound os) (woke-IsSound B) rs console client datagram s
          v.relay)

-- ===== src/Proxy/Reachable.antt =====
-- The invariant of the table of backends in crates/sleepytale/src/state.rs, and the ticks over it.
use sleepytale.Base.{
  ℕ, ◌≡◌, refl, ap, ◌∙◌, Bool, true, false, Option, none, some, [], ◌∷◌, arith, ◌||◌,
}
use sleepytale.Base.Map.{Map, lookup, IsUnique}
use sleepytale.Net.{SocketAddr, addr_key, addr_eq}
use sleepytale.Runtime.{Os, World}
use sleepytale.Relay.Sessions.{forward-IsUnique}
use sleepytale.Relay.Closing.{close-IsUnique, clear-IsUnique}
use sleepytale.Relay.Tasks.{
  AreTracked, called-AreTracked, woke-AreTracked, stopped-AreTracked, forward-AreTracked,
  close-AreTracked, clear-AreTracked,
}
use sleepytale.Proxy.{Lifecycle, ManagedBackend}
use sleepytale.Proxy.Tick.{tick_backend, tick_backends}
use sleepytale.Proxy.Worlds.{KeepsWoken, Keeps, settle_keeps, tick_backend_keeps}
use sleepytale.Proxy.Invariant.{IsWellFormed, tick_backend-IsWellFormed}
use sleepytale.Proxy.Pins.{is_running, IsPinned, tick_backend_pins, config-tick_backend}

-- Does a running backend stand at the address?
abbrev pub runs : {B : Type 0} → Option (ManagedBackend B) → Bool
runs none = false
runs (some m) = is_running m.lifecycle

-- Each backend stands under its own address, and is well formed.
abbrev pub IsEntry : {B : Type 0} → SocketAddr → ManagedBackend B → Type 0
IsEntry addr m = (m.config.backend ≡ addr) × IsWellFormed m

-- What the relay keeps by itself.
abbrev pub IsSound : {B : Type 0} → World B → Type 0
IsSound w = IsUnique w.sessions × AreTracked w

pub woke-IsSound : (B : Type 0) → KeepsWoken {B = B} IsSound
woke-IsSound B task config console w h = (h.0, woke-AreTracked task config console w h.1)

module _ {B : Type 0} (os : Os B) where
  pub sound : Keeps os IsSound
  sound = record {
    on_call = λ w h. (h.0, called-AreTracked w h.1);
    on_stopped = λ addr backend w h. (h.0, stopped-AreTracked addr backend w h.1);
    on_forward = λ client backend datagram w h. (
      forward-IsUnique os client backend datagram w h.0,
      forward-AreTracked os client backend datagram w h.1,
    );
    on_close = λ p w h. (close-IsUnique p w h.0, close-AreTracked p w h.1);
    on_clear = λ w h. (clear-IsUnique w, clear-AreTracked w h.1);
  }

  -- The backends of a list, and others for which `other` says whether they run.
  abbrev pub PinsRun : (SocketAddr → Bool) → Map SocketAddr (ManagedBackend B) → World B → Type 0
  PinsRun other ms w =
      (client target : SocketAddr)
      → IsPinned client target w
      → (runs (lookup target ms) || other target) ≡ true

  abbrev pub Apart : (SocketAddr → Bool) → Map SocketAddr (ManagedBackend B) → Type 0
  Apart other ms = (a : SocketAddr) → other a ≡ true → lookup a ms ≡ none

  abbrev pub Entries : Map SocketAddr (ManagedBackend B) → Type 0
  Entries ms = (a : SocketAddr) (m : ManagedBackend B) → lookup a ms ≡ some m → IsEntry a m

  pub keys-tick_backends :
      (idle_timeout : ℕ) (a : SocketAddr) (ms : Map SocketAddr (ManagedBackend B)) (w : World B)
      → lookup a ms ≡ none
      → lookup a (tick_backends os idle_timeout ms w).0 ≡ none
  unfolding tick_backends lookup
  keys-tick_backends idle_timeout a [] w h = refl
  keys-tick_backends idle_timeout a ((b, m) ∷ ms) w h =
      ground (arith, keys-tick_backends idle_timeout a ms (tick_backend os idle_timeout m w).1)

  pub tick_backends-IsUnique :
      (idle_timeout : ℕ) (ms : Map SocketAddr (ManagedBackend B)) (w : World B)
      → IsUnique ms
      → IsUnique (tick_backends os idle_timeout ms w).0
  unfolding tick_backends
  tick_backends-IsUnique idle_timeout [] w u = tt
  tick_backends-IsUnique idle_timeout ((b, m) ∷ ms) w u =
      (keys-tick_backends idle_timeout b ms _ u.0, tick_backends-IsUnique idle_timeout ms _ u.1)

  Entries-tail :
      (b : SocketAddr) (m : ManagedBackend B) (ms : Map SocketAddr (ManagedBackend B))
      → lookup b ms ≡ none
      → Entries ((b, m) ∷ ms)
      → IsEntry b m × Entries ms
  unfolding lookup
  Entries-tail b m ms fresh e = (e b m (ground arith), λ a n h. e a n (ground arith))

  Entries-cons :
      (b : SocketAddr) (m : ManagedBackend B) (ms : Map SocketAddr (ManagedBackend B))
      → IsEntry b m
      → Entries ms
      → Entries ((b, m) ∷ ms)
  unfolding lookup
  Entries-cons b m ms here there a n h = ground (arith, here.0, here.1, there a n)

  pub tick_backends-Entries :
      (idle_timeout : ℕ) (ms : Map SocketAddr (ManagedBackend B)) (w : World B)
      → IsUnique ms
      → Entries ms
      → Entries (tick_backends os idle_timeout ms w).0
  unfolding tick_backends
  tick_backends-Entries idle_timeout [] w u e = e
  tick_backends-Entries idle_timeout ((b, m) ∷ ms) w u e =
      let (here, there) = Entries-tail b m ms u.0 e in
      let (m', w') = tick_backend os idle_timeout m w in
      let form = tick_backend-IsWellFormed os idle_timeout m w here.1 in
      let same = ap (λ c. c.backend) (config-tick_backend os idle_timeout m w) ∙ here.0 in
      Entries-cons b m' _ (same, form) (tick_backends-Entries idle_timeout ms w' u.1 there)

  -- The other backends for the rest of the list: one more, which has had its tick.
  abbrev and_head : (SocketAddr → Bool) → SocketAddr → Lifecycle B → SocketAddr → Bool
  and_head other b l a = elim (addr_eq a b) [ yes e ↦ is_running l | no n ↦ other a ]

  head_PinsRun :
      (idle_timeout : ℕ) (other : SocketAddr → Bool) (b : SocketAddr) (m : ManagedBackend B)
      (ms : Map SocketAddr (ManagedBackend B)) (w : World B)
      → m.config.backend ≡ b
      → IsSound w
      → Apart other ((b, m) ∷ ms)
      → PinsRun other ((b, m) ∷ ms) w
      → let r = tick_backend os idle_timeout m w in PinsRun (and_head other b r.0.lifecycle) ms r.1
  unfolding lookup
  head_PinsRun idle_timeout other b m ms w k v apart pins client target h =
      let v' = settle_keeps sound m w v in
      let up = λ (c : SocketAddr) (p : IsPinned c m.config.backend w). up_lem c p in
      let lem = tick_backend_pins os idle_timeout client target m w v.0 v'.0 up h in
      ground (arith, lem, k, pins client target, apart target)
    where
      up_lem : (c : SocketAddr) → IsPinned c m.config.backend w → is_running m.lifecycle ≡ true
      up_lem c p = ground (arith, k, p, pins c b, apart b)

  and_head-Apart :
      (other : SocketAddr → Bool) (b : SocketAddr) (m : ManagedBackend B) (l : Lifecycle B)
      (ms : Map SocketAddr (ManagedBackend B))
      → lookup b ms ≡ none
      → Apart other ((b, m) ∷ ms)
      → Apart (and_head other b l) ms
  unfolding lookup
  and_head-Apart other b m l ms fresh apart a h = ground (arith, fresh, apart a)

  pub tick_backends-PinsRun :
      (idle_timeout : ℕ) (other : SocketAddr → Bool) (ms : Map SocketAddr (ManagedBackend B))
      (w : World B)
      → IsUnique ms
      → Entries ms
      → IsSound w
      → Apart other ms
      → PinsRun other ms w
      → let r = tick_backends os idle_timeout ms w in PinsRun other r.0 r.1
  unfolding tick_backends lookup
  tick_backends-PinsRun idle_timeout other [] w u e v apart pins client target h =
      pins client target h
  tick_backends-PinsRun idle_timeout other ((b, m) ∷ ms) w u e v apart pins client target h =
      let (here, there) = Entries-tail b m ms u.0 e in
      let (m', w') = tick_backend os idle_timeout m w in
      let rest =
        tick_backends-PinsRun idle_timeout (and_head other b m'.lifecycle) ms w' u.1 there
          (tick_backend_keeps sound idle_timeout m w v)
          (and_head-Apart other b m m'.lifecycle ms u.0 apart)
          (head_PinsRun idle_timeout other b m ms w here.0 v apart pins) client target h in
      ground (arith, rest, keys-tick_backends idle_timeout b ms w' u.0)

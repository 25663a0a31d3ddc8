-- ===== src/Proxy/Once.antt =====
-- How often a backend of crates/sleepytale/src/state.rs is woken between two ticks.
use sleepytale.Base.{
  ℕ, ◌+◌, ◌≤◌, ◌≡◌, refl, ap, ◌∙◌, inl, inr, Bool, Option, none, some, List, [], ◌∷◌, All, arith,
  ite, Bool-cases,
}
use sleepytale.Base.Bytes.{Bytes}
use sleepytale.Base.Map.{Map, lookup, insert, lookup-insert}
use sleepytale.Net.{SocketAddr, addr_key, addr_eq}
use sleepytale.Config.{Config, Routes, routes}
use sleepytale.Knock.{is_quic_initial}
use sleepytale.Sni.Keys.{Crypto}
use sleepytale.Runtime.{Os, World, Event, Session, woke, opened, offered, aborted, stopped}
use sleepytale.Relay.{
  forward_to_backend, session_for, find_or_open, bind_result, touch, open_session, send_on, called,
}
use sleepytale.Proxy.{
  Lifecycle, sleeping, waking, running, ManagedBackend, State, hold, wake, start, wants_console,
}
use sleepytale.Proxy.Datagram.{handle_datagram, dispatch, on_backend}
use sleepytale.Proxy.Run.{Input, ticked, received, read_failed, round, rounds}
use sleepytale.Proxy.Held.{lifecycle-hold}
use sleepytale.Proxy.Loop.{IsConsistent}
use sleepytale.Proxy.Rounds.{round-IsConsistent, rounds-IsConsistent}

-- It is not the tick of the loop's timer.
abbrev pub IsBetween : Input → Type 0
IsBetween ticked = ⊥
IsBetween (received client datagram) = Unit
IsBetween read_failed = Unit

module _ {B : Type 0} (a : SocketAddr) where
  -- The startup tasks that were spawned for the address.
  abbrev pub woken : List (Event B) → ℕ
  woken [] = 0
  woken (woke task c console ∷ es) = ite (addr_eq c.backend a) 1 0 + woken es
  woken (opened client socket task ∷ es) = woken es
  woken (offered socket to datagram ∷ es) = woken es
  woken (aborted task ∷ es) = woken es
  woken (stopped addr backend ∷ es) = woken es

  abbrev asleep : Lifecycle B → ℕ
  asleep sleeping = 1
  asleep (waking task) = 0
  asleep (running b) = 0

  -- One if a backend stands there and sleeps, else none.
  abbrev pub asleep_at : Option (ManagedBackend B) → ℕ
  asleep_at none = 0
  asleep_at (some m) = asleep m.lifecycle

  one_asleep : (o : Option (ManagedBackend B)) → asleep_at o ≤ 1
  one_asleep none = omega arith
  one_asleep (some m) = alone m.lifecycle
    where
      alone : (l : Lifecycle B) → asleep l ≤ 1
      alone sleeping = omega arith
      alone (waking task) = omega arith
      alone (running b) = omega arith

  abbrev balance : State B → ℕ
  balance s = woken s.world.trace + asleep_at (lookup a s.backends)

  module _ (os : Os B) where
    woken-bind_result :
        (client backend : SocketAddr) (datagram : Bytes) (w : World B) (o : Option ℕ)
        → woken (send_on os datagram (bind_result os client backend w o)).1.trace ≡ woken w.trace
    unfolding open_session
    woken-bind_result client backend datagram w none = refl
    woken-bind_result client backend datagram w (some socket) = refl

    woken-find_or_open :
        (client backend : SocketAddr) (datagram : Bytes) (w : World B) (o : Option Session)
        → woken (send_on os datagram (find_or_open os client backend w o)).1.trace ≡ woken w.trace
    unfolding touch
    woken-find_or_open client backend datagram w none =
        woken-bind_result client backend datagram (called w) _
    woken-find_or_open client backend datagram w (some s) = refl

    woken-forward :
        (client backend : SocketAddr) (datagram : Bytes) (w : World B)
        → woken (forward_to_backend os client backend datagram w).1.trace ≡ woken w.trace
    unfolding forward_to_backend session_for
    woken-forward client backend datagram w = woken-find_or_open client backend datagram w _

  -- Another backend at the target, as much asleep as the one before.
  store_asleep :
      (target : SocketAddr) (m m' : ManagedBackend B) (ms : Map SocketAddr (ManagedBackend B))
      → lookup target ms ≡ some m
      → asleep m'.lifecycle ≡ asleep m.lifecycle
      → asleep_at (lookup a (insert target m' ms)) ≡ asleep_at (lookup a ms)
  store_asleep target m m' ms found same = ground (arith, found, same, lookup-insert target a m' ms)

  -- The backend at the target, which is its own address, has woken.
  store_woken :
      (target : SocketAddr) (m m' : ManagedBackend B) (ms : Map SocketAddr (ManagedBackend B))
      → lookup target ms ≡ some m
      → m.config.backend ≡ target
      → asleep m.lifecycle ≡ 1
      → asleep m'.lifecycle ≡ 0
      → ite (addr_eq m.config.backend a) 1 0 + asleep_at (lookup a (insert target m' ms))
        ≡ asleep_at (lookup a ms)
  store_woken target m m' ms found own was is =
      let woke_at : (b : SocketAddr) → ℕ = λ b. ite (addr_eq b a) 1 0 in
      ap (λ b. woke_at b + asleep_at (lookup a (insert target m' ms))) own
      ∙ ground (arith, found, was, is, lookup-insert target a m' ms)

moved : (i j k n : ℕ) → i + j ≡ k → (i + n) + j ≡ n + k
moved i j k n h = omega (arith, h)

module _ {Prk B : Type 0} (crypto : Crypto Prk) (os : Os B) (a : SocketAddr) where
  balance-dispatch :
      (rs : Routes) (console : Bool) (client target : SocketAddr) (datagram : Bytes)
      (m : ManagedBackend B) (s : State B) (l : Lifecycle B)
      → lookup target s.backends ≡ some m
      → m.config.backend ≡ target
      → m.lifecycle ≡ l
      → balance a (dispatch crypto os rs console client target datagram m s l) ≡ balance a s
  unfolding wake
  balance-dispatch rs console client target datagram m s (running b) found own e =
      ap (λ n. n + asleep_at a (lookup a s.backends))
        (woken-forward a os client target datagram s.world)
  balance-dispatch rs console client target datagram m s sleeping found own e =
      elim (Bool-cases (is_quic_initial datagram)) [
        | inl initial ↦
            let (m', w) = wake console client datagram m s.world in
            let up : asleep a m'.lifecycle ≡ 0 = ap (asleep a) (lifecycle-hold client datagram _) in
            let step = store_woken a target m m' s.backends found own (ap (asleep a) e) up in
            rw initial (moved _ _ _ (woken a s.world.trace) step)
        | inr other ↦ rw other refl
      ]
  balance-dispatch rs console client target datagram m s (waking task) found own e =
      elim (Bool-cases (is_quic_initial datagram)) [
        | inl initial ↦
            let m' = (hold client datagram m).0 in
            let same = ap (asleep a) (lifecycle-hold client datagram m) in
            rw initial (
              ap (λ n. woken a s.world.trace + n)
                (store_asleep a target m m' s.backends found same))
        | inr other ↦ rw other refl
      ]

  balance-on_backend :
      (rs : Routes) (console : Bool) (client target : SocketAddr) (datagram : Bytes) (s : State B)
      (o : Option (ManagedBackend B))
      → lookup target s.backends ≡ o
      → IsConsistent s
      → balance a (on_backend crypto os rs console client target datagram s o).1 ≡ balance a s
  balance-on_backend rs console client target datagram s none found v = refl
  balance-on_backend rs console client target datagram s (some m) found v =
      balance-dispatch rs console client target datagram m s m.lifecycle found
        (v.entries target m found).0 refl

  balance-round :
      (config : Config) (i : Input) (s : State B)
      → IsBetween i
      → IsConsistent s
      → balance a (round crypto os config i s) ≡ balance a s
  unfolding round handle_datagram
  balance-round config ticked s between v = absurd between
  balance-round config (received client datagram) s between v =
      balance-on_backend (routes config) (wants_console config) client _ datagram s _ refl v
  balance-round config read_failed s between v = refl

  balance-rounds :
      (config : Config) (is : List Input) (s : State B)
      → All IsBetween is
      → IsConsistent s
      → balance a (rounds crypto os config is s) ≡ balance a s
  unfolding rounds
  balance-rounds config [] s between v = refl
  balance-rounds config (i ∷ is) s (here, rest) v =
      balance-rounds config is _ rest (round-IsConsistent crypto os config i s v)
      ∙ balance-round config i s here v

  -- After any events, let any further ones come in before the next tick. The startup tasks that were
  -- spawned for an address, and one if a backend stands there that sleeps, are then as many as they
  -- were; so at most one more was spawned for it.
  pub woken_once :
      (config : Config) (before is : List Input)
      → All IsBetween is
      → let s = rounds crypto os config before (start config) in
        let s' = rounds crypto os config is s in
        (woken a s'.world.trace + asleep_at a (lookup a s'.backends)
          ≡ woken a s.world.trace + asleep_at a (lookup a s.backends))
        × (woken a s'.world.trace ≤ woken a s.world.trace + 1)
  woken_once config before is between =
      let s = rounds crypto os config before (start config) in
      let same = balance-rounds config is s between (rounds-IsConsistent crypto os config before) in
      (same, omega (arith, same, one_asleep a (lookup a s.backends)))

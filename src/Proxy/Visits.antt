-- ===== src/Proxy/Visits.antt =====
-- The loop over the backends in `tick` of crates/sleepytale/src/state.rs comes to each of them in a
-- world of its own, which the backends before it have changed.
use sleepytale.Base.{ℕ, ◌≤◌, ◌≡◌, refl, ◌⊎◌, inl, inr, some, [], ◌∷◌, All, arith}
use sleepytale.Base.Map.{Map, lookup, insert, values}
use sleepytale.Net.{SocketAddr, addr_key, addr_eq}
use sleepytale.Runtime.{Os, World}
use sleepytale.Proxy.{ManagedBackend}
use sleepytale.Proxy.Tick.{tick_backend, tick_backends}
use sleepytale.Proxy.Worlds.{tick_backend_keeps, tick_backends_keeps}
use sleepytale.Proxy.Reachable.{IsSound, sound}
use sleepytale.Proxy.Traces.{Follows, Follows-refl, follows}

-- `P` holds of the world, and the tick of a backend with `Q` keeps it.
module _ {B : Type 0} (os : Os B) (idle_timeout : ℕ) (P : World B → Type 0)
    (Q : ManagedBackend B → Type 0) where
  abbrev pub Spares : Type 0
  Spares =
      (m : ManagedBackend B) (w : World B)
      → IsSound w
      → Q m
      → P w
      → P (tick_backend os idle_timeout m w).1

  -- The world in which the backend at the address has its tick.
  abbrev pub Visit :
      SocketAddr → ManagedBackend B → Map SocketAddr (ManagedBackend B) → World B → Type 0
  Visit a m ms w =
      let after = tick_backends os idle_timeout ms w in
      (v : World B) × (w.calls ≤ v.calls)
      × IsSound v
      × P v
      × (lookup a after.0 ≡ some (tick_backend os idle_timeout m v).0)
      × Follows (tick_backend os idle_timeout m v).1 after.1

  -- All backends but the one at the address have `Q`.
  abbrev pub Others : SocketAddr → Map SocketAddr (ManagedBackend B) → Type 0
  Others a = All λ e. (e.0 ≡ a) ⊎ Q e.1

  pub All-Others :
      (a : SocketAddr) (ms : Map SocketAddr (ManagedBackend B)) → All Q (values ms) → Others a ms
  unfolding values
  All-Others a [] h = tt
  All-Others a ((k, n) ∷ ms) (q, qs) = (inr q, All-Others a ms qs)

  pub insert-Others :
      (a : SocketAddr) (m : ManagedBackend B) (ms : Map SocketAddr (ManagedBackend B))
      → Others a ms
      → Others a (insert a m ms)
  unfolding insert
  insert-Others a m [] h = (inl refl, tt)
  insert-Others a m ((k, n) ∷ ms) (q, qs) = ground (arith, q, qs, insert-Others a m ms qs)

  pub visit :
      (a : SocketAddr) (m : ManagedBackend B) (ms : Map SocketAddr (ManagedBackend B)) (w : World B)
      → Spares
      → lookup a ms ≡ some m
      → IsSound w
      → Others a ms
      → P w
      → Visit a m ms w
  unfolding tick_backends lookup
  visit a m [] w spares found v q h = cc
  visit a m ((k, n) ∷ ms) w spares found v (q, qs) h = elim (addr_eq k a) [
    | yes e ↦
        let w' = (tick_backend os idle_timeout n w).1 in
        let rest = tick_backends_keeps (follows os w') idle_timeout ms w' (Follows-refl w') in
        let same : n ≡ m = ground (arith, e, found) in
        (w, omega arith, v, h, ground (arith, e, same), rw (← same) rest)
    | no ne ↦
        let w' = (tick_backend os idle_timeout n w).1 in
        let onward = tick_backend_keeps (follows os w) idle_timeout n w (Follows-refl w) in
        let other : Q n = elim q [ inl e ↦ absurd (ne e) | inr p ↦ p ] in
        let (u, le, sound', holds, stands, rest) =
          visit a m ms w' spares (ground (arith, ne, found))
            (tick_backend_keeps (sound os) idle_timeout n w v) qs (spares n w v other h) in
        (u, omega (arith, onward.0), sound', holds, ground (arith, ne, stands), rest)
  ]

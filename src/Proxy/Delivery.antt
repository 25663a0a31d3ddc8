-- ===== src/Proxy/Delivery.antt =====
-- What becomes of the held datagrams: `deliver_held` of crates/sleepytale/src/state.rs.
use sleepytale.Base.{
  ℕ, ◌≡◌, ◌≢◌, refl, ◌⊎◌, true, Option, none, some, List, [], ◌∷◌, arith, is_some, inl, inr,
}
use sleepytale.Base.Bytes.{Bytes}
use sleepytale.Base.Map.{Map, lookup, IsUnique, lookup-insert}
use sleepytale.Net.{SocketAddr, addr_key, addr_eq}
use sleepytale.Runtime.{Os, World, Event, Session, offered}
use sleepytale.Relay.{
  called, session_backend, forward_to_backend, session_for, find_or_open, bind_result, bind_address,
  touch, open_session, send_on, map_backend,
}
use sleepytale.Relay.Sessions.{forward-Entered, pin_or}
use sleepytale.Proxy.Tick.{deliver_held}

-- The datagram was handed to a socket for the address.
abbrev pub Offered : {B : Type 0} → SocketAddr → Bytes → List (Event B) → Type 0
Offered to datagram [] = ⊥
Offered to datagram (offered socket a d ∷ es) = ((a ≡ to) × (d ≡ datagram)) ⊎ Offered to datagram es
Offered to datagram (e ∷ es) = Offered to datagram es

-- Every upstream socket can be bound.
abbrev pub CanBind : {B : Type 0} → Os B → Type 0
CanBind os = (n : ℕ) (a : SocketAddr) → is_some (os.bind n a) ≡ true

module _ {B : Type 0} (os : Os B) where
  bind_result_offers :
      (client backend : SocketAddr) (datagram : Bytes) (w : World B) (o : Option ℕ)
      → is_some o ≡ true
      → Offered backend datagram (send_on os datagram (bind_result os client backend w o)).1.trace
  bind_result_offers client backend datagram w none h = cc
  bind_result_offers client backend datagram w (some socket) h = inl (refl, refl)

  find_or_open_offers :
      (client backend : SocketAddr) (datagram : Bytes) (w : World B) (o : Option Session)
      → CanBind os
      → Offered
          (pin_or (map_backend o) backend)
          datagram
          (send_on os datagram (find_or_open os client backend w o)).1.trace
  find_or_open_offers client backend datagram w none can =
      bind_result_offers client backend datagram (called w) _ (can w.calls (bind_address backend))
  find_or_open_offers client backend datagram w (some s) can = inl (refl, refl)

  bind_result_extends :
      (client backend to : SocketAddr) (datagram earlier : Bytes) (w : World B) (o : Option ℕ)
      → Offered to earlier w.trace
      → Offered to earlier (send_on os datagram (bind_result os client backend w o)).1.trace
  unfolding open_session
  bind_result_extends client backend to datagram earlier w none h = h
  bind_result_extends client backend to datagram earlier w (some socket) h = inr h

  find_or_open_extends :
      (client backend to : SocketAddr) (datagram earlier : Bytes) (w : World B) (o : Option Session)
      → Offered to earlier w.trace
      → Offered to earlier (send_on os datagram (find_or_open os client backend w o)).1.trace
  unfolding touch
  find_or_open_extends client backend to datagram earlier w none h =
      bind_result_extends client backend to datagram earlier (called w) _ h
  find_or_open_extends client backend to datagram earlier w (some s) h = inr h

  -- A forwarded datagram is handed to a socket for the backend of the client's session, which is
  -- the backend given if the client had none, provided a socket can be bound.
  pub forward_offers :
      (client backend : SocketAddr) (datagram : Bytes) (w : World B)
      → CanBind os
      → Offered
          (pin_or (session_backend client w) backend)
          datagram
          (forward_to_backend os client backend datagram w).1.trace
  unfolding forward_to_backend session_for session_backend
  forward_offers client backend datagram w can =
      find_or_open_offers client backend datagram w (lookup client w.sessions) can

  forward_extends :
      (client backend to : SocketAddr) (datagram earlier : Bytes) (w : World B)
      → Offered to earlier w.trace
      → Offered to earlier (forward_to_backend os client backend datagram w).1.trace
  unfolding forward_to_backend session_for
  forward_extends client backend to datagram earlier w h =
      find_or_open_extends client backend to datagram earlier w (lookup client w.sessions) h

  pub forward_leaves_others :
      (client from backend : SocketAddr) (datagram : Bytes) (w : World B)
      → from ≢ client
      → session_backend client (forward_to_backend os from backend datagram w).1
        ≡ session_backend client w
  unfolding session_backend
  forward_leaves_others client from backend datagram w other =
      elim (forward-Entered os from backend datagram w) [
        | inl (s, e, p) ↦ rw e (ground (arith, lookup-insert from client s w.sessions))
        | inr (e, _) ↦ rw e refl
      ]

  deliver_held_extends :
      (backend to : SocketAddr) (earlier : Bytes) (held : Map SocketAddr Bytes) (w : World B)
      → Offered to earlier w.trace
      → Offered to earlier (deliver_held os backend held w).trace
  unfolding deliver_held
  deliver_held_extends backend to earlier [] w h = h
  deliver_held_extends backend to earlier ((c, d) ∷ held) w h =
      deliver_held_extends backend to earlier held _ (forward_extends c backend to d earlier w h)

  -- Where sockets can be bound, every held datagram is handed on: to the backend that has booted if
  -- its client has no session, and to the backend of the client's session if it has one by then.
  pub deliver_held_offers :
      (backend client : SocketAddr) (datagram : Bytes) (held : Map SocketAddr Bytes) (w : World B)
      → CanBind os
      → IsUnique held
      → lookup client held ≡ some datagram
      → Offered
          (pin_or (session_backend client w) backend)
          datagram
          (deliver_held os backend held w).trace
  unfolding deliver_held lookup
  deliver_held_offers backend client datagram [] w can u h = cc
  deliver_held_offers backend client datagram ((c, d) ∷ held) w can u h = elim (addr_eq c client) [
    | yes p ↦
        let e : d ≡ datagram = ground (arith, h, p) in
        let step = forward_offers c backend d w can in
        rw (← p, ← e) (deliver_held_extends backend _ d held _ step)
    | no n ↦
        let later : lookup client held ≡ some datagram = ground (arith, h, n) in
        let w' = (forward_to_backend os c backend d w).1 in
        rw (forward_leaves_others client c backend d w n) at
          (deliver_held_offers backend client datagram held w' can u.1 later)
  ]

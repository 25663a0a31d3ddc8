-- ===== src/Relay/Sessions.antt =====
-- What the operations of crates/sleepytale/src/relay.rs do to the sessions.
use sleepytale.Base.{ℕ, ◌≡◌, refl, sym, ap, ◌⊎◌, inl, inr, Option, none, some, arith}
use sleepytale.Base.Bytes.{Bytes}
use sleepytale.Base.Result.{Result, ok, err}
use sleepytale.Base.Map.{lookup, insert, IsUnique, lookup-insert, insert-IsUnique}
use sleepytale.Net.{SocketAddr, addr_key}
use sleepytale.Runtime.{Os, Session, World}
use sleepytale.Relay.{
  session_backend, touch, open_session, session_for, forward_to_backend, RelayError, map_backend,
  called, bind_result, find_or_open, send_on,
}

abbrev pub pin_or : Option SocketAddr → SocketAddr → SocketAddr
pin_or none backend = backend
pin_or (some target) backend = target

module _ {B : Type 0} where
  -- A session stands for the client, pinned to the backend that it had, or to this one; or no
  -- socket could be bound for a new session.
  abbrev pub Entered : SocketAddr → SocketAddr → World B → World B → Type 0
  Entered client backend w w' =
      ((s : Session) × (w'.sessions ≡ insert client s w.sessions)
        × (s.backend ≡ pin_or (session_backend client w) backend))
      ⊎ ((w'.sessions ≡ w.sessions) × (session_backend client w ≡ none))

module _ {B : Type 0} (os : Os B) where
  bind_result-Entered :
      (client backend : SocketAddr) (w : World B) (o : Option ℕ)
      → lookup client w.sessions ≡ none
      → Entered client backend w (bind_result os client backend (called w) o).1
  unfolding open_session session_backend
  bind_result-Entered client backend w none e = inr (refl, ap map_backend e)
  bind_result-Entered client backend w (some socket) e =
      inl (_, refl, sym (ap (λ o. pin_or (map_backend o) backend) e))

  find_or_open-Entered :
      (client backend : SocketAddr) (w : World B) (o : Option Session)
      → lookup client w.sessions ≡ o
      → Entered client backend w (find_or_open os client backend w o).1
  unfolding touch session_backend
  find_or_open-Entered client backend w none e = bind_result-Entered client backend w _ e
  find_or_open-Entered client backend w (some s) e =
      inl (_, refl, sym (ap (λ o. pin_or (map_backend o) backend) e))

  sessions-send_on :
      (datagram : Bytes) (r : Result RelayError (ℕ × SocketAddr)) (w : World B)
      → (send_on os datagram (r, w)).1.sessions ≡ w.sessions
  sessions-send_on datagram (ok (socket, to)) w = refl
  sessions-send_on datagram (err e) w = refl

  pub forward-Entered :
      (client backend : SocketAddr) (datagram : Bytes) (w : World B)
      → Entered client backend w (forward_to_backend os client backend datagram w).1
  unfolding forward_to_backend session_for
  forward-Entered client backend datagram w =
      let (r, w') = session_for os client backend w in
      rw (sessions-send_on datagram r w')
        (find_or_open-Entered client backend w (lookup client w.sessions) refl)

  pub forward-IsUnique :
      (client backend : SocketAddr) (datagram : Bytes) (w : World B)
      → IsUnique w.sessions
      → IsUnique (forward_to_backend os client backend datagram w).1.sessions
  forward-IsUnique client backend datagram w u = elim (forward-Entered client backend datagram w) [
    | inl (s, e, _) ↦ rw e (insert-IsUnique client s w.sessions u)
    | inr (e, _) ↦ rw e u
  ]

  -- A client that has a session keeps its backend, whichever client is forwarded to whatever
  -- backend.
  pub forward_keeps_pins :
      (client from backend target : SocketAddr) (datagram : Bytes) (w : World B)
      → session_backend client w ≡ some target
      → session_backend client (forward_to_backend os from backend datagram w).1 ≡ some target
  unfolding session_backend
  forward_keeps_pins client from backend target datagram w h =
      elim (forward-Entered from backend datagram w) [
        | inl (s, e, p) ↦ rw e (ground (arith, lookup-insert from client s w.sessions))
        | inr (e, _) ↦ rw e h
      ]

  -- Every session afterwards was there with the same backend, or is the sender's, pinned to the
  -- backend given.
  pub forward_pins_only :
      (client from backend target : SocketAddr) (datagram : Bytes) (w : World B)
      → session_backend client (forward_to_backend os from backend datagram w).1 ≡ some target
      → (session_backend client w ≡ some target) ⊎ ((client ≡ from) × (target ≡ backend))
  unfolding session_backend
  forward_pins_only client from backend target datagram w =
      elim (forward-Entered from backend datagram w) [
        | inl (s, e, p) ↦ rw e (ground (arith, lookup-insert from client s w.sessions))
        | inr (e, _) ↦ rw e (λ h. inl h)
      ]

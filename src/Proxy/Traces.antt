-- ===== src/Proxy/Traces.antt =====
-- The trace of crates/sleepytale/src/state.rs only grows.
use sleepytale.Base.{ℕ, ◌≡◌, ◌≤◌, ◌⊎◌, inr, false, Option, none, some, List, [], ◌∷◌, ◌++◌, arith}
use sleepytale.Base.Bytes.{Bytes}
use sleepytale.Net.{SocketAddr, addr_key}
use sleepytale.Base.Map.{lookup}
use sleepytale.Runtime.{Os, World, Event, Session}
use sleepytale.Relay.{
  aborts, close_sessions, clear, forward_to_backend, session_for, find_or_open, bind_result, touch,
  open_session, send_on, called,
}
use sleepytale.Proxy.Worlds.{Keeps}

module _ {B : Type 0} where
  -- The event stands in the trace.
  abbrev pub IsLogged : Event B → List (Event B) → Type 0
  IsLogged e [] = ⊥
  IsLogged e (f ∷ es) = (f ≡ e) ⊎ IsLogged e es

  append-IsLogged : (e : Event B) (fs es : List (Event B)) → IsLogged e es → IsLogged e (fs ++ es)
  append-IsLogged e [] es h = h
  append-IsLogged e (f ∷ fs) es h = inr (append-IsLogged e fs es h)

  -- No call is undone, and no event leaves the trace.
  abbrev pub Follows : World B → World B → Type 0
  Follows w w' = (w.calls ≤ w'.calls) × ((e : Event B) → IsLogged e w.trace → IsLogged e w'.trace)

  pub Follows-refl : (w : World B) → Follows w w
  Follows-refl w = (omega arith, λ e h. h)

module _ {B : Type 0} (os : Os B) (v : World B) where
  bind_result-Follows :
      (client backend : SocketAddr) (datagram : Bytes) (w : World B) (o : Option ℕ)
      → Follows v w
      → Follows v (send_on os datagram (bind_result os client backend w o)).1
  unfolding open_session
  bind_result-Follows client backend datagram w none h = h
  bind_result-Follows client backend datagram w (some socket) (n, h) =
      (omega arith, λ e l. inr (inr (h e l)))

  find_or_open-Follows :
      (client backend : SocketAddr) (datagram : Bytes) (w : World B) (o : Option Session)
      → Follows v w
      → Follows v (send_on os datagram (find_or_open os client backend w o)).1
  unfolding touch
  find_or_open-Follows client backend datagram w none (n, h) =
      bind_result-Follows client backend datagram (called w) _ (omega arith, h)
  find_or_open-Follows client backend datagram w (some s) (n, h) = (omega arith, λ e l. inr (h e l))

  forward-Follows :
      (client backend : SocketAddr) (datagram : Bytes) (w : World B)
      → Follows v w
      → Follows v (forward_to_backend os client backend datagram w).1
  unfolding forward_to_backend session_for
  forward-Follows client backend datagram w h =
      find_or_open-Follows client backend datagram w (lookup client w.sessions) h

  pub follows : Keeps os (Follows v)
  unfolding close_sessions clear
  follows = record {
    on_call = λ w (n, h). (omega arith, h);
    on_stopped = λ addr backend w (n, h). (n, λ e l. inr (h e l));
    on_forward = forward-Follows;
    on_close = λ p w (n, h). (n, λ e l. append-IsLogged e (aborts p w.sessions) w.trace (h e l));
    on_clear = λ w (n, h).
        (n, λ e l. append-IsLogged e (aborts (λ c s. false) w.sessions) w.trace (h e l));
  }

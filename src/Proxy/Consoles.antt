-- ===== src/Proxy/Consoles.antt =====
-- Who is given the console in crates/sleepytale/src/state.rs.
use sleepytale.Base.{
  ℕ, ◌≤◌, ◌≡◌, sym, ap, ◌∙◌, ◌⊎◌, inl, inr, Bool, true, false, Option, none, some, List, [], ◌∷◌,
  ◌++◌, arith,
}
use sleepytale.Base.Bytes.{Bytes, bytes_key}
use sleepytale.Base.Map.{Map, lookup}
use sleepytale.Net.{SocketAddr, addr_key}
use sleepytale.Config.{BackendConfig}
use sleepytale.Config.Validate.{count_consoles}
use sleepytale.Runtime.{Os, World, Event, Session, opened, offered, aborted, woke, stopped}
use sleepytale.Relay.{
  aborts, close_sessions, clear, called, forward_to_backend, session_for, find_or_open, bind_result,
  touch, open_session, send_on,
}
use sleepytale.Proxy.Worlds.{Keeps}
use sleepytale.Proxy.Traces.{IsLogged}

-- The configuration is one of these.
abbrev pub IsOne : BackendConfig → List BackendConfig → Type 0
IsOne c [] = ⊥
IsOne c (b ∷ bs) = (b ≡ c) ⊎ IsOne c bs

abbrev woken_config : {B : Type 0} → BackendConfig → Event B → BackendConfig
woken_config d (woke task c console) = c
woken_config d e = d

module _ {B : Type 0} (cs : List BackendConfig) where
  -- The console went only to configurations of these that want it.
  abbrev pub LendsTo : List (Event B) → Type 0
  LendsTo [] = Unit
  LendsTo (woke task c true ∷ es) = ((c.server.forward_stdin ≡ true) × IsOne c cs) × LendsTo es
  LendsTo (woke task c false ∷ es) = LendsTo es
  LendsTo (opened client socket task ∷ es) = LendsTo es
  LendsTo (offered socket to datagram ∷ es) = LendsTo es
  LendsTo (aborted task ∷ es) = LendsTo es
  LendsTo (stopped addr backend ∷ es) = LendsTo es

  aborts-LendsTo :
      (keep : SocketAddr → Session → Bool) (ms : Map SocketAddr Session) (es : List (Event B))
      → LendsTo es
      → LendsTo (aborts keep ms ++ es)
  unfolding aborts
  aborts-LendsTo keep [] es h = h
  aborts-LendsTo keep ((c, s) ∷ ms) es h = ground (arith, aborts-LendsTo keep ms es h)

  module _ (os : Os B) where
    bind_result-LendsTo :
        (client backend : SocketAddr) (datagram : Bytes) (w : World B) (o : Option ℕ)
        → LendsTo w.trace
        → LendsTo (send_on os datagram (bind_result os client backend w o)).1.trace
    unfolding open_session
    bind_result-LendsTo client backend datagram w none h = h
    bind_result-LendsTo client backend datagram w (some socket) h = h

    find_or_open-LendsTo :
        (client backend : SocketAddr) (datagram : Bytes) (w : World B) (o : Option Session)
        → LendsTo w.trace
        → LendsTo (send_on os datagram (find_or_open os client backend w o)).1.trace
    unfolding touch
    find_or_open-LendsTo client backend datagram w none h =
        bind_result-LendsTo client backend datagram (called w) _ h
    find_or_open-LendsTo client backend datagram w (some s) h = h

    forward-LendsTo :
        (client backend : SocketAddr) (datagram : Bytes) (w : World B)
        → LendsTo w.trace
        → LendsTo (forward_to_backend os client backend datagram w).1.trace
    unfolding forward_to_backend session_for
    forward-LendsTo client backend datagram w h =
        find_or_open-LendsTo client backend datagram w (lookup client w.sessions) h

    pub lends : Keeps os (λ w. LendsTo w.trace)
    unfolding close_sessions clear
    lends = record {
      on_call = λ w h. h;
      on_stopped = λ addr backend w h. h;
      on_forward = forward-LendsTo;
      on_close = λ p w h. aborts-LendsTo p w.sessions w.trace h;
      on_clear = λ w h. aborts-LendsTo (λ c s. false) w.sessions w.trace h;
    }

  pub LendsTo-lem :
      (task : ℕ) (c : BackendConfig) (es : List (Event B))
      → LendsTo es
      → IsLogged (woke task c true) es
      → (c.server.forward_stdin ≡ true) × IsOne c cs
  LendsTo-lem task c [] h l = absurd l
  LendsTo-lem task c (woke u d true ∷ es) (here, h) (inl e) = rw (ap (woken_config d) e) at here
  LendsTo-lem task c (woke u d true ∷ es) (here, h) (inr l) = LendsTo-lem task c es h l
  LendsTo-lem task c (woke u d false ∷ es) h (inl e) = cc
  LendsTo-lem task c (woke u d false ∷ es) h (inr l) = LendsTo-lem task c es h l
  LendsTo-lem task c (opened client socket u ∷ es) h (inl e) = cc
  LendsTo-lem task c (opened client socket u ∷ es) h (inr l) = LendsTo-lem task c es h l
  LendsTo-lem task c (offered socket to datagram ∷ es) h (inl e) = cc
  LendsTo-lem task c (offered socket to datagram ∷ es) h (inr l) = LendsTo-lem task c es h l
  LendsTo-lem task c (aborted u ∷ es) h (inl e) = cc
  LendsTo-lem task c (aborted u ∷ es) h (inr l) = LendsTo-lem task c es h l
  LendsTo-lem task c (stopped addr backend ∷ es) h (inl e) = cc
  LendsTo-lem task c (stopped addr backend ∷ es) h (inr l) = LendsTo-lem task c es h l

-- The flags of a list, counted.
none_wants :
    (c : BackendConfig) (bs : List BackendConfig)
    → count_consoles bs ≡ 0
    → IsOne c bs
    → c.server.forward_stdin ≡ false
unfolding count_consoles
none_wants c [] e i = absurd i
none_wants c (b ∷ bs) e (inl same) = rw (← same) (ground (arith, e))
none_wants c (b ∷ bs) e (inr i) = none_wants c bs (ground (arith, e)) i

-- Of two that want the console, in a list where one at most does, each is the other.
pub one_wants :
    (c d : BackendConfig) (bs : List BackendConfig)
    → count_consoles bs ≤ 1
    → IsOne c bs
    → IsOne d bs
    → c.server.forward_stdin ≡ true
    → d.server.forward_stdin ≡ true
    → c ≡ d
unfolding count_consoles
one_wants c d [] le i j p q = absurd i
one_wants c d (b ∷ bs) le (inl e) (inl e') p q = sym e ∙ e'
one_wants c d (b ∷ bs) le (inl e) (inr j) p q =
    cc (none_wants d bs (ground (arith, le, rw (← e) at p)) j)
one_wants c d (b ∷ bs) le (inr i) (inl e) p q =
    cc (none_wants c bs (ground (arith, le, rw (← e) at q)) i)
one_wants c d (b ∷ bs) le (inr i) (inr j) p q = one_wants c d bs (ground (arith, le)) i j p q

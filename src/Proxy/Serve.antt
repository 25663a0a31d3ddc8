-- ===== src/Proxy/Serve.antt =====
-- The opening of `Proxy::run` in crates/sleepytale/src/state.rs: `bind_public`, and the start of the
-- console reader in `console`. The system's answers to the calls on the socket are parameters.
use sleepytale.Base.{ℕ, Bool, true, false, Option, none, some, List, [], ◌∷◌, ◌==◌, if◌then◌else◌}
use sleepytale.Base.Result.{Result, ok, err}
use sleepytale.Net.{SocketAddr, v4, v6}
use sleepytale.Config.{Config}
use sleepytale.Sni.Keys.{Crypto}
use sleepytale.Runtime.{Os}
use sleepytale.Proxy.{State, wants_console}
use sleepytale.Proxy.Run.{Input, run}

pub data Domain : Type 0 where
  ipv4 ipv6 : Domain

-- The calls on the public socket, in order.
pub data SocketCall : Type 0 where
  create : Domain → SocketCall
  set_only_v6 : ℕ → Bool → SocketCall
  set_nonblocking : ℕ → SocketCall
  bind_to : ℕ → SocketAddr → SocketCall
  hand_over : ℕ → SocketCall

pub data ServeError : Type 0 where
  no_socket not_mapped blocking not_bound not_handed_over no_console : ServeError

-- `socket` gives a socket or an error; the others say whether the call succeeds.
pub record Sockets : Type 0 where
  pub socket : Domain → Option ℕ
  pub allow_mapped : ℕ → Bool
  pub unblock : ℕ → Bool
  pub bind : ℕ → SocketAddr → Bool
  pub adopt : ℕ → Bool
  pub start_console : Bool

abbrev pub domain_of : SocketAddr → Domain
domain_of (v4 ip port) = ipv4
domain_of (v6 ip port flow scope) = ipv6

-- `is_ipv6() && ip().is_unspecified()`
abbrev pub is_any_v6 : SocketAddr → Bool
is_any_v6 (v4 ip port) = false
is_any_v6 (v6 ip port flow scope) = ip == 0

module _ (sockets : Sockets) where
  -- Each call is made if those before it succeeded.
  abbrev pub then_call :
      SocketCall
      → Bool
      → ServeError
      → Result ServeError ℕ × List SocketCall
      → Result ServeError ℕ × List SocketCall
  then_call c success e (result, calls) =
      (if success then result else err e, c ∷ (if success then calls else []))

  abbrev pub bind_socket : SocketAddr → ℕ → Result ServeError ℕ × List SocketCall
  bind_socket addr s = then_call (set_nonblocking s) (sockets.unblock s) blocking (
      then_call (bind_to s addr) (sockets.bind s addr) not_bound
        (then_call (hand_over s) (sockets.adopt s) not_handed_over (ok s, [])))

  abbrev pub set_up : SocketAddr → Option ℕ → Result ServeError ℕ × List SocketCall
  set_up addr none = (err no_socket, [])
  set_up addr (some s) =
      if is_any_v6 addr
      then then_call (set_only_v6 s false) (sockets.allow_mapped s) not_mapped (bind_socket addr s)
      else bind_socket addr s

  -- The socket or an error, and the calls that were made for it.
  unfoldable pub bind_public : SocketAddr → Result ServeError ℕ × List SocketCall
  bind_public addr =
      let (result, calls) = set_up addr (sockets.socket (domain_of addr)) in
      (result, create (domain_of addr) ∷ calls)

  -- Is there a console? Its reader is started only for a backend that wants it.
  unfoldable pub console : Config → Result ServeError Bool
  unfolding wants_console
  console c =
      if wants_console c
      then (if sockets.start_console then ok true else err no_console)
      else ok false

  abbrev pub after_console :
      {B : Type 0} → State B → Result ServeError Bool → Result ServeError (State B)
  after_console s (err e) = err e
  after_console s (ok started) = ok s

  abbrev pub after_bind :
      {B : Type 0} → Config → State B → Result ServeError ℕ → Result ServeError (State B)
  after_bind c s (err e) = err e
  after_bind c s (ok socket) = after_console s (console c)

  -- `Proxy::run`, with its two ways to fail before the loop.
  unfoldable pub serve :
      {Prk B : Type 0} → Crypto Prk → Os B → Config → List Input → Result ServeError (State B)
  unfolding bind_public console
  serve crypto os c inputs = after_bind c (run crypto os c inputs) (bind_public c.listen).0

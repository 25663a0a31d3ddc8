-- ===== src/Proxy/Datagram.antt =====
-- `handle_datagram` of crates/sleepytale/src/state.rs.
use sleepytale.Base.{Bool, Option, none, some, if◌then◌else◌}
use sleepytale.Base.Bytes.{Bytes}
use sleepytale.Base.Result.{Result, ok, err}
use sleepytale.Base.Map.{lookup, insert}
use sleepytale.Net.{SocketAddr, addr_key}
use sleepytale.Config.{Routes, resolve}
use sleepytale.Knock.{is_quic_initial}
use sleepytale.Sni.{peek_server_name}
use sleepytale.Sni.Keys.{Crypto}
use sleepytale.Runtime.{Os, World}
use sleepytale.Relay.{session_backend, forward_to_backend}
use sleepytale.Proxy.{
  Lifecycle, sleeping, waking, running, ManagedBackend, State, ProxyError, not_configured, hold,
  wake,
}

module _ {B : Type 0} where
  -- `get_mut` gave the backend at `target`: this is what is stored back.
  abbrev pub store : SocketAddr → ManagedBackend B → World B → State B → State B
  store target m w s = record { world = w; backends = insert target m s.backends }

module _ {Prk B : Type 0} (crypto : Crypto Prk) (os : Os B) (routes : Routes) (console : Bool) where
  abbrev pub or_resolve : Bytes → Option SocketAddr → SocketAddr
  or_resolve datagram (some target) = target
  or_resolve datagram none = (resolve routes (peek_server_name crypto datagram)).backend

  -- A session owns its route; a new address is looked up by name.
  unfoldable pub select_target : SocketAddr → Bytes → World B → SocketAddr
  select_target client datagram w = or_resolve datagram (session_backend client w)

  -- The `match` on the lifecycle. A failed forward is logged and is no error.
  abbrev pub dispatch :
      SocketAddr → SocketAddr → Bytes → ManagedBackend B → State B → Lifecycle B → State B
  dispatch client target datagram m s (running b) = record s {
    world = (forward_to_backend os client target datagram s.world).1;
  }
  dispatch client target datagram m s sleeping =
      if is_quic_initial datagram
      then (let (m', w) = wake console client datagram m s.world in store target m' w s)
      else s
  dispatch client target datagram m s (waking task) =
      if is_quic_initial datagram then store target (hold client datagram m).0 s.world s else s

  abbrev pub on_backend :
      SocketAddr
      → SocketAddr
      → Bytes
      → State B
      → Option (ManagedBackend B)
      → Result ProxyError Unit × State B
  on_backend client target datagram s none = (err not_configured, s)
  on_backend client target datagram s (some m) =
      (ok tt, dispatch client target datagram m s m.lifecycle)

  unfoldable pub handle_datagram : SocketAddr → Bytes → State B → Result ProxyError Unit × State B
  unfolding select_target
  handle_datagram client datagram s =
      let target = select_target client datagram s.world in
      on_backend client target datagram s (lookup target s.backends)

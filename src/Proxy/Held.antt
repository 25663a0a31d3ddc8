-- ===== src/Proxy/Held.antt =====
-- Datagrams for a backend that does not run: `hold` and `handle_datagram` of
-- crates/sleepytale/src/state.rs.
use sleepytale.Base.{
  ◌≡◌, refl, Bool, true, some, [], ◌∷◌, length, arith, ite, ltb, ◌||◌, ◌&&◌, is_some, if◌then◌else◌,
}
use sleepytale.Base.Bytes.{Bytes}
use sleepytale.Base.Result.{ok}
use sleepytale.Base.Map.{Map, lookup, insert, lookup-insert}
use sleepytale.Net.{SocketAddr, addr_key, addr_eq}
use sleepytale.Config.{Routes}
use sleepytale.Knock.{is_quic_initial}
use sleepytale.Sni.Keys.{Crypto}
use sleepytale.Runtime.{Os, World, woke}
use sleepytale.Relay.{called, logged}
use sleepytale.Proxy.{Lifecycle, sleeping, waking, ManagedBackend, State, hold, wake}
use sleepytale.Proxy.Datagram.{handle_datagram, select_target}
use sleepytale.Proxy.Invariant.{IsWellFormed}

module _ {B : Type 0} where
  -- A datagram is kept exactly if its client is held already or fewer than eight clients are. Then
  -- it is what is held for its client, what is held for any other client stays, and so does all else
  -- of the backend. A datagram that is not kept changes nothing of the backend.
  pub hold_lem :
      (client other : SocketAddr) (datagram : Bytes) (m : ManagedBackend B)
      → let kept = is_some (lookup client m.held) || ltb (length m.held) 8 in
        let m' = (hold client datagram m).0 in
        ((hold client datagram m).1 ≡ kept)
        × (m' ≡ (if kept then record m { held = m'.held } else m))
        × (lookup other m'.held ≡ (
            if kept
            then ite (addr_eq client other) (some datagram) (lookup other m.held)
            else lookup other m.held))
  unfolding hold
  hold_lem client other datagram m =
      (ground arith, ground arith, ground (arith, lookup-insert client other datagram m.held))

  pub config-hold :
      (client : SocketAddr) (datagram : Bytes) (m : ManagedBackend B)
      → (hold client datagram m).0.config ≡ m.config
  unfolding hold
  config-hold client datagram m = ground arith

  pub config-wake :
      (console : Bool) (client : SocketAddr) (datagram : Bytes) (m : ManagedBackend B) (w : World B)
      → (wake console client datagram m w).0.config ≡ m.config
  unfolding wake
  config-wake console client datagram m w = config-hold client datagram _

  pub lifecycle-hold :
      (client : SocketAddr) (datagram : Bytes) (m : ManagedBackend B)
      → (hold client datagram m).0.lifecycle ≡ m.lifecycle
  unfolding hold
  lifecycle-hold client datagram m = ground arith

module _ {Prk B : Type 0} (crypto : Crypto Prk) (os : Os B) (rs : Routes) (console : Bool) where
  hold_first :
      (client : SocketAddr) (datagram : Bytes) (l : Lifecycle B) (held : Map SocketAddr Bytes)
      (m : ManagedBackend B)
      → held ≡ []
      → (hold client datagram (record m { lifecycle = l; held = held })).0
        ≡ record m { lifecycle = l; held = (client, datagram) ∷ [] }
  unfolding hold insert lookup
  hold_first client datagram l held m e = rw e refl

  -- A client Initial for a sleeping backend spawns one startup task, and is all that is then held
  -- for that backend. Nothing is sent; no session and no other backend changes.
  pub knock_wakes :
      (client : SocketAddr) (datagram : Bytes) (s : State B) (m : ManagedBackend B)
      → lookup (select_target crypto os rs console client datagram s.world) s.backends ≡ some m
      → m.lifecycle ≡ sleeping
      → IsWellFormed m
      → is_quic_initial datagram ≡ true
      → handle_datagram crypto os rs console client datagram s ≡ (
        ok tt,
        record {
          world =
              logged
                (woke s.world.calls m.config (m.config.server.forward_stdin && console))
                (called s.world);
          backends =
              insert
                (select_target crypto os rs console client datagram s.world)
                (record m { lifecycle = waking s.world.calls; held = (client, datagram) ∷ [] })
                s.backends;
        },
      )
  unfolding handle_datagram wake
  knock_wakes client datagram s m found asleep v initial =
      let empty : m.held ≡ [] = ground (arith, v.suits, asleep) in
      ground (
        arith,
        found,
        asleep,
        initial,
        hold_first client datagram (waking s.world.calls) m.held m empty,
      )

-- ===== src/Proxy/Targets.antt =====
-- The targets of `handle_datagram` of crates/sleepytale/src/state.rs.
use sleepytale.Base.{
  ◌≡◌, refl, Bool, true, Option, none, some, List, [], ◌∷◌, arith, ◌⊎◌, inl, inr, is_some,
}
use sleepytale.Base.Bytes.{Bytes, bytes_key}
use sleepytale.Base.Result.{ok}
use sleepytale.Base.Map.{Map, lookup, values, lookup-insert_sorted}
use sleepytale.Net.{SocketAddr, addr_key}
use sleepytale.Config.{BackendConfig, Config, Routes, routes, resolve, all, or_default, normalize}
use sleepytale.Sni.Keys.{Crypto}
use sleepytale.Sni.{peek_server_name}
use sleepytale.Runtime.{Os}
use sleepytale.Relay.{session_backend}
use sleepytale.Proxy.{ManagedBackend, State, start, new_backend, collect_backends, wants_console}
use sleepytale.Proxy.Datagram.{handle_datagram, on_backend, select_target, or_resolve}
use sleepytale.Proxy.Run.{Input, rounds}
use sleepytale.Proxy.Loop.{IsConsistent}
use sleepytale.Proxy.Configs.{rounds-config}
use sleepytale.Proxy.Rounds.{rounds-IsConsistent}

-- A backend stands at the address.
abbrev pub IsKnown : {B : Type 0} → SocketAddr → State B → Type 0
IsKnown a s = is_some (lookup a s.backends) ≡ true

-- The address is that of one of the backends.
abbrev pub Among : SocketAddr → List BackendConfig → Type 0
Among a [] = ⊥
Among a (b ∷ bs) = (b.backend ≡ a) ⊎ Among a bs

or_default-Among :
    (k : Bytes) (table : Map Bytes BackendConfig) (d : BackendConfig)
    → Among (or_default (lookup k table) d).backend (d ∷ values table)
unfolding lookup values
or_default-Among k [] d = inl refl
or_default-Among k ((n, b) ∷ table) d = ground (arith, or_default-Among k table d)

-- The route table resolves to a backend of the table or to the default, whatever the name.
pub resolve-Among : (r : Routes) (name : Option Bytes) → Among (resolve r name).backend (all r)
unfolding resolve all
resolve-Among r none = inl refl
resolve-Among r (some name) = or_default-Among (normalize name) r.table r.default

module _ {B : Type 0} where
  collected :
      (a : SocketAddr) (rs : List BackendConfig) (ms : Map SocketAddr (ManagedBackend B))
      → (is_some (lookup a ms) ≡ true) ⊎ Among a rs
      → is_some (lookup a (collect_backends ms rs)) ≡ true
  unfolding collect_backends
  collected a [] ms (inl h) = h
  collected a [] ms (inr h) = absurd h
  collected a (r ∷ rs) ms h =
      collected a rs _ (ground (arith, h, lookup-insert_sorted r.backend a (new_backend r) ms))

module _ {Prk B : Type 0} (crypto : Crypto Prk) (os : Os B) where
  -- Every backend of the route table stays in the map of the backends.
  pub routes-IsKnown :
      (config : Config) (a : SocketAddr) (is : List Input)
      → Among a (all (routes config))
      → IsKnown a (rounds crypto os config is (start config))
  unfolding start
  routes-IsKnown config a is h = ground (
    arith,
    rounds-config crypto os a config is (start config),
    collected {B = B} a (all (routes config)) [] (inr h),
  )

  known_ok :
      (rs : Routes) (console : Bool) (client target : SocketAddr) (datagram : Bytes) (s : State B)
      → IsKnown target s
      → (on_backend crypto os rs console client target datagram s (lookup target s.backends)).0
        ≡ ok tt
  known_ok rs console client target datagram s h = ground (arith, h)

  select-IsKnown :
      (config : Config) (client : SocketAddr) (datagram : Bytes) (s : State B)
      (o : Option SocketAddr)
      → session_backend client s.world ≡ o
      → IsConsistent s
      → ((a : SocketAddr) → Among a (all (routes config)) → IsKnown a s)
      → IsKnown (or_resolve crypto os (routes config) (wants_console config) datagram o) s
  select-IsKnown config client datagram s none e v known =
      known _ (resolve-Among (routes config) (peek_server_name crypto datagram))
  select-IsKnown config client datagram s (some target) e v known =
      ground (arith, v.pins client target e)

  -- After any events, a datagram is handled without the error for a target that is not configured.
  pub handle_datagram-ok :
      (config : Config) (is : List Input) (client : SocketAddr) (datagram : Bytes)
      → (handle_datagram crypto os
          (routes config)
          (wants_console config)
          client
          datagram
          (rounds crypto os config is (start config))).0
        ≡ ok tt
  unfolding handle_datagram select_target
  handle_datagram-ok config is client datagram =
      let s = rounds crypto os config is (start config) in
      known_ok (routes config) (wants_console config) client _ datagram s (
        select-IsKnown config client datagram s (session_backend client s.world) refl
          (rounds-IsConsistent crypto os config is) (λ a h. routes-IsKnown config a is h))

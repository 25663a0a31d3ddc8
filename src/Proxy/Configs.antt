-- ===== src/Proxy/Configs.antt =====
-- The configurations of the managed backends in crates/sleepytale/src/state.rs: those of the routes,
-- from the start on.
use sleepytale.Base.{
  ◌⊎◌, inl, inr, ℕ, ◌≡◌, ◌≢◌, refl, sym, ap, ◌∙◌, Bool, Option, none, some, List, [], ◌∷◌, All,
  arith,
}
use sleepytale.Base.Bytes.{Bytes, bytes_key}
use sleepytale.Base.Map.{
  Map, lookup, insert, insert_sorted, values, lookup-insert, lookup-insert_sorted,
}
use sleepytale.Base.Distinct.{IsDistinct}
use sleepytale.Base.Map.Values.{insert_sorted-All}
use sleepytale.Base.Result.{ok}
use sleepytale.Net.{SocketAddr, addr_key}
use sleepytale.Config.{
  BackendConfig, Config, Routes, routes, all, collect_routes, normalize, default_backend,
}
use sleepytale.Config.Validate.{validate}
use sleepytale.Config.Validate.Accepts.{backend_key, validate-ok_iff}
use sleepytale.Sni.Keys.{Crypto}
use sleepytale.Runtime.{Os, World}
use sleepytale.Proxy.{
  Lifecycle, sleeping, waking, running, ManagedBackend, State, hold, wake, start, new_backend,
  collect_backends, wants_console,
}
use sleepytale.Proxy.Datagram.{handle_datagram, dispatch, on_backend}
use sleepytale.Proxy.Tick.{tick_backends, tick, tick_backend}
use sleepytale.Proxy.Run.{Input, ticked, received, read_failed, round, rounds}
use sleepytale.Proxy.Pins.{config-tick_backend}
use sleepytale.Proxy.Held.{config-wake, config-hold}

abbrev pub config_of : {B : Type 0} → Option (ManagedBackend B) → Option BackendConfig
config_of none = none
config_of (some m) = some m.config

module _ {B : Type 0} (a : SocketAddr) where
  store-config :
      (target : SocketAddr) (m m' : ManagedBackend B) (ms : Map SocketAddr (ManagedBackend B))
      → lookup target ms ≡ some m
      → m'.config ≡ m.config
      → config_of (lookup a (insert target m' ms)) ≡ config_of (lookup a ms)
  store-config target m m' ms found same = ground (arith, found, same, lookup-insert target a m' ms)

module _ {Prk B : Type 0} (crypto : Crypto Prk) (os : Os B) (a : SocketAddr) where
  tick-config :
      (idle_timeout : ℕ) (ms : Map SocketAddr (ManagedBackend B)) (w : World B)
      → config_of (lookup a (tick_backends os idle_timeout ms w).0) ≡ config_of (lookup a ms)
  unfolding tick_backends lookup
  tick-config idle_timeout [] w = refl
  tick-config idle_timeout ((b, m) ∷ ms) w = ground (
    arith,
    config-tick_backend os idle_timeout m w,
    tick-config idle_timeout ms (tick_backend os idle_timeout m w).1,
  )

  dispatch-config :
      (rs : Routes) (console : Bool) (client target : SocketAddr) (datagram : Bytes)
      (m : ManagedBackend B) (s : State B) (l : Lifecycle B)
      → lookup target s.backends ≡ some m
      → config_of (lookup a (dispatch crypto os rs console client target datagram m s l).backends)
        ≡ config_of (lookup a s.backends)
  dispatch-config rs console client target datagram m s (running b) found = refl
  dispatch-config rs console client target datagram m s sleeping found =
      let same = config-wake console client datagram m s.world in
      let m' = (wake console client datagram m s.world).0 in
      let stored = store-config a target m m' s.backends found same in ground (arith, stored)
  dispatch-config rs console client target datagram m s (waking task) found =
      let same = config-hold client datagram m in
      let m' = (hold client datagram m).0 in
      let stored = store-config a target m m' s.backends found same in ground (arith, stored)

  on_backend-config :
      (rs : Routes) (console : Bool) (client target : SocketAddr) (datagram : Bytes) (s : State B)
      (found : Option (ManagedBackend B))
      → lookup target s.backends ≡ found
      → config_of
          (lookup a (on_backend crypto os rs console client target datagram s found).1.backends)
        ≡ config_of (lookup a s.backends)
  on_backend-config rs console client target datagram s none e = refl
  on_backend-config rs console client target datagram s (some m) e =
      dispatch-config rs console client target datagram m s m.lifecycle e

  round-config :
      (config : Config) (i : Input) (s : State B)
      → config_of (lookup a (round crypto os config i s).backends) ≡ config_of (lookup a s.backends)
  unfolding round tick handle_datagram
  round-config config ticked s = tick-config config.idle_timeout s.backends _
  round-config config (received client datagram) s =
      on_backend-config (routes config) (wants_console config) client _ datagram s _ refl
  round-config config read_failed s = refl

  -- No event changes which backends there are, nor their configurations.
  pub rounds-config :
      (config : Config) (is : List Input) (s : State B)
      → config_of (lookup a (rounds crypto os config is s).backends)
        ≡ config_of (lookup a s.backends)
  unfolding rounds
  rounds-config config [] s = refl
  rounds-config config (i ∷ is) s = rounds-config config is _ ∙ round-config config i s

-- Of these, only the configuration has its address.
abbrev Only : BackendConfig → BackendConfig → Type 0
Only c r = r.backend ≡ c.backend → r ≡ c

-- No route has the address.
abbrev Without : SocketAddr → Map Bytes BackendConfig → Type 0
Without x = All λ y. x ≢ backend_key y

Without-ne :
    (x : SocketAddr) (name : Bytes) (route : BackendConfig) (rs : Map Bytes BackendConfig)
    → Without x rs
    → lookup name rs ≡ some route
    → x ≢ route.backend
unfolding lookup
Without-ne x name route [] h e = cc
Without-ne x name route ((n, r) ∷ rs) (p, h) e =
    let rest = Without-ne x name route rs h in ground (arith, p, rest, e)

Without-Only :
    (route : BackendConfig) (rs : Map Bytes BackendConfig)
    → Without route.backend rs
    → All (Only route) (values rs)
unfolding values
Without-Only route [] h = tt
Without-Only route ((n, r) ∷ rs) (p, h) = (λ e. absurd (p (sym e)), Without-Only route rs h)

-- At the address, it is the configuration that stands there if anything does.
abbrev Has : {B : Type 0} → SocketAddr → BackendConfig → Map SocketAddr (ManagedBackend B) → Type 0
Has a c ms = (r : BackendConfig) → config_of (lookup a ms) ≡ some r → r ≡ c

module _ {B : Type 0} (c : BackendConfig) where
  collect-Has :
      (rs : List BackendConfig) (ms : Map SocketAddr (ManagedBackend B))
      → All (Only c) rs
      → Has c.backend c ms
      → Has c.backend c (collect_backends ms rs)
  unfolding collect_backends new_backend
  collect-Has [] ms only h = h
  collect-Has (r ∷ rs) ms (own, only) h =
      collect-Has rs (insert_sorted r.backend (new_backend r) ms) only λ x e.
        ground (arith, own, h x, e, lookup-insert_sorted r.backend c.backend (new_backend r) ms)

-- Filling the table keeps what holds of all its routes.
module _ (P : BackendConfig → Type 0) where
  pub collect_routes-All :
      (rs table : Map Bytes BackendConfig)
      → All P (values rs)
      → All P (values table)
      → All P (values (collect_routes table rs))
  unfolding collect_routes values
  collect_routes-All [] table h t = t
  collect_routes-All ((name, r) ∷ rs) table (p, h) t =
      collect_routes-All rs _ h (insert_sorted-All P (normalize name) r table p t)

first_or_rest :
    (name n : Bytes) (route r : BackendConfig) (rs : Map Bytes BackendConfig)
    → lookup name ((n, r) ∷ rs) ≡ some route
    → (r ≡ route) ⊎ (lookup name rs ≡ some route)
unfolding lookup
first_or_rest name n route r rs e = ground arith

distinct-Only :
    (name : Bytes) (route : BackendConfig) (rs : Map Bytes BackendConfig)
    → IsDistinct backend_key rs
    → lookup name rs ≡ some route
    → All (Only route) (values rs)
unfolding lookup values
distinct-Only name route [] d e = tt
distinct-Only name route ((n, r) ∷ rs) (p, d) e = elim (first_or_rest name n route r rs e) [
  | inl q ↦ (λ h. q, Without-Only route rs (rw q at p))
  | inr l ↦
      (λ h. absurd (Without-ne r.backend name route rs p l h), distinct-Only name route rs d l)
]

empty-Has : (B : Type 0) (c : BackendConfig) → Has {B = B} c.backend c []
unfolding lookup
empty-Has B c r e = cc

start-Has :
    (B : Type 0) (c : Config) (name : Bytes) (route : BackendConfig)
    → validate c ≡ ok tt
    → lookup name c.routes ≡ some route
    → Has route.backend route (start {B = B} c).backends
unfolding start routes all default_backend lookup
start-Has B c name route accepted has =
    let valid = (validate-ok_iff c).0 accepted in
    let other = Without-ne c.backend name route c.routes valid.6.0 has in
    let table =
      collect_routes-All (Only route) c.routes [] (distinct-Only name route c.routes valid.6.1 has)
        tt in
    collect-Has {B = B} route (all (routes c)) [] (λ e. absurd (other e), table) (empty-Has B route)

module _ {Prk B : Type 0} (crypto : Crypto Prk) (os : Os B) (config : Config) where
  -- In an accepted configuration, after any events, the backend that stands at the address of a
  -- route has the configuration of that route.
  pub route_config :
      (is : List Input) (name : Bytes) (route : BackendConfig) (b : ManagedBackend B)
      → validate config ≡ ok tt
      → lookup name config.routes ≡ some route
      → lookup route.backend (rounds crypto os config is (start config)).backends ≡ some b
      → b.config ≡ route
  route_config is name route b accepted has found =
      start-Has B config name route accepted has b.config
        (sym (rounds-config crypto os route.backend config is (start config)) ∙ ap config_of found)

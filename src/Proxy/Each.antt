-- ===== src/Proxy/Each.antt =====
-- What holds of each backend of crates/sleepytale/src/state.rs, carried through the loop.
use sleepytale.Base.{
  ℕ, ◌≡◌, refl, Bool, Option, none, some, List, [], ◌∷◌, All, inl, inr, Bool-cases, arith,
}
use sleepytale.Base.Bytes.{Bytes}
use sleepytale.Base.Map.{Map, lookup, values}
use sleepytale.Base.Map.Values.{insert-All, insert_sorted-All, lookup-All}
use sleepytale.Net.{SocketAddr, addr_key}
use sleepytale.Config.{BackendConfig, Config, Routes, routes, all}
use sleepytale.Knock.{is_quic_initial}
use sleepytale.Sni.Keys.{Crypto}
use sleepytale.Runtime.{Os, World, start_world}
use sleepytale.Relay.{forward_to_backend, reap_idle}
use sleepytale.Proxy.{
  Lifecycle, sleeping, waking, running, ManagedBackend, State, hold, wake, start, new_backend,
  collect_backends, wants_console,
}
use sleepytale.Proxy.Datagram.{handle_datagram, dispatch, on_backend, store}
use sleepytale.Proxy.Tick.{tick_backend, tick_backends, tick}
use sleepytale.Proxy.Run.{Input, ticked, received, read_failed, round, rounds}
use sleepytale.Proxy.Worlds.{tick_backend_keeps, tick_backends_keeps, reap_keeps}
use sleepytale.Proxy.Traces.{Follows, Follows-refl, follows}

-- `P` holds of a backend in its world: of a new one, after each operation on the backend, and
-- however far the world goes on without it.
pub record KeepsEach {B : Type 0} (os : Os B) (console : Bool)
    (P : World B → ManagedBackend B → Type 0) : Type 0 where
  pub on_new : (c : BackendConfig) → P start_world (new_backend c)
  pub on_world : (m : ManagedBackend B) (w w' : World B) → Follows w w' → P w m → P w' m
  pub on_tick :
      (idle_timeout : ℕ) (m : ManagedBackend B) (w : World B)
      → P w m
      → P (tick_backend os idle_timeout m w).1 (tick_backend os idle_timeout m w).0
  pub on_wake :
      (client : SocketAddr) (datagram : Bytes) (m : ManagedBackend B) (w : World B)
      → P w m
      → P (wake console client datagram m w).1 (wake console client datagram m w).0
  pub on_hold :
      (client : SocketAddr) (datagram : Bytes) (m : ManagedBackend B) (w : World B)
      → P w m
      → P w (hold client datagram m).0

module _ {B : Type 0} {os : Os B} {console : Bool} {P : World B → ManagedBackend B → Type 0}
    (k : KeepsEach os console P) where
  -- It holds of all backends of the state.
  abbrev pub Each : State B → Type 0
  Each s = All (P s.world) (values s.backends)

  world-Each :
      (ms : List (ManagedBackend B)) (w w' : World B) → Follows w w' → All (P w) ms → All (P w') ms
  world-Each [] w w' f h = tt
  world-Each (m ∷ ms) w w' f (h, hs) = (k.on_world m w w' f h, world-Each ms w w' f hs)

  tick_backends-Each :
      (idle_timeout : ℕ) (ms : Map SocketAddr (ManagedBackend B)) (w : World B)
      → All (P w) (values ms)
      → All
          (P (tick_backends os idle_timeout ms w).1)
          (values (tick_backends os idle_timeout ms w).0)
  unfolding tick_backends values
  tick_backends-Each idle_timeout [] w h = tt
  tick_backends-Each idle_timeout ((a, m) ∷ ms) w (h, hs) =
      let (m', w') = tick_backend os idle_timeout m w in
      let (ms', w'') = tick_backends os idle_timeout ms w' in
      let first = tick_backend_keeps (follows os w) idle_timeout m w (Follows-refl w) in
      let rest = tick_backends_keeps (follows os w') idle_timeout ms w' (Follows-refl w') in
      (
        k.on_world m' w' w'' rest (k.on_tick idle_timeout m w h),
        tick_backends-Each idle_timeout ms w' (world-Each (values ms) w w' first hs),
      )

  pub tick-Each :
      (idle_timeout session_timeout : ℕ) (s : State B)
      → Each s
      → Each (tick os idle_timeout session_timeout s)
  unfolding tick
  tick-Each idle_timeout session_timeout s h =
      let w = s.world in
      let w' = (reap_idle os session_timeout w).1 in
      let reaped = reap_keeps (follows os w) session_timeout w (Follows-refl w) in
      tick_backends-Each idle_timeout s.backends w' (world-Each (values s.backends) w w' reaped h)

  store-Each :
      (target : SocketAddr) (m : ManagedBackend B) (w : World B) (s : State B)
      → Follows s.world w
      → P w m
      → Each s
      → Each (store target m w s)
  store-Each target m w s f here h =
      insert-All (P w) target m s.backends here (world-Each (values s.backends) s.world w f h)

  module _ {Prk : Type 0} (crypto : Crypto Prk) where
    dispatch-Each :
        (rs : Routes) (client target : SocketAddr) (datagram : Bytes) (m : ManagedBackend B)
        (s : State B) (l : Lifecycle B)
        → P s.world m
        → Each s
        → Each (dispatch crypto os rs console client target datagram m s l)
    unfolding wake
    dispatch-Each rs client target datagram m s (running b) here h =
        let w = s.world in
        let sent = (follows os w).on_forward client target datagram w (Follows-refl w) in
        world-Each (values s.backends) w (forward_to_backend os client target datagram w).1 sent h
    dispatch-Each rs client target datagram m s sleeping here h =
        let (m', w) = wake console client datagram m s.world in
        let woken = k.on_wake client datagram m s.world here in
        let stored = store-Each target m' w s (omega arith, λ e p. inr p) woken h in
        elim (Bool-cases (is_quic_initial datagram)) [ inl e ↦ rw e stored | inr e ↦ rw e h ]
    dispatch-Each rs client target datagram m s (waking task) here h =
        let m' = (hold client datagram m).0 in
        let kept = k.on_hold client datagram m s.world here in
        let stored = store-Each target m' s.world s (Follows-refl s.world) kept h in
        elim (Bool-cases (is_quic_initial datagram)) [ inl e ↦ rw e stored | inr e ↦ rw e h ]

    on_backend-Each :
        (rs : Routes) (client target : SocketAddr) (datagram : Bytes) (s : State B)
        (o : Option (ManagedBackend B))
        → lookup target s.backends ≡ o
        → Each s
        → Each (on_backend crypto os rs console client target datagram s o).1
    on_backend-Each rs client target datagram s none e h = h
    on_backend-Each rs client target datagram s (some m) e h =
        dispatch-Each rs client target datagram m s m.lifecycle
          (lookup-All (P s.world) target m s.backends e h) h

    pub handle_datagram-Each :
        (rs : Routes) (client : SocketAddr) (datagram : Bytes) (s : State B)
        → Each s
        → Each (handle_datagram crypto os rs console client datagram s).1
    unfolding handle_datagram
    handle_datagram-Each rs client datagram s h = on_backend-Each rs client _ datagram s _ refl h

  collect_backends-Each :
      (rs : List BackendConfig) (ms : Map SocketAddr (ManagedBackend B))
      → All (P start_world) (values ms)
      → All (P start_world) (values (collect_backends ms rs))
  unfolding collect_backends
  collect_backends-Each [] ms h = h
  collect_backends-Each (r ∷ rs) ms h =
      collect_backends-Each rs _
        (insert_sorted-All (P start_world) r.backend (new_backend r) ms (k.on_new r) h)

  pub start-Each : (c : Config) → Each (start c)
  unfolding start values
  start-Each c = collect_backends-Each (all (routes c)) [] tt

module _ {Prk B : Type 0} (crypto : Crypto Prk) {os : Os B} (config : Config)
    {P : World B → ManagedBackend B → Type 0} (k : KeepsEach os (wants_console config) P) where
  round-Each : (i : Input) (s : State B) → Each k s → Each k (round crypto os config i s)
  unfolding round
  round-Each ticked s h = tick-Each k config.idle_timeout config.session_timeout s h
  round-Each (received client datagram) s h =
      handle_datagram-Each k crypto (routes config) client datagram s h
  round-Each read_failed s h = h

  pub rounds_keep :
      (is : List Input) (s : State B) → Each k s → Each k (rounds crypto os config is s)
  unfolding rounds
  rounds_keep [] s h = h
  rounds_keep (i ∷ is) s h = rounds_keep is _ (round-Each i s h)

  -- It holds, after any events, of whatever backend stands at an address.
  pub rounds-Each :
      (is : List Input) (a : SocketAddr) (m : ManagedBackend B)
      → lookup a (rounds crypto os config is (start config)).backends ≡ some m
      → P (rounds crypto os config is (start config)).world m
  rounds-Each is a m found =
      lookup-All (P _) a m _ found (rounds_keep is (start config) (start-Each k config))

-- ===== src/Proxy/Lending.antt =====
-- The console over a run of crates/sleepytale/src/state.rs.
use sleepytale.Base.{
  ℕ, ◌≤◌, ◌≡◌, refl, sym, ap, ◌∙◌, inl, inr, Bool, true, Option, none, some, List, [], ◌∷◌, All,
  arith, ◌&&◌, Bool-cases,
}
use sleepytale.Base.Bytes.{Bytes, bytes_key}
use sleepytale.Base.Map.{Map, lookup, values}
use sleepytale.Base.Map.Values.{insert_sorted-All, lookup-All}
use sleepytale.Base.Result.{ok}
use sleepytale.Net.{SocketAddr, addr_key}
use sleepytale.Config.{BackendConfig, Config, Routes, routes, all, default_backend}
use sleepytale.Config.Validate.{validate, interactive, count_consoles}
use sleepytale.Config.Validate.Accepts.{validate-ok_iff}
use sleepytale.Knock.{is_quic_initial}
use sleepytale.Sni.Keys.{Crypto}
use sleepytale.Runtime.{Os, World, woke}
use sleepytale.Proxy.{
  Lifecycle, sleeping, waking, running, ManagedBackend, State, wake, start, new_backend,
  collect_backends, wants_console,
}
use sleepytale.Proxy.Datagram.{handle_datagram, dispatch, on_backend}
use sleepytale.Proxy.Run.{Input, ticked, received, read_failed, round, rounds}
use sleepytale.Proxy.Worlds.{tick_keeps}
use sleepytale.Proxy.Traces.{IsLogged}
use sleepytale.Proxy.Configs.{config_of, rounds-config, collect_routes-All}
use sleepytale.Proxy.Consoles.{IsOne, LendsTo, lends, LendsTo-lem, one_wants}

module _ {Prk B : Type 0} (crypto : Crypto Prk) (os : Os B) (console : Bool)
    (cs : List BackendConfig) where
  woken-LendsTo :
      (c : BackendConfig) (task : ℕ) (w : World B)
      → IsOne c cs
      → LendsTo {B = B} cs w.trace
      → LendsTo {B = B} cs (woke task c (c.server.forward_stdin && console) ∷ w.trace)
  woken-LendsTo c task w i h = elim (Bool-cases (c.server.forward_stdin && console)) [
    | inl e ↦ rw e ((ground (arith, e), i), h)
    | inr e ↦ rw e h
  ]

  dispatch-LendsTo :
      (rs : Routes) (client target : SocketAddr) (datagram : Bytes) (m : ManagedBackend B)
      (s : State B) (l : Lifecycle B)
      → IsOne m.config cs
      → LendsTo {B = B} cs s.world.trace
      → LendsTo cs (dispatch crypto os rs console client target datagram m s l).world.trace
  unfolding wake
  dispatch-LendsTo rs client target datagram m s (running b) i h =
      (lends cs os).on_forward client target datagram s.world h
  dispatch-LendsTo rs client target datagram m s sleeping i h =
      elim (Bool-cases (is_quic_initial datagram)) [
        | inl e ↦ rw e (woken-LendsTo m.config s.world.calls s.world i h)
        | inr e ↦ rw e h
      ]
  dispatch-LendsTo rs client target datagram m s (waking task) i h =
      elim (Bool-cases (is_quic_initial datagram)) [ inl e ↦ rw e h | inr e ↦ rw e h ]

  on_backend-LendsTo :
      (rs : Routes) (client target : SocketAddr) (datagram : Bytes) (s : State B)
      (o : Option (ManagedBackend B))
      → ((m : ManagedBackend B) → o ≡ some m → IsOne m.config cs)
      → LendsTo {B = B} cs s.world.trace
      → LendsTo cs (on_backend crypto os rs console client target datagram s o).1.world.trace
  on_backend-LendsTo rs client target datagram s none i h = h
  on_backend-LendsTo rs client target datagram s (some m) i h =
      dispatch-LendsTo rs client target datagram m s m.lifecycle (i m refl) h

module _ {B : Type 0} (cs : List BackendConfig) where
  -- The managed backends have these configurations.
  abbrev AreOf : Map SocketAddr (ManagedBackend B) → Type 0
  AreOf ms = All (λ m. IsOne m.config cs) (values ms)

  collect_backends-AreOf :
      (rs : List BackendConfig) (ms : Map SocketAddr (ManagedBackend B))
      → All (λ c. IsOne c cs) rs
      → AreOf ms
      → AreOf (collect_backends ms rs)
  unfolding collect_backends new_backend
  collect_backends-AreOf [] ms i h = h
  collect_backends-AreOf (r ∷ rs) ms (here, i) h =
      collect_backends-AreOf rs _ i
        (insert_sorted-All (λ m. IsOne m.config cs) r.backend (new_backend r) ms here h)

All-IsOne-cons :
    (c : BackendConfig) (cs bs : List BackendConfig)
    → All (λ b. IsOne b cs) bs
    → All (λ b. IsOne b (c ∷ cs)) bs
All-IsOne-cons c cs [] h = tt
All-IsOne-cons c cs (b ∷ bs) (i, h) = (inr i, All-IsOne-cons c cs bs h)

each-IsOne : (cs : List BackendConfig) → All (λ c. IsOne c cs) cs
each-IsOne [] = tt
each-IsOne (c ∷ cs) = (inl refl, All-IsOne-cons c cs cs (each-IsOne cs))

-- The default backend and the routes as they are written.
abbrev written : Config → List BackendConfig
written c = default_backend c ∷ values c.routes

routes-written : (c : Config) → All (λ b. IsOne b (written c)) (all (routes c))
unfolding all routes values
routes-written c =
    let (default, rest) = each-IsOne (written c) in
    (default, collect_routes-All (λ b. IsOne b (written c)) c.routes [] rest tt)

abbrev config_or : BackendConfig → Option BackendConfig → BackendConfig
config_or d none = d
config_or d (some c) = c

some_IsOne : (b c : BackendConfig) (cs : List BackendConfig) → b ≡ c → IsOne b cs → IsOne c cs
some_IsOne b c [] e i = absurd i
some_IsOne b c (d ∷ cs) e (inl same) = inl (same ∙ e)
some_IsOne b c (d ∷ cs) e (inr i) = inr (some_IsOne b c cs e i)

-- The backends of the state have configurations of these.
abbrev HasOnly : {B : Type 0} → List BackendConfig → State B → Type 0
HasOnly {B} cs s =
    (a : SocketAddr) (m : ManagedBackend B) → lookup a s.backends ≡ some m → IsOne m.config cs

module _ {B : Type 0} (config : Config) where
  start-HasOnly : HasOnly {B = B} (written config) (start config)
  unfolding start values
  start-HasOnly a m e =
      lookup-All (λ n. IsOne n.config (written config)) a m _ e
        (collect_backends-AreOf (written config) (all (routes config)) [] (routes-written config)
          tt)

  of_config :
      (cs : List BackendConfig) (o : Option (ManagedBackend B)) (m : ManagedBackend B)
      → config_of o ≡ some m.config
      → ((n : ManagedBackend B) → o ≡ some n → IsOne n.config cs)
      → IsOne m.config cs
  of_config cs none m e h = cc
  of_config cs (some n) m e h =
      some_IsOne n.config m.config cs (ap (config_or n.config) e) (h n refl)

module _ {Prk B : Type 0} (crypto : Crypto Prk) (os : Os B) (config : Config)
    (cs : List BackendConfig) where
  round-HasOnly : (i : Input) (s : State B) → HasOnly cs s → HasOnly cs (round crypto os config i s)
  unfolding rounds
  round-HasOnly i s h a m e =
      of_config config cs (lookup a s.backends) m
        (sym (rounds-config crypto os a config (i ∷ []) s) ∙ ap config_of e) (h a)

  round-LendsTo :
      (i : Input) (s : State B)
      → HasOnly cs s
      → LendsTo {B = B} cs s.world.trace
      → LendsTo cs (round crypto os config i s).world.trace
  unfolding round handle_datagram
  round-LendsTo ticked s only h =
      tick_keeps (lends cs os) config.idle_timeout config.session_timeout s h
  round-LendsTo (received client datagram) s only h =
      on_backend-LendsTo crypto os (wants_console config) cs (routes config) client _ datagram s _
        (only _) h
  round-LendsTo read_failed s only h = h

  rounds-LendsTo :
      (is : List Input) (s : State B)
      → HasOnly cs s
      → LendsTo {B = B} cs s.world.trace
      → LendsTo cs (rounds crypto os config is s).world.trace
  unfolding rounds
  rounds-LendsTo [] s only h = h
  rounds-LendsTo (i ∷ is) s only h =
      rounds-LendsTo is (round crypto os config i s) (round-HasOnly i s only)
        (round-LendsTo i s only h)

start-LendsTo :
    (B : Type 0) (config : Config) (cs : List BackendConfig)
    → LendsTo {B = B} cs (start config).world.trace
unfolding start
start-LendsTo B config cs = tt

written-count : (config : Config) → validate config ≡ ok tt → count_consoles (written config) ≤ 1
unfolding interactive count_consoles values default_backend
written-count config accepted = ((validate-ok_iff config).0 accepted).7

module _ {Prk B : Type 0} (crypto : Crypto Prk) (os : Os B) (config : Config) where
  -- In an accepted configuration, after any events, the startup tasks that have been spawned with
  -- the console are all for one configuration, and that is one which asks for it.
  pub one_console :
      (is : List Input) (task other : ℕ) (c d : BackendConfig)
      → let trace = (rounds crypto os config is (start config)).world.trace in
        validate config ≡ ok tt
        → IsLogged (woke task c true) trace
        → IsLogged (woke other d true) trace
        → (c ≡ d) × (c.server.forward_stdin ≡ true)
  one_console is task other c d accepted first second =
      let lent =
        rounds-LendsTo crypto os config (written config) is (start config) (start-HasOnly config)
          (start-LendsTo B config (written config)) in
      let (c_wants, one) = LendsTo-lem (written config) task c _ lent first in
      let (d_wants, another) = LendsTo-lem (written config) other d _ lent second in
      (
        one_wants c d (written config) (written-count config accepted) one another c_wants d_wants,
        c_wants,
      )

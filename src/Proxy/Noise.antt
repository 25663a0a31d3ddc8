-- ===== src/Proxy/Noise.antt =====
-- Datagrams that are no knock, over a run of crates/sleepytale/src/state.rs.
use sleepytale.Base.{
  ℕ, Bool, ◌≡◌, refl, ap, ◌∙◌, false, List, [], ◌∷◌, All, arith, Option-cases, inl, inr,
}
use sleepytale.Base.Bytes.{Bytes, bytes_key}
use sleepytale.Base.Map.{Map, lookup, retain, values}
use sleepytale.Base.Map.Values.{insert_sorted-All, lookup-All}
use sleepytale.Net.{SocketAddr, addr_key}
use sleepytale.Config.{BackendConfig, Config, Routes, routes, all}
use sleepytale.Knock.{is_quic_initial}
use sleepytale.Sni.Keys.{Crypto}
use sleepytale.Runtime.{Os, World}
use sleepytale.Relay.{reap_idle, close_sessions, aborts}
use sleepytale.Proxy.{
  sleeping, ManagedBackend, State, start, new_backend, collect_backends, wants_console,
}
use sleepytale.Proxy.Datagram.{handle_datagram, select_target}
use sleepytale.Proxy.Tick.{
  settle, settle_at, supervise, supervise_at, tick_backend, tick_backends, tick,
}
use sleepytale.Proxy.Run.{Input, ticked, received, read_failed, round, rounds}

-- It is no client Initial that has been received.
abbrev pub IsNoise : Input → Type 0
IsNoise ticked = Unit
IsNoise (received client datagram) = is_quic_initial datagram ≡ false
IsNoise read_failed = Unit

module _ {B : Type 0} where
  abbrev IsAsleep : ManagedBackend B → Type 0
  IsAsleep m = m.lifecycle ≡ sleeping

  -- These backends, all asleep, with no session; and nothing has been done.
  pub record IsUntouched (ms : Map SocketAddr (ManagedBackend B)) (s : State B) : Type 0 where
    pub same : s.backends ≡ ms
    pub asleep : All IsAsleep (values ms)
    pub alone : s.world.sessions ≡ []
    pub silent : s.world.trace ≡ []

  collect_asleep :
      (rs : List BackendConfig) (ms : Map SocketAddr (ManagedBackend B))
      → All IsAsleep (values ms)
      → All IsAsleep (values (collect_backends ms rs))
  unfolding collect_backends new_backend
  collect_asleep [] ms h = h
  collect_asleep (r ∷ rs) ms h =
      collect_asleep rs _ (insert_sorted-All IsAsleep r.backend (new_backend r) ms refl h)

  start-IsUntouched : (config : Config) → IsUntouched (start {B = B} config).backends (start config)
  unfolding start values
  start-IsUntouched config = record {
    same = refl;
    asleep = collect_asleep (all (routes config)) [] tt;
    alone = refl;
    silent = refl;
  }

module _ {B : Type 0} (os : Os B) where
  settle_asleep :
      (m : ManagedBackend B) (w : World B) → m.lifecycle ≡ sleeping → settle os m w ≡ (m, w)
  unfolding settle
  settle_asleep m w e = ap (settle_at os m w) e

  tick_backend_asleep :
      (idle_timeout : ℕ) (m : ManagedBackend B) (w : World B)
      → m.lifecycle ≡ sleeping
      → tick_backend os idle_timeout m w ≡ (m, w)
  unfolding tick_backend supervise
  tick_backend_asleep idle_timeout m w e =
      ap (λ r. supervise os idle_timeout r.0 r.1) (settle_asleep m w e)
      ∙ ap (supervise_at os idle_timeout m w) e

  tick_backends_asleep :
      (idle_timeout : ℕ) (ms : Map SocketAddr (ManagedBackend B)) (w : World B)
      → All IsAsleep (values ms)
      → tick_backends os idle_timeout ms w ≡ (ms, w)
  unfolding tick_backends values
  tick_backends_asleep idle_timeout [] w h = refl
  tick_backends_asleep idle_timeout ((a, m) ∷ ms) w (e, h) =
      rw (tick_backend_asleep idle_timeout m w e, tick_backends_asleep idle_timeout ms w h) refl

  reap_none :
      (session_timeout : ℕ) (w : World B)
      → w.sessions ≡ []
      → let w' = (reap_idle os session_timeout w).1 in (w'.sessions ≡ []) × (w'.trace ≡ w.trace)
  unfolding reap_idle close_sessions retain aborts
  reap_none session_timeout w e = (rw e refl, rw e refl)

  tick-IsUntouched :
      (idle_timeout session_timeout : ℕ) (ms : Map SocketAddr (ManagedBackend B)) (s : State B)
      → IsUntouched ms s
      → IsUntouched ms (tick os idle_timeout session_timeout s)
  unfolding tick
  tick-IsUntouched idle_timeout session_timeout ms s v =
      let w = (reap_idle os session_timeout s.world).1 in
      let (alone, silent) = reap_none session_timeout s.world v.alone in
      let still : tick_backends os idle_timeout s.backends w ≡ (ms, w) =
        ap (λ n. tick_backends os idle_timeout n w) v.same
        ∙ tick_backends_asleep idle_timeout ms w v.asleep in
      record {
        same = ap (λ r. r.0) still;
        asleep = v.asleep;
        alone = ap (λ r. r.1.sessions) still ∙ alone;
        silent = ap (λ r. r.1.trace) still ∙ (silent ∙ v.silent);
      }

module _ {Prk B : Type 0} (crypto : Crypto Prk) (os : Os B) where
  noise_ignored :
      (rs : Routes) (console : Bool) (client : SocketAddr) (datagram : Bytes)
      (ms : Map SocketAddr (ManagedBackend B)) (s : State B)
      → IsUntouched ms s
      → is_quic_initial datagram ≡ false
      → (handle_datagram crypto os rs console client datagram s).1 ≡ s
  unfolding handle_datagram
  noise_ignored rs console client datagram ms s v noise =
      let target = select_target crypto os rs console client datagram s.world in
      elim (Option-cases (lookup target s.backends)) [
        | inl e ↦ rw e refl
        | inr (m, e) ↦
            let asleep = lookup-All IsAsleep target m ms (rw v.same at e) v.asleep in
            ground (arith, e, asleep, noise)
      ]

  round-IsUntouched :
      (config : Config) (i : Input) (ms : Map SocketAddr (ManagedBackend B)) (s : State B)
      → IsNoise i
      → IsUntouched ms s
      → IsUntouched ms (round crypto os config i s)
  unfolding round
  round-IsUntouched config ticked ms s n v =
      tick-IsUntouched os config.idle_timeout config.session_timeout ms s v
  round-IsUntouched config (received client datagram) ms s n v =
      rw (noise_ignored (routes config) (wants_console config) client datagram ms s v n) v
  round-IsUntouched config read_failed ms s n v = v

  rounds-IsUntouched :
      (config : Config) (is : List Input) (ms : Map SocketAddr (ManagedBackend B)) (s : State B)
      → All IsNoise is
      → IsUntouched ms s
      → IsUntouched ms (rounds crypto os config is s)
  unfolding rounds
  rounds-IsUntouched config [] ms s n v = v
  rounds-IsUntouched config (i ∷ is) ms s (n, rest) v =
      rounds-IsUntouched config is ms _ rest (round-IsUntouched config i ms s n v)

  -- After any events among which no client Initial was received, the backends are as they were at
  -- the start, there is no session, and the trace is empty: no startup task was spawned, no socket
  -- opened and no datagram offered.
  pub noise_wakes_nobody :
      (config : Config) (is : List Input)
      → All IsNoise is
      → let s = rounds crypto os config is (start config) in
        (s.backends ≡ (start config).backends) × (s.world.sessions ≡ []) × (s.world.trace ≡ [])
  noise_wakes_nobody config is n =
      let v = rounds-IsUntouched config is _ (start config) n (start-IsUntouched config) in
      (v.same, v.alone, v.silent)

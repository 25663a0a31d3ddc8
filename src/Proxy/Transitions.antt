-- ===== src/Proxy/Transitions.antt =====
-- The lifecycle of a backend of crates/sleepytale/src/state.rs as a state machine.
use sleepytale.Base.{
  ℕ, ◌≡◌, refl, sym, ap, ◌∙◌, ◌⊎◌, inl, inr, Bool, true, false, Option, none, some, List, [], ◌∷◌,
  arith, Bool-cases,
}
use sleepytale.Base.Bytes.{Bytes}
use sleepytale.Base.Map.{Map, lookup, lookup-insert}
use sleepytale.Net.{SocketAddr, addr_key, addr_eq}
use sleepytale.Config.{Config, Routes, routes}
use sleepytale.Knock.{is_quic_initial}
use sleepytale.Sni.Keys.{Crypto}
use sleepytale.Runtime.{Os, World, Wake, ready, start_failed, task_failed}
use sleepytale.Relay.{called, reap_idle}
use sleepytale.Proxy.{
  Lifecycle, sleeping, waking, running, ManagedBackend, State, hold, wake, start, wants_console,
}
use sleepytale.Proxy.Datagram.{handle_datagram, dispatch, on_backend, store}
use sleepytale.Proxy.Tick.{
  make_ready, awaited, settle, settle_at, idle_check, after_exit_check, supervise, supervise_at,
  tick_backend, tick,
}
use sleepytale.Proxy.Run.{Input, ticked, received, read_failed, round, rounds}
use sleepytale.Proxy.Worlds.{reap_keeps}
use sleepytale.Proxy.Reachable.{IsSound, sound}
use sleepytale.Proxy.Rounds.{rounds-IsConsistent}
use sleepytale.Proxy.Held.{lifecycle-hold}
use sleepytale.Proxy.Visits.{Others, visit}

abbrev lifecycle_or : {B : Type 0} → Option (ManagedBackend B) → Lifecycle B
lifecycle_or none = sleeping
lifecycle_or (some m) = m.lifecycle

module _ {B : Type 0} (os : Os B) where
  -- What may happen to a backend in a round: a client Initial wakes it; a tick finds that its task
  -- has come up or has failed, that it has exited, or that it has been idle for the timeout.
  pub data Move (i : Input) : Lifecycle B → Lifecycle B → Type 0 where
    wakes :
        (client : SocketAddr) (knock : Bytes) (task : ℕ)
        → i ≡ received client knock
        → is_quic_initial knock ≡ true
        → Move i sleeping (waking task)
    boots :
        (n task : ℕ) (b : B)
        → i ≡ ticked
        → os.finished n task ≡ some (ready b)
        → Move i (waking task) (running b)
    fails :
        (n task : ℕ)
        → i ≡ ticked
        → (os.finished n task ≡ some start_failed) ⊎ (os.finished n task ≡ some task_failed)
        → Move i (waking task) sleeping
    exits :
        (n : ℕ) (b : B) → i ≡ ticked → os.has_exited n b ≡ some true → Move i (running b) sleeping
    retires :
        (n : ℕ) (b : B) → i ≡ ticked → os.has_exited n b ≡ some false → Move i (running b) sleeping

  -- Some of these, one after the other.
  pub data Moves (i : Input) (l : Lifecycle B) : Lifecycle B → Type 0 where
    here : Moves i l l
    then_by : {k n : Lifecycle B} → Moves i l k → Move i k n → Moves i l n

  awaited-Moves :
      (n task : ℕ) (m : ManagedBackend B) (w : World B) (o : Option (Wake B))
      → m.lifecycle ≡ waking task
      → os.finished n task ≡ o
      → Moves ticked m.lifecycle (awaited os m w o).0.lifecycle
  unfolding make_ready
  awaited-Moves n task m w none e f = here
  awaited-Moves n task m w (some (ready b)) e f = rw e (then_by here (boots n task b refl f))
  awaited-Moves n task m w (some start_failed) e f = rw e (then_by here (fails n task refl (inl f)))
  awaited-Moves n task m w (some task_failed) e f = rw e (then_by here (fails n task refl (inr f)))

  settle_at-Moves :
      (m : ManagedBackend B) (w : World B) (l : Lifecycle B)
      → m.lifecycle ≡ l
      → Moves ticked m.lifecycle (settle_at os m w l).0.lifecycle
  settle_at-Moves m w sleeping e = here
  settle_at-Moves m w (waking task) e = awaited-Moves w.calls task m (called w) _ e refl
  settle_at-Moves m w (running b) e = here

  idle_check_quiets :
      (idle_timeout : ℕ) (b : B) (m : ManagedBackend B) (w : World B)
      → let l = (idle_check os idle_timeout b m w).0.lifecycle in (l ≡ m.lifecycle) ⊎ (l ≡ sleeping)
  unfolding idle_check
  idle_check_quiets idle_timeout b m w = ground arith

  after_exit_check-Moves :
      (idle_timeout n : ℕ) (b : B) (m : ManagedBackend B) (w : World B) (o : Option Bool)
      → m.lifecycle ≡ running b
      → os.has_exited n b ≡ o
      → Moves ticked m.lifecycle (after_exit_check os idle_timeout b m w o).0.lifecycle
  after_exit_check-Moves idle_timeout n b m w none e h = here
  after_exit_check-Moves idle_timeout n b m w (some true) e h =
      rw e (then_by here (exits n b refl h))
  after_exit_check-Moves idle_timeout n b m w (some false) e h =
      elim (idle_check_quiets idle_timeout b m w) [
        | inl same ↦ rw same here
        | inr asleep ↦ rw (asleep, e) (then_by here (retires n b refl h))
      ]

  supervise_at-Moves :
      (idle_timeout : ℕ) (m : ManagedBackend B) (w : World B) (l : Lifecycle B)
      → m.lifecycle ≡ l
      → Moves ticked m.lifecycle (supervise_at os idle_timeout m w l).0.lifecycle
  supervise_at-Moves idle_timeout m w sleeping e = here
  supervise_at-Moves idle_timeout m w (waking task) e = here
  supervise_at-Moves idle_timeout m w (running b) e =
      after_exit_check-Moves idle_timeout w.calls b m (called w) _ e refl

  Moves-trans : {i : Input} {j k l : Lifecycle B} → Moves i j k → Moves i k l → Moves i j l
  Moves-trans r here = r
  Moves-trans r (then_by q step) = then_by (Moves-trans r q) step

  tick_backend-Moves :
      (idle_timeout : ℕ) (m : ManagedBackend B) (w : World B)
      → Moves ticked m.lifecycle (tick_backend os idle_timeout m w).0.lifecycle
  unfolding tick_backend settle supervise
  tick_backend-Moves idle_timeout m w =
      let (m', w') = settle_at os m w m.lifecycle in
      Moves-trans (settle_at-Moves m w m.lifecycle refl)
        (supervise_at-Moves idle_timeout m' w' m'.lifecycle refl)

  -- The backend at the address afterwards is the one before, after some moves.
  abbrev pub Follow : Input → SocketAddr → State B → State B → Type 0
  Follow i a s s' =
      (m m' : ManagedBackend B)
      → lookup a s.backends ≡ some m
      → lookup a s'.backends ≡ some m'
      → Moves i m.lifecycle m'.lifecycle

  some_lifecycle :
      {i : Input} (l : Lifecycle B) (m m' : ManagedBackend B)
      → some m ≡ some m'
      → Moves i l m.lifecycle
      → Moves i l m'.lifecycle
  some_lifecycle l m m' e r = rw (ap lifecycle_or e) at r

  everyone :
      (idle_timeout : ℕ) (a : SocketAddr) (ms : Map SocketAddr (ManagedBackend B))
      → Others os idle_timeout (λ w. Unit {0}) (λ n. Unit {0}) a ms
  everyone idle_timeout a [] = tt
  everyone idle_timeout a (e ∷ ms) = (inr tt, everyone idle_timeout a ms)

  some_start :
      {i : Input} (m m' : ManagedBackend B) (l : Lifecycle B)
      → some m ≡ some m'
      → Moves i m.lifecycle l
      → Moves i m'.lifecycle l
  some_start m m' l e r = rw (ap lifecycle_or e) at r

  tick-Follow :
      (idle_timeout session_timeout : ℕ) (a : SocketAddr) (s : State B)
      → IsSound s.world
      → Follow ticked a s (tick os idle_timeout session_timeout s)
  unfolding tick
  tick-Follow idle_timeout session_timeout a s v m m' e e' =
      let w = (reap_idle os session_timeout s.world).1 in
      let (u, _, _, _, stands, _) =
        visit os idle_timeout (λ w. Unit {0}) (λ n. Unit {0}) a m s.backends w (λ n x v q h. tt) e
          (reap_keeps (sound os) session_timeout s.world v) (everyone idle_timeout a s.backends)
          tt in
      some_lifecycle m.lifecycle _ m' (sym stands ∙ e') (tick_backend-Moves idle_timeout m u)

  same-Follow : (i : Input) (a : SocketAddr) (s : State B) → Follow i a s s
  same-Follow i a s m m' e e' = some_lifecycle m.lifecycle m m' (sym e ∙ e') here

  store-Follow :
      (i : Input) (a target : SocketAddr) (n n' : ManagedBackend B) (w : World B) (s : State B)
      → lookup target s.backends ≡ some n
      → Moves i n.lifecycle n'.lifecycle
      → Follow i a s (store target n' w s)
  store-Follow i a target n n' w s found moves m m' e e' = elim (addr_eq target a) [
    | yes same ↦
        some_lifecycle m.lifecycle n' m'
          (ground (arith, same, e', lookup-insert target a n' s.backends))
          (some_start n m n'.lifecycle (ground (arith, same, found, e)) moves)
    | no other ↦
        some_lifecycle m.lifecycle m m'
          (ground (arith, other, e, e', lookup-insert target a n' s.backends)) here
  ]

module _ {Prk B : Type 0} (crypto : Crypto Prk) (os : Os B) where
  dispatch-Follow :
      (rs : Routes) (console : Bool) (a client target : SocketAddr) (knock : Bytes)
      (n : ManagedBackend B) (s : State B) (l : Lifecycle B)
      → lookup target s.backends ≡ some n
      → n.lifecycle ≡ l
      → Follow os
          (received client knock)
          a
          s
          (dispatch crypto os rs console client target knock n s l)
  unfolding wake
  dispatch-Follow rs console a client target knock n s (running b) found e =
      same-Follow os (received client knock) a s
  dispatch-Follow rs console a client target knock n s sleeping found e =
      elim (Bool-cases (is_quic_initial knock)) [
        | inl initial ↦
            let (n', w) = wake console client knock n s.world in
            let woken : n'.lifecycle ≡ waking s.world.calls = lifecycle-hold client knock _ in
            let moves : Moves os (received client knock) n.lifecycle n'.lifecycle =
              rw (e, woken) (then_by here (wakes client knock s.world.calls refl initial)) in
            rw initial (store-Follow os (received client knock) a target n n' w s found moves)
        | inr other ↦ rw other (same-Follow os (received client knock) a s)
      ]
  dispatch-Follow rs console a client target knock n s (waking task) found e =
      elim (Bool-cases (is_quic_initial knock)) [
        | inl initial ↦
            let n' = (hold client knock n).0 in
            let moves : Moves os (received client knock) n.lifecycle n'.lifecycle =
              rw (lifecycle-hold client knock n) here in
            rw initial (store-Follow os (received client knock) a target n n' s.world s found moves)
        | inr other ↦ rw other (same-Follow os (received client knock) a s)
      ]

  on_backend-Follow :
      (rs : Routes) (console : Bool) (a client target : SocketAddr) (knock : Bytes) (s : State B)
      (o : Option (ManagedBackend B))
      → lookup target s.backends ≡ o
      → Follow os
          (received client knock)
          a
          s
          (on_backend crypto os rs console client target knock s o).1
  on_backend-Follow rs console a client target knock s none e =
      same-Follow os (received client knock) a s
  on_backend-Follow rs console a client target knock s (some n) e =
      dispatch-Follow rs console a client target knock n s n.lifecycle e refl

  round-Follow :
      (config : Config) (i : Input) (a : SocketAddr) (s : State B)
      → IsSound s.world
      → Follow os i a s (round crypto os config i s)
  unfolding round handle_datagram
  round-Follow config ticked a s v = tick-Follow os config.idle_timeout config.session_timeout a s v
  round-Follow config (received client knock) a s v =
      on_backend-Follow (routes config) (wants_console config) a client _ knock s _ refl
  round-Follow config read_failed a s v = same-Follow os read_failed a s

  -- After any events, one more takes a backend only along the moves of the lifecycle: it wakes by a
  -- client Initial alone; it runs only by what the startup task that it waits for gave; and it goes
  -- to sleep only in a tick, when that task has failed, or when it was asked whether it has exited.
  pub round-Moves :
      (config : Config) (is : List Input) (i : Input) (a : SocketAddr) (m m' : ManagedBackend B)
      → let s = rounds crypto os config is (start config) in
        lookup a s.backends ≡ some m
        → lookup a (round crypto os config i s).backends ≡ some m'
        → Moves os i m.lifecycle m'.lifecycle
  round-Moves config is i a m m' =
      round-Follow config i a _ (rounds-IsConsistent crypto os config is).relay m m'

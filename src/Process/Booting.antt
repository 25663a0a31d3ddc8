-- ===== src/Process/Booting.antt =====
-- What the startup task of crates/sleepytale/src/state.rs comes to for a local process.
use sleepytale.Base.{
  ℕ, suc, ◌+◌, ◌≡◌, ◌∷◌, sym, ◌↔◌, ◌⊎◌, inl, inr, refl, ap, Bool, true, false, Option, none, some,
  List, arith, if◌then◌else◌, Bool-cases, ◌&&◌,
}
use sleepytale.Base.Bytes.{Bytes}
use sleepytale.Base.Result.{ok}
use sleepytale.Net.{SocketAddr}
use sleepytale.Config.{Config, BackendConfig, BackendProvider, process, server_args}
use sleepytale.Runtime.{Wake, ready, start_failed, task_failed}
use sleepytale.Process.Child.{
  Host, Spawned, Wait, notified, exited, wait_error, timed_out, Effect, ProcessBackend, Past, start,
  started, wait_until_ready, command_of, call, attach_console, wait_result, Child, spawned_child,
  after_wait, killed,
}
use sleepytale.Process.Startup.{startup, create_backend, create_for, new, process_backend}
use sleepytale.Backend.{after_start, waited, after_create, boot}

attach_calls :
    (console : Bool) (stdin : Option ℕ) (w : Past)
    → (attach_console console stdin w).calls ≡ w.calls
attach_calls false stdin w = refl
attach_calls true none w = refl
attach_calls true (some stdin) w = refl

attach_effects :
    (console : Bool) (stdin : Option ℕ) (w : Past)
    → (attach_console console stdin w).effects
      ≡ (attach_console console stdin (record { calls = 0; effects = w.effects })).effects
attach_effects false stdin w = refl
attach_effects true none w = refl
attach_effects true (some stdin) w = refl

module _ (to_string : SocketAddr → Bytes) (host : Host) (config : Config) (backend : BackendConfig)
    (console : Bool) where
  -- The adapter before its child.
  abbrev pub unstarted : ProcessBackend
  unstarted = record {
    command = backend.server.command;
    args = server_args to_string backend;
    working_dir = backend.server.working_dir;
    boot_timeout = config.boot_timeout;
    shutdown_grace = config.shutdown_grace;
    console = console;
    child = none;
    started_at = none;
  }

  -- The banner was seen before the wait, or ended it; `n` calls were made before the startup.
  abbrev pub SeesBanner : ℕ → ℕ → Type 0
  SeesBanner n child =
      (host.booted (suc (suc n)) ≡ true)
      ⊎ ((host.booted (suc (suc (suc n))) ≡ true)
          ⊎ (host.await_banner (suc (suc (suc (suc n)))) child
                (host.clock (suc n) + config.boot_timeout)
              ≡ notified))

  abbrev pub Boots : ℕ → Option Spawned → ProcessBackend → Type 0
  Boots n none p = ⊥
  Boots n (some c) p =
      (c.stdout ≡ true)
      × (c.stderr ≡ true)
      × SeesBanner n c.handle
      × (p ≡ record unstarted {
        child = some (spawned_child c);
        started_at = some (host.clock (suc n));
      })

  created :
      (provider : BackendProvider)
      → create_for to_string config backend console provider ≡ ok unstarted
  unfolding new
  created process = refl

  startup_lem :
      (w : Past)
      → startup to_string host config backend console w
        ≡ after_start
            (process_backend host)
            (started host unstarted (call w) (host.spawn w.calls (command_of unstarted)))
  unfolding startup create_backend start boot
  startup_lem w =
      ap (λ r. after_create (process_backend host) w r) (created backend.server.provider)

  ended :
      (q p : ProcessBackend) (c : Child) (w : Past) (o : Wait)
      → ((waited (process_backend host) (wait_result host o, after_wait host o q c, w)).0 ≡ ready p)
        ↔ ((o ≡ notified) × (p ≡ q))
  ended q p c w notified = (λ e. (refl, cc), λ h. cc)
  ended q p c w exited = (λ e. absurd cc, λ h. absurd cc)
  ended q p c w wait_error = (λ e. absurd cc, λ h. absurd cc)
  ended q p c w timed_out = (λ e. absurd cc, λ h. absurd cc)

  -- A wait for a child ends well exactly if the banner is seen.
  awaiting :
      (q : ProcessBackend) (w : Past) (c : Child) (deadline : ℕ) (p : ProcessBackend)
      → q.child ≡ some c
      → ((waited (process_backend host) (wait_until_ready host deadline q w)).0 ≡ ready p) ↔ (
          ((host.booted w.calls ≡ true)
            ⊎ ((host.booted (suc w.calls) ≡ true)
                ⊎ (host.await_banner (suc (suc w.calls)) c.handle deadline ≡ notified)))
          × (p ≡ q))
  unfolding wait_until_ready
  awaiting q w c deadline p e =
      let o = host.await_banner (suc (suc w.calls)) c.handle deadline in
      let last = ended q p c (call (call (call w))) o in ground (arith, e, last.0, last.1)

  booting :
      (w : Past) (o : Option Spawned) (p : ProcessBackend)
      → ((after_start (process_backend host) (started host unstarted (call w) o)).0 ≡ ready p)
        ↔ Boots w.calls o p
  booting w none p = (λ e. absurd cc, λ h. absurd h)
  booting w (some c) p = elim (Bool-cases c.stdout) [
    | inl out ↦ elim (Bool-cases c.stderr) [
      | inl both ↦
          let q = record unstarted {
            child = some (spawned_child c);
            started_at = some (host.clock (suc w.calls));
          } in
          let deadline = host.clock (suc w.calls) + config.boot_timeout in
          let after = attach_console console c.stdin (call (call w)) in
          let awaited = awaiting q after (spawned_child c) deadline p refl in
          let seen = rw (attach_calls console c.stdin (call (call w))) at awaited in
          rw (out, both) (λ e. (let r = seen.0 e in (refl, refl, r.0, r.1)), λ h. seen.1 (h.2, h.3))
      | inr none_err ↦ rw (out, none_err) (λ e. absurd cc, λ h. absurd cc)
    ]
    | inr none_out ↦ rw none_out (λ e. absurd cc, λ h. absurd cc)
  ]

  -- A startup comes to a backend exactly when the command of the configuration is spawned with both
  -- output pipes and the banner is seen before the wait or ends it, within the boot timeout from the
  -- spawn; the backend is then the adapter of that configuration with the child and the time of the
  -- spawn.
  pub startup-ready_iff :
      (w : Past) (p : ProcessBackend)
      → ((startup to_string host config backend console w).0 ≡ ready p)
        ↔ Boots w.calls (host.spawn w.calls (command_of unstarted)) p
  startup-ready_iff w p =
      rw (startup_lem w) (booting w (host.spawn w.calls (command_of unstarted)) p)

  -- The console is lent to a child with both output pipes.
  abbrev pub lent : Spawned → List Effect → List Effect
  lent c before =
      if c.stdout && c.stderr
      then (attach_console console c.stdin (record { calls = 0; effects = before })).effects
      else before

  abbrev has_ended : Wait → Bool
  has_ended notified = false
  has_ended exited = true
  has_ended wait_error = false
  has_ended timed_out = false

  -- Was the wait for the banner ended by the child's status? `n` calls were made before the startup.
  abbrev pub ends_early : ℕ → Spawned → Bool
  ends_early n c =
      c.stdout
      && c.stderr
      && has_ended (
          host.await_banner (suc (suc (suc (suc n)))) c.handle
            (host.clock (suc n) + config.boot_timeout))

  -- What a startup with this child leaves, by what it comes to: `early` says that the child was reaped.
  abbrev pub Settles : Bool → ℕ → List Effect → Wake ProcessBackend → List Effect → Type 0
  Settles early child base (ready p) after = after ≡ base
  Settles early child base start_failed after =
      after ≡ (if early then base else killed child ∷ base)
  Settles early child base task_failed after = ⊥

  abbrev pub Leaves : ℕ → Option Spawned → List Effect → Wake ProcessBackend → List Effect → Type 0
  Leaves n none before result after = (result ≡ start_failed) × (after ≡ before)
  Leaves n (some c) before result after =
      Settles (ends_early n c) c.handle (lent c before) result after

  wait_Settles :
      (q : ProcessBackend) (c : Child) (w : Past) (o : Wait) (early : Bool) (base : List Effect)
      → w.effects ≡ base
      → q.child ≡ some c
      → c.reaped ≡ false
      → early ≡ has_ended o
      → let r = waited (process_backend host) (wait_result host o, after_wait host o q c, w) in
        Settles early c.handle base r.0 r.1.effects
  wait_Settles q c w notified early base e f g k = e
  wait_Settles q c w exited early base e f g k = rw k e
  wait_Settles q c w wait_error early base e f g k = rw (k, f, g) (ap (◌∷◌ (killed c.handle)) e)
  wait_Settles q c w timed_out early base e f g k = rw (k, f, g) (ap (◌∷◌ (killed c.handle)) e)

  await_Settles :
      (q : ProcessBackend) (c : Child) (deadline n : ℕ) (base : List Effect) (w : Past)
      → w.effects ≡ base
      → w.calls ≡ n
      → q.child ≡ some c
      → c.reaped ≡ false
      → let r = waited (process_backend host) (wait_until_ready host deadline q w) in
        Settles
          (has_ended (host.await_banner (suc (suc n)) c.handle deadline))
          c.handle
          base
          r.0
          r.1.effects
  unfolding wait_until_ready
  await_Settles q c deadline n base w e same f g = elim (Bool-cases (host.booted w.calls)) [
    | inl seen ↦ rw seen e
    | inr later ↦ elim (Bool-cases (host.booted (suc w.calls))) [
      | inl seen ↦ rw (later, f, seen) e
      | inr never ↦
          let o = host.await_banner (suc (suc w.calls)) c.handle deadline in
          rw (later, f, never)
            (wait_Settles (record q { child = some c }) c (call (call (call w))) o _ base e refl g
              (ap (λ k. has_ended (host.await_banner (suc (suc k)) c.handle deadline)) (sym same)))
    ]
  ]

  start_Leaves :
      (w : Past) (o : Option Spawned)
      → let r = after_start (process_backend host) (started host unstarted (call w) o) in
        Leaves w.calls o w.effects r.0 r.1.effects
  start_Leaves w none = (refl, refl)
  start_Leaves w (some c) = elim (Bool-cases c.stdout) [
    | inl out ↦ elim (Bool-cases c.stderr) [
      | inl both ↦
          let q = record unstarted {
            child = some (spawned_child c);
            started_at = some (host.clock (suc w.calls));
          } in
          let after = attach_console console c.stdin (call (call w)) in
          rw (out, both)
            (await_Settles q (spawned_child c) (host.clock (suc w.calls) + config.boot_timeout)
              (suc (suc w.calls)) _ after (attach_effects console c.stdin (call (call w)))
              (attach_calls console c.stdin (call (call w))) refl refl)
      | inr none_err ↦ rw (out, none_err) refl
    ]
    | inr none_out ↦ rw none_out refl
  ]

  -- A startup signals no process group and detaches no console, also when it fails. It lends the
  -- console to a child that came with both output pipes. If it fails after a child was spawned, that
  -- child itself is killed, unless the wait for the banner was ended by the child's status.
  pub startup_effects :
      (w : Past)
      → let r = startup to_string host config backend console w in
        Leaves w.calls (host.spawn w.calls (command_of unstarted)) w.effects r.0 r.1.effects
  startup_effects w =
      rw (startup_lem w) (start_Leaves w (host.spawn w.calls (command_of unstarted)))

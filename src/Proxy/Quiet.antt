-- ===== src/Proxy/Quiet.antt =====
-- Backends that nobody uses in a run of crates/sleepytale/src/state.rs.
use sleepytale.Base.{
  ℕ, suc, ◌-◌, ◌+◌, ◌≤◌, ◌≡◌, ◌≢◌, inl, inr, sym, ap, ◌∙◌, false, none, some, List, All, arith,
}
use sleepytale.Base.Map.{lookup, values}
use sleepytale.Base.Map.Values.{All-lookup, lookup-All}
use sleepytale.Net.{SocketAddr, addr_key, addr_eq}
use sleepytale.Config.{Config}
use sleepytale.Sni.Keys.{Crypto}
use sleepytale.Runtime.{Os}
use sleepytale.Relay.{called, session_backend, reap_idle}
use sleepytale.Relay.Closing.{close_pins_only}
use sleepytale.Proxy.{sleeping, running, ManagedBackend, State, start, wants_console}
use sleepytale.Proxy.Tick.{tick, since_or}
use sleepytale.Proxy.Run.{Input, ticked, round, rounds}
use sleepytale.Proxy.Worlds.{reap_keeps}
use sleepytale.Proxy.Loop.{IsConsistent, tick-IsConsistent}
use sleepytale.Proxy.Rounds.{rounds-IsConsistent}
use sleepytale.Proxy.Reachable.{sound}
use sleepytale.Proxy.Traces.{Follows-refl, follows}
use sleepytale.Proxy.Each.{rounds_keep, start-Each, tick-Each}
use sleepytale.Proxy.Past.{IsMonotone, IsPast, past}
use sleepytale.Proxy.Visits.{Visit, visit, All-Others}
use sleepytale.Proxy.Unused.{
  is_waking, asleep_stays, NoPins, IsQuiet, tick_unused, tick_backend-NoPins, tick_backends-NoPins,
}

module _ {B : Type 0} (os : Os B) (idle_timeout session_timeout : ℕ) (a : SocketAddr) where
  reaped-NoPins :
      (s : State B)
      → IsConsistent s
      → NoPins os idle_timeout a s.world
      → NoPins os idle_timeout a (reap_idle os session_timeout s.world).1
  unfolding reap_idle session_backend
  reaped-NoPins s v h client p = h client (close_pins_only _ client a (called s.world) v.relay.0 p)

  All-IsQuiet :
      (s : State B) (m : ManagedBackend B)
      → IsConsistent s
      → lookup a s.backends ≡ some m
      → is_waking m.lifecycle ≡ false
      → All (IsQuiet os idle_timeout a) (values s.backends)
  All-IsQuiet s m v found up = All-lookup (IsQuiet os idle_timeout a) s.backends v.distinct λ k n e.
      elim (addr_eq k a) [
        | yes same ↦ inr (ground (arith, same, e, found, up))
        | no ne ↦ inl (λ here. ne (sym (v.entries k n e).0 ∙ here))
      ]

  -- A tick of all comes to the backend in some world of its own.
  tick-Visit :
      (s : State B) (m : ManagedBackend B)
      → IsConsistent s
      → lookup a s.backends ≡ some m
      → is_waking m.lifecycle ≡ false
      → NoPins os idle_timeout a s.world
      → Visit os idle_timeout
          (NoPins os idle_timeout a)
          (IsQuiet os idle_timeout a)
          a
          m
          s.backends
          (reap_idle os session_timeout s.world).1
        × NoPins os idle_timeout a (tick os idle_timeout session_timeout s).world
  unfolding tick
  tick-Visit s m v found up none_left =
      let w = (reap_idle os session_timeout s.world).1 in
      let sound' = reap_keeps (sound os) session_timeout s.world v.relay in
      let quiet = All-IsQuiet s m v found up in
      let unpinned = reaped-NoPins s v none_left in
      (
        visit os idle_timeout (NoPins os idle_timeout a) (IsQuiet os idle_timeout a) a m s.backends
            w (tick_backend-NoPins os idle_timeout a) found sound'
            (All-Others os idle_timeout (NoPins os idle_timeout a) (IsQuiet os idle_timeout a) a
              s.backends quiet)
            unpinned,
        tick_backends-NoPins os idle_timeout a s.backends w sound' quiet unpinned,
      )

-- The backend at the address sleeps.
abbrev pub SleepsAt : {B : Type 0} → SocketAddr → State B → Type 0
SleepsAt {B} a s =
    (m : ManagedBackend B) × (lookup a s.backends ≡ some m) × (m.lifecycle ≡ sleeping)

module _ {B : Type 0} (os : Os B) (idle_timeout session_timeout : ℕ) (a : SocketAddr) where
  asleep_SleepsAt :
      (s : State B) (m : ManagedBackend B)
      → IsConsistent s
      → lookup a s.backends ≡ some m
      → m.lifecycle ≡ sleeping
      → NoPins os idle_timeout a s.world
      → SleepsAt a (tick os idle_timeout session_timeout s)
  unfolding tick
  asleep_SleepsAt s m v found e none_left =
      let ((w, _, _, _, stands, _), _) =
        tick-Visit os idle_timeout session_timeout a s m v found (ap is_waking e) none_left in
      (m, stands ∙ ap some (asleep_stays os idle_timeout a m w e), e)

  -- The second of two ticks, for a backend that the first left running with a time noted.
  overdue_SleepsAt :
      (b : B) (s : State B) (m : ManagedBackend B) (since : ℕ)
      → IsMonotone os
      → IsConsistent s
      → lookup a s.backends ≡ some m
      → m.lifecycle ≡ running b
      → m.empty_since ≡ some since
      → ((n : ℕ) → os.has_exited n b ≢ none)
      → NoPins os idle_timeout a s.world
      → since + idle_timeout ≤ os.clock s.world.calls
      → SleepsAt a (tick os idle_timeout session_timeout s)
  unfolding tick
  overdue_SleepsAt b s m since monotone v found up noted asked none_left late =
      let ((w, le, sound', unpinned, stands, _), _) =
        tick-Visit os idle_timeout session_timeout a s m v found (ap is_waking up) none_left in
      let later = reap_keeps (follows os s.world) session_timeout s.world (Follows-refl s.world) in
      elim (tick_unused os idle_timeout a b m w up (v.entries a m found).0 (asked w.calls) sound'
        unpinned) [
          | inl asleep ↦ (_, stands, asleep)
          | inr (_, _, _, early) ↦
              let same : since_or os m.empty_since (os.clock (suc w.calls)) ≡ since =
                ap (λ o. since_or os o (os.clock (suc w.calls))) noted in
              absurd (
                omega (
                  arith,
                  monotone s.world.calls (suc (suc w.calls)) (omega (arith, later.0)),
                  rw same at early,
                ))
        ]

module _ {Prk B : Type 0} (crypto : Crypto Prk) (os : Os B) (config : Config) where
  -- After any events, a backend that runs and that no client has a session for sleeps after two
  -- ticks, if the clock never goes back, is read in the second tick only the idle timeout after the
  -- readings before, and the question whether the backend has exited is always answered.
  pub unused_sleeps :
      (is : List Input) (a : SocketAddr) (m : ManagedBackend B) (b : B)
      → let s = rounds crypto os config is (start config) in
        let first = round crypto os config ticked s in
        IsMonotone os
        → lookup a s.backends ≡ some m
        → m.lifecycle ≡ running b
        → ((client : SocketAddr) → session_backend client s.world ≢ some a)
        → ((n : ℕ) → os.has_exited n b ≢ none)
        → os.clock (first.world.calls - 1) + config.idle_timeout ≤ os.clock first.world.calls
        → SleepsAt a (round crypto os config ticked first)
  unfolding round tick
  unused_sleeps is a m b monotone found up none_left asked late =
      let idle = config.idle_timeout in
      let timeout = config.session_timeout in
      let s = rounds crypto os config is (start config) in
      let first = tick os idle timeout s in
      let v = rounds-IsConsistent crypto os config is in
      let v' = tick-IsConsistent os idle timeout s v in
      let times = past os monotone (wants_console config) in
      let noted =
        tick-Each times idle timeout s
          (rounds_keep crypto config times is (start config) (start-Each times config)) in
      let ((w, _, sound', unpinned, stands, _), unpinned') =
        tick-Visit os idle timeout a s m v found (ap is_waking up) none_left in
      elim (tick_unused os idle a b m w up (v.entries a m found).0 (asked w.calls) sound'
        unpinned) [
          | inl asleep ↦ asleep_SleepsAt os idle timeout a first _ v' stands asleep unpinned'
          | inr (up', _, e, _) ↦
              let since = since_or os m.empty_since (os.clock (suc w.calls)) in
              let before =
                lookup-All (λ n. IsPast os first.world n.empty_since) a _ first.backends stands
                  noted in
              overdue_SleepsAt os idle timeout a b first _ since monotone v' stands up' e asked
                unpinned' (omega (arith, (rw e at before).1))
        ]

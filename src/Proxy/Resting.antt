-- ===== src/Proxy/Resting.antt =====
-- A running backend that nobody uses, over the ticks of crates/sleepytale/src/state.rs.
use sleepytale.Base.{
  ℕ, suc, ◌+◌, ◌≤◌, ◌≡◌, ◌⊎◌, inl, inr, refl, ap, ◌∙◌, false, none, some, Option, ◌∷◌, arith,
}
use sleepytale.Runtime.{Os, World, stopped}
use sleepytale.Relay.{called, session_count_for}
use sleepytale.Proxy.{sleeping, running, ManagedBackend}
use sleepytale.Proxy.Tick.{settle, settle_at, idle_check, supervise, tick_backend, since_or}
use sleepytale.Proxy.Idle.{supervise_alive}

module _ {B : Type 0} (os : Os B) (idle_timeout : ℕ) where
  settle_running :
      (b : B) (m : ManagedBackend B) (w : World B)
      → m.lifecycle ≡ running b
      → settle os m w ≡ (m, w)
  unfolding settle
  settle_running b m w e = ap (settle_at os m w) e

  tick_running :
      (b : B) (m : ManagedBackend B) (w : World B)
      → m.lifecycle ≡ running b
      → os.has_exited w.calls b ≡ some false
      → tick_backend os idle_timeout m w ≡ idle_check os idle_timeout b m (called w)
  unfolding tick_backend
  tick_running b m w e alive =
      ap (λ s. supervise os idle_timeout s.0 s.1) (settle_running b m w e)
      ∙ supervise_alive os idle_timeout b m w e alive

  -- The backend sleeps, and its adapter was told to stop.
  abbrev pub Rests : B → ManagedBackend B → World B → ManagedBackend B × World B → Type 0
  Rests b m w (m', w') =
      (m'.lifecycle ≡ sleeping) × (w'.trace ≡ stopped m.config.backend b ∷ w.trace)

  since_past :
      (o : Option ℕ) (now : ℕ)
      → ((since : ℕ) → o ≡ some since → since ≤ now)
      → since_or os o now ≤ now
  since_past none now h = omega arith
  since_past (some since) now h = h since refl

  unused :
      (b : B) (m : ManagedBackend B) (w : World B)
      → session_count_for m.config.backend w ≡ 0
      → Rests b m w (idle_check os idle_timeout b m w)
        ⊎ ((idle_check os idle_timeout b m w).0
            ≡ record m { empty_since = some (since_or os m.empty_since (os.clock w.calls)) })
  unfolding idle_check
  unused b m w none_left = ground (arith, none_left)

  overdue :
      (b : B) (m : ManagedBackend B) (w : World B) (since : ℕ)
      → session_count_for m.config.backend w ≡ 0
      → m.empty_since ≡ some since
      → since + idle_timeout ≤ os.clock (suc w.calls)
      → Rests b m w (idle_check os idle_timeout b m w)
  unfolding idle_check
  overdue b m w since none_left e late = ground (arith, none_left, e, late)

  second :
      (b : B) (m m' : ManagedBackend B) (w w' : World B) (since : ℕ)
      → m' ≡ record m { empty_since = some since }
      → m.lifecycle ≡ running b
      → os.has_exited w'.calls b ≡ some false
      → session_count_for m.config.backend w' ≡ 0
      → since + idle_timeout ≤ os.clock (suc (suc w'.calls))
      → Rests b m w' (tick_backend os idle_timeout m' w')
  unfolding session_count_for
  second b m m' w w' since same e alive none_left late = rw same (
      rw (tick_running b (record m { empty_since = some since }) w' e alive)
        (overdue b (record m { empty_since = some since }) (called w') since none_left refl late))

  -- A running backend that no client has a session for is stopped and sleeps after the first or the
  -- second of two ticks. The second finds the backend as the first left it, in any world, reads the
  -- clock the idle timeout after the first did, and the backend has not exited at either.
  pub unused-Rests :
      (b : B) (m : ManagedBackend B) (w w' : World B)
      → m.lifecycle ≡ running b
      → ((since : ℕ) → m.empty_since ≡ some since → since ≤ os.clock (suc w.calls))
      → os.has_exited w.calls b ≡ some false
      → os.has_exited w'.calls b ≡ some false
      → session_count_for m.config.backend w ≡ 0
      → session_count_for m.config.backend w' ≡ 0
      → os.clock (suc w.calls) + idle_timeout ≤ os.clock (suc (suc w'.calls))
      → Rests b m w (tick_backend os idle_timeout m w)
        ⊎ Rests b m w' (tick_backend os idle_timeout (tick_backend os idle_timeout m w).0 w')
  unfolding session_count_for
  unused-Rests b m w w' e past alive alive' none_left none_left' late =
      let first = tick_running b m w e alive in
      let since = since_or os m.empty_since (os.clock (suc w.calls)) in
      let early : since ≤ os.clock (suc w.calls) =
        since_past m.empty_since (os.clock (suc w.calls)) past in
      elim (unused b m (called w) none_left) [
        | inl rests ↦ inl (rw first rests)
        | inr waits ↦ inr (
            second b m (tick_backend os idle_timeout m w).0 w w' since (ap (λ s. s.0) first ∙ waits)
              e alive' none_left' (omega arith))
      ]

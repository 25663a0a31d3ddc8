-- ===== src/Process/Stopping.antt =====
-- What a stop of crates/sleepytale/src/infra/process.rs does to the child.
use sleepytale.Base.{
  ℕ, suc, ◌+◌, ◌≡◌, ◌≢◌, ◌⊎◌, refl, Bool, none, some, List, ◌∷◌, arith, if◌then◌else◌,
}
use sleepytale.Base.Result.{Result, ok, err}
use sleepytale.Process.Child.{
  sigterm, sigkill, Host, Effect, detached, signalled, ProcessBackend, Past, start, has_exited,
  stop, not_started, killed, Child, ProcessError,
}

-- Beyond earlier effects: nothing; or SIGTERM to the child's process group; or then SIGKILL to the
-- same group, after a wait for the child that ran out of the grace.
abbrev pub Escalated : Host → ℕ → ℕ → List Effect → List Effect → Type 0
Escalated host grace child before after =
    (after ≡ before)
    ⊎ ((pid : ℕ) × (n : ℕ) × (host.id n child ≡ some pid)
        × ((after ≡ signalled pid sigterm ∷ before)
            ⊎ ((after ≡ signalled pid sigkill ∷ signalled pid sigterm ∷ before)
                × ((m : ℕ) × (host.within m child grace ≡ none)))))

abbrev pub detach_first : Bool → List Effect → List Effect
detach_first console effects = if console then detached ∷ effects else effects

-- What the drop of the child's handle adds when a stop returns.
abbrev pub drop_effects : ℕ → Result ProcessError (Unit {0}) → List Effect → List Effect
drop_effects child (ok done) sent = sent
drop_effects child (err e) sent = killed child ∷ sent

module _ (host : Host) where
  -- The effects from `before` to `after` are a detachment, an escalation, and the kill of the child
  -- if the stop has failed.
  abbrev pub Ends :
      ℕ → Bool → Child → List Effect → Result ProcessError (Unit {0}) → List Effect → Type 0
  Ends grace console c before result after =
      (sent : List Effect) × Escalated host grace c.handle (detach_first console before) sent
      × (after ≡ drop_effects c.handle result sent)

  -- Whatever a stop returned, a further stop succeeds and signals nobody.
  pub stop-stop :
      (p : ProcessBackend) (w w' : Past)
      → (stop host (stop host p w).1 w').0 ≡ ok tt
        × ((stop host (stop host p w).1 w').2.effects ≡ detach_first p.console w'.effects)
  unfolding stop
  stop-stop p w w' = (refl, ground arith)

  -- A start that succeeds notes when it started, and returns the end of the boot timeout; from then
  -- on the backend can be asked whether it has exited.
  pub start-has_exited :
      (p : ProcessBackend) (w w' : Past) (deadline : ℕ)
      → (start host p w).0 ≡ ok deadline
      → ((at : ℕ) × ((start host p w).1.started_at ≡ some at) × (deadline ≡ at + p.boot_timeout))
        × ((has_exited host (start host p w).1 w').0 ≢ err not_started)
  unfolding start has_exited
  start-has_exited p w w' deadline h =
      ((host.clock (suc w.calls), ground (arith, h), ground (arith, h)), λ e. ground (arith, h, e))

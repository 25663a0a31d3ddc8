-- ===== src/Backend.antt =====
-- The trait `Backend` of crates/sleepytale/src/infra/mod.rs, and the task by which
-- `handle_datagram` of state.rs brings a backend up, for any implementation of the trait.
use sleepytale.Base.{ℕ, Bool}
use sleepytale.Base.Result.{Result, ok, err}
use sleepytale.Runtime.{Wake, ready, start_failed}

-- The methods on an adapter `B`, with errors `E`, in surroundings `W`. A deadline is a time; `drop`
-- is what becomes of an adapter that goes out of scope.
pub record Backend (E B W : Type 0) : Type 0 where
  pub start : B → W → Result E ℕ × B × W
  pub wait_until_ready : ℕ → B → W → Result E (Unit {0}) × B × W
  pub has_exited : B → W → Result E Bool × B × W
  pub stop : B → W → Result E (Unit {0}) × B × W
  pub drop : B → W → W

module _ {E B W : Type 0} (backend : Backend E B W) where
  abbrev pub waited : Result E (Unit {0}) × B × W → Wake B × W
  waited (err e, b, w) = (start_failed, backend.drop b w)
  waited (ok done, b, w) = (ready b, w)

  abbrev pub after_start : Result E ℕ × B × W → Wake B × W
  after_start (err e, b, w) = (start_failed, backend.drop b w)
  after_start (ok deadline, b, w) = waited (backend.wait_until_ready deadline b w)

  abbrev pub after_create : W → Result E B → Wake B × W
  after_create w (err e) = (start_failed, w)
  after_create w (ok b) = after_start (backend.start b w)

  -- The block of the task. An adapter that fails to start or to get ready is dropped.
  unfoldable pub boot : Result E B → W → Wake B × W
  boot created w = after_create w created

-- ===== src/Process/Child.antt =====
-- `ProcessBackend` of crates/sleepytale/src/infra/process.rs on unix: starting, waiting for and
-- stopping the child. The system answers each call by its number, as in Runtime; the copies of the
-- child's output are in Scan.
use sleepytale.Base.{
  ℕ, suc, ◌+◌, Bool, true, false, Option, none, some, List, ◌∷◌, ◌==◌, if◌then◌else◌,
}
use sleepytale.Base.Bytes.{Bytes}
use sleepytale.Base.Result.{Result, ok, err}

pub data Signal : Type 0 where
  sigterm sigkill : Signal

-- What is spawned. Output is piped, standard input on demand; the child gets a process group of its
-- own and is killed when its handle is dropped.
pub record Command : Type 0 where
  pub program : Bytes
  pub args : List Bytes
  pub dir : Bytes
  pub piped_stdin : Bool

-- What a spawned child came with: its handle and the pipes.
pub record Spawned : Type 0 where
  pub handle : ℕ
  pub stdout : Bool
  pub stderr : Bool
  pub stdin : Option ℕ

-- How the wait for the banner ended.
pub data Wait : Type 0 where
  notified exited wait_error timed_out : Wait

-- `try_wait` and `wait` are none on an error; `within` is none on a timeout, and then says whether
-- the wait succeeded; `kill` gives the error number if it fails; `esrch` is the number `ESRCH`.
pub record Host : Type 0 where
  pub clock : ℕ → ℕ
  pub spawn : ℕ → Command → Option Spawned
  pub booted : ℕ → Bool
  pub await_banner : ℕ → ℕ → ℕ → Wait
  pub try_wait : ℕ → ℕ → Option Bool
  pub id : ℕ → ℕ → Option ℕ
  pub kill : ℕ → ℕ → Signal → Option ℕ
  pub within : ℕ → ℕ → ℕ → Option Bool
  pub wait : ℕ → ℕ → Bool
  pub esrch : ℕ

-- `signalled` is a signal to a process group; `killed` is the SIGKILL to the child itself that the
-- drop of its handle sends.
pub data Effect : Type 0 where
  attached : ℕ → Effect
  killed : ℕ → Effect
  detached : Effect
  signalled : ℕ → Signal → Effect

pub data ProcessError : Type 0 where
  spawn_failed no_stdout no_stderr not_started exited_early wait_failed no_banner status_failed :
      ProcessError
  signal_failed : ℕ → ProcessError

-- A child is reaped when a wait has given its status.
pub record Child : Type 0 where
  pub handle : ℕ
  pub reaped : Bool

-- `booted` and its notification are read from the host.
pub record ProcessBackend : Type 0 where
  pub command : Bytes
  pub args : List Bytes
  pub working_dir : Bytes
  pub boot_timeout : ℕ
  pub shutdown_grace : ℕ
  pub console : Bool
  pub child : Option Child
  pub started_at : Option ℕ

-- The calls made so far, and the effects, newest first.
pub record Past : Type 0 where
  pub calls : ℕ
  pub effects : List Effect

abbrev pub Step : Type 0 → Type 0
Step A = Result ProcessError A × ProcessBackend × Past

abbrev pub call : Past → Past
call w = record w { calls = suc w.calls }

abbrev pub effect : Effect → Past → Past
effect e w = record w { effects = e ∷ w.effects }

-- `kill_on_drop(true)`: a handle that is dropped before its child is reaped kills the child.
abbrev pub drop_child : Child → Past → Past
drop_child c w = if c.reaped then w else effect (killed c.handle) w

abbrev pub drop_held : Option Child → Past → Past
drop_held none w = w
drop_held (some c) w = drop_child c w

-- An adapter goes out of scope, and its handle with it.
abbrev pub drop_backend : ProcessBackend → Past → Past
drop_backend p w = drop_held p.child w

abbrev pub spawned_child : Spawned → Child
spawned_child c = record { handle = c.handle; reaped = false }

-- `attach` if there are a console and a pipe.
abbrev pub attach_console : Bool → Option ℕ → Past → Past
attach_console false stdin w = w
attach_console true none w = w
attach_console true (some stdin) w = effect (attached stdin) w

-- The status of a call of `kill`: `ESRCH` is no failure.
abbrev pub signal_status : ℕ → Option ℕ → Option ℕ
signal_status esrch none = none
signal_status esrch (some errno) = if errno == esrch then none else some errno

abbrev pub command_of : ProcessBackend → Command
command_of p = record {
  program = p.command;
  args = p.args;
  dir = p.working_dir;
  piped_stdin = p.console;
}

module _ (host : Host) where
  -- The pipes are taken one after the other; the console gets standard input. On an error the handle
  -- goes out of scope before it is stored.
  abbrev pub take_pipes : ProcessBackend → Past → Spawned → Step ℕ
  take_pipes p w c =
      if c.stdout
      then (if c.stderr
          then (
            ok (host.clock w.calls + p.boot_timeout),
            record p { child = some (spawned_child c); started_at = some (host.clock w.calls) },
            attach_console p.console c.stdin (call w),
          )
          else (
            err no_stderr,
            record p { started_at = some (host.clock w.calls) },
            drop_child (spawned_child c) (call w),
          ))
      else (
        err no_stdout,
        record p { started_at = some (host.clock w.calls) },
        drop_child (spawned_child c) (call w),
      )

  abbrev pub started : ProcessBackend → Past → Option Spawned → Step ℕ
  started p w none = (err spawn_failed, p, w)
  started p w (some c) = take_pipes p w c

  unfoldable pub start : ProcessBackend → Past → Step ℕ
  start p w = started p (call w) (host.spawn w.calls (command_of p))

  abbrev pub wait_result : Wait → Result ProcessError (Unit {0})
  wait_result notified = ok tt
  wait_result exited = err exited_early
  wait_result wait_error = err wait_failed
  wait_result timed_out = err no_banner

  -- A wait that ended with the status of the child has reaped it.
  abbrev pub after_wait : Wait → ProcessBackend → Child → ProcessBackend
  after_wait notified p c = p
  after_wait exited p c = record p { child = some (record c { reaped = true }) }
  after_wait wait_error p c = p
  after_wait timed_out p c = p

  -- The flag is read once more after the wait is registered.
  abbrev pub await_child : ℕ → ProcessBackend → Past → Option Child → Step (Unit {0})
  await_child deadline p w none = (err not_started, p, w)
  await_child deadline p w (some c) =
      let o = host.await_banner (suc w.calls) c.handle deadline in
      if host.booted w.calls
      then (ok tt, p, call w)
      else (wait_result o, after_wait o p c, call (call w))

  unfoldable pub wait_until_ready : ℕ → ProcessBackend → Past → Step (Unit {0})
  wait_until_ready deadline p w =
      if host.booted w.calls then (ok tt, p, call w) else await_child deadline p (call w) p.child

  -- The status of a child that is reaped stays known.
  abbrev pub try_wait : ℕ → Child → Option Bool
  try_wait n c = if c.reaped then some true else host.try_wait n c.handle

  abbrev pub exit_status : Option Bool → Result ProcessError Bool
  exit_status none = err status_failed
  exit_status (some e) = ok e

  abbrev pub after_try : Option Bool → Child → Child
  after_try none c = c
  after_try (some false) c = c
  after_try (some true) c = record c { reaped = true }

  abbrev pub child_exited : ProcessBackend → Past → Option Child → Step Bool
  child_exited p w none = (err not_started, p, w)
  child_exited p w (some c) =
      let o = try_wait w.calls c in
      (exit_status o, record p { child = some (after_try o c) }, call w)

  unfoldable pub has_exited : ProcessBackend → Past → Step Bool
  has_exited p w = child_exited p w p.child

  -- `signal_group`
  unfoldable pub signal_group : ℕ → Signal → Past → Option ℕ × Past
  signal_group pid signal w = (
    signal_status host.esrch (host.kill w.calls pid signal),
    effect (signalled pid signal) (call w),
  )

  abbrev pub reaped : ℕ → Option ℕ × Past → Result ProcessError (Unit {0}) × Past
  reaped child (some errno, w) = (err (signal_failed errno), w)
  reaped child (none, w) = (if host.wait w.calls child then ok tt else err wait_failed, call w)

  unfoldable pub kill_backend : ℕ → ℕ → Past → Result ProcessError (Unit {0}) × Past
  unfolding signal_group
  kill_backend child pid w = reaped child (signal_group pid sigkill w)

  abbrev pub graced : ℕ → ℕ → Past → Option Bool → Result ProcessError (Unit {0}) × Past
  graced child pid w none = kill_backend child pid w
  graced child pid w (some true) = (ok tt, w)
  graced child pid w (some false) = (err wait_failed, w)

  abbrev pub terminated : ℕ → ℕ → ℕ → Option ℕ × Past → Result ProcessError (Unit {0}) × Past
  terminated grace child pid (some errno, w) = (err (signal_failed errno), w)
  terminated grace child pid (none, w) = graced child pid (call w) (host.within w.calls child grace)

  abbrev pub stop_pid : ℕ → ℕ → Past → Option ℕ → Result ProcessError (Unit {0}) × Past
  stop_pid grace child w none = (ok tt, w)
  stop_pid grace child w (some pid) = terminated grace child pid (signal_group pid sigterm w)

  abbrev pub stop_status : ℕ → ℕ → Past → Option Bool → Result ProcessError (Unit {0}) × Past
  stop_status grace child w none = (err status_failed, w)
  stop_status grace child w (some true) = (ok tt, w)
  stop_status grace child w (some false) = stop_pid grace child (call w) (host.id w.calls child)

  -- The handle goes out of scope when `stop` returns. Each return but those of an error comes after
  -- the child is reaped.
  abbrev pub let_go :
      ℕ → Result ProcessError (Unit {0}) × Past → Result ProcessError (Unit {0}) × Past
  let_go child (ok done, w) = (ok done, w)
  let_go child (err e, w) = (err e, drop_child (record { handle = child; reaped = false }) w)

  abbrev pub stop_child : ℕ → Past → Option Child → Result ProcessError (Unit {0}) × Past
  stop_child grace w none = (ok tt, w)
  stop_child grace w (some c) =
      let_go c.handle (stop_status grace c.handle (call w) (try_wait w.calls c))

  -- The console is detached, and the child is taken out before anything can fail.
  unfoldable pub stop : ProcessBackend → Past → Step Unit
  unfolding signal_group kill_backend
  stop p w =
      let w' = if p.console then effect detached w else w in
      let (result, w'') = stop_child p.shutdown_grace w' p.child in
      (result, record p { child = none }, w'')

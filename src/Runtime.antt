-- ===== src/Runtime.antt =====
-- What crates/sleepytale/src/relay.rs and state.rs ask of tokio and the operating system. Every
-- call is answered by the number of the call, so the answers are arbitrary and may change, and a
-- run is a function of them. What the program does to its surroundings is written to a trace.
use sleepytale.Base.{ℕ, Bool, Option, List, []}
use sleepytale.Base.Bytes.{Bytes}
use sleepytale.Base.Map.{Map}
use sleepytale.Net.{SocketAddr}
use sleepytale.Config.{BackendConfig}

-- What awaiting a finished startup task gives: `Ok(Ok(backend))`, `Ok(Err(_))` or `Err(_)`.
-- `B` is `Box<dyn Backend>`.
pub data Wake (B : Type 0) : Type 0 where
  ready : B → Wake B
  start_failed : Wake B
  task_failed : Wake B

-- `bind` gives a socket or an error; `send` says whether a datagram went out; `finished` is none
-- while a task runs; `has_exited` is none on an error; `within_grace` is none on a timeout.
pub record Os (B : Type 0) : Type 0 where
  pub clock : ℕ → ℕ
  pub bind : ℕ → SocketAddr → Option ℕ
  pub send : ℕ → ℕ → SocketAddr → Bytes → Bool
  pub finished : ℕ → ℕ → Option (Wake B)
  pub within_grace : ℕ → ℕ → ℕ → Option (Wake B)
  pub has_exited : ℕ → B → Option Bool

-- `opened client socket task`: an upstream socket was bound and its return path spawned.
-- `offered socket to datagram`: a datagram was handed to `send_to`.
-- `aborted task`: a return path was aborted.
-- `woke task config console`: a startup task was spawned.
-- `stopped addr backend`: `Backend::stop` was called.
pub data Event (B : Type 0) : Type 0 where
  opened : SocketAddr → ℕ → ℕ → Event B
  offered : ℕ → SocketAddr → Bytes → Event B
  aborted : ℕ → Event B
  woke : ℕ → BackendConfig → Bool → Event B
  stopped : SocketAddr → B → Event B

-- `Session` of relay.rs.
pub record Session : Type 0 where
  pub upstream : ℕ
  pub backend : SocketAddr
  pub return_path : ℕ
  pub last_seen : ℕ

-- The relay's sessions, the number of calls so far, and the trace, newest event first.
pub record World (B : Type 0) : Type 0 where
  pub sessions : Map SocketAddr Session
  pub calls : ℕ
  pub trace : List (Event B)

-- Before the first call.
abbrev pub start_world : {B : Type 0} → World B
start_world = record { sessions = []; calls = 0; trace = [] }

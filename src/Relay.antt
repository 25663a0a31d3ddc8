-- ===== src/Relay.antt =====
-- crates/sleepytale/src/relay.rs: the sessions. The lock is held for the whole of each operation,
-- so an operation is one step. The task of a return path is named by `opened` and `aborted`; what it
-- does is in ReturnPath.
pub mod Sessions
pub mod Closing
pub mod Tasks
pub mod ReturnPath
use sleepytale.Base.{
  ℕ, suc, ◌+◌, ◌-◌, Bool, true, false, not, Option, none, some, List, [], ◌∷◌, ◌++◌, leb,
  if◌then◌else◌, length, map,
}
use sleepytale.Base.Bytes.{Bytes}
use sleepytale.Base.Result.{Result, ok, err}
use sleepytale.Base.Map.{Map, lookup, insert, retain}
use sleepytale.Net.{SocketAddr, v4, v6, addr_eq, addr_key}
use sleepytale.Runtime.{Os, Event, opened, offered, aborted, Session, World}

pub data RelayError : Type 0 where
  bind_failed send_failed : RelayError

-- The unspecified address of the backend's family, with port 0.
abbrev pub bind_address : SocketAddr → SocketAddr
bind_address (v4 ip port) = v4 0 0
bind_address (v6 ip port flow scope) = v6 0 0 0 0

abbrev pub map_backend : Option Session → Option SocketAddr
map_backend none = none
map_backend (some s) = some s.backend

-- Is the session pinned to the backend?
abbrev pub is_for : SocketAddr → Session → Bool
is_for backend s = elim (addr_eq s.backend backend) [ yes e ↦ true | no n ↦ false ]

unfoldable pub count_for : SocketAddr → Map SocketAddr Session → ℕ
count_for backend [] = 0
count_for backend ((client, s) ∷ m) = (if is_for backend s then 1 else 0) + count_for backend m

-- `now.duration_since` is 0 for a later instant, as `-` is here.
abbrev pub is_fresh : ℕ → ℕ → SocketAddr → Session → Bool
is_fresh timeout now client s = not (leb timeout (now - s.last_seen))

module _ {B : Type 0} where
  -- One more call of the surroundings.
  abbrev pub called : World B → World B
  called w = record w { calls = suc w.calls }

  abbrev pub logged : Event B → World B → World B
  logged e w = record w { trace = e ∷ w.trace }

  unfoldable pub session_backend : SocketAddr → World B → Option SocketAddr
  session_backend client w = map_backend (lookup client w.sessions)

  -- The return paths of the entries that `retain` drops.
  unfoldable pub aborts : (SocketAddr → Session → Bool) → Map SocketAddr Session → List (Event B)
  aborts keep [] = []
  aborts keep ((client, s) ∷ m) =
      let rest = aborts keep m in if keep client s then rest else aborted s.return_path ∷ rest

  -- A `retain` whose closure aborts the return path of what it drops.
  unfoldable pub close_sessions : (SocketAddr → Session → Bool) → World B → World B
  unfolding aborts
  close_sessions keep w = record w {
    sessions = retain keep w.sessions;
    trace = aborts keep w.sessions ++ w.trace;
  }

  unfoldable pub session_count_for : SocketAddr → World B → ℕ
  unfolding count_for
  session_count_for backend w = count_for backend w.sessions

  unfoldable pub drop_sessions_for : SocketAddr → World B → World B
  unfolding close_sessions
  drop_sessions_for backend w = close_sessions (λ client s. not (is_for backend s)) w

  unfoldable pub clear : World B → World B
  unfolding aborts
  clear w = record w { sessions = []; trace = aborts (λ client s. false) w.sessions ++ w.trace }

module _ {B : Type 0} (os : Os B) where
  -- An existing session is seen now, and keeps its backend.
  unfoldable pub touch : SocketAddr → Session → World B → World B
  touch client s w =
      called (record w {
        sessions = insert client (record s { last_seen = os.clock w.calls }) w.sessions;
      })

  -- The task of the return path is spawned, and the clock is read.
  abbrev pub new_session : SocketAddr → ℕ → World B → Session
  new_session backend socket w = record {
    upstream = socket;
    backend = backend;
    return_path = w.calls;
    last_seen = os.clock (suc w.calls);
  }

  -- The socket is bound: the return path is spawned, and the session is entered.
  unfoldable pub open_session : SocketAddr → SocketAddr → ℕ → World B → World B
  open_session client backend socket w = record {
    sessions = insert client (new_session backend socket w) w.sessions;
    calls = suc (suc w.calls);
    trace = opened client socket w.calls ∷ w.trace;
  }

  abbrev pub bind_result :
      SocketAddr → SocketAddr → World B → Option ℕ → Result RelayError (ℕ × SocketAddr) × World B
  bind_result client backend w none = (err bind_failed, w)
  bind_result client backend w (some socket) =
      (ok (socket, backend), open_session client backend socket w)

  -- `session_for`, on what the table holds.
  abbrev pub find_or_open :
      SocketAddr
      → SocketAddr
      → World B
      → Option Session
      → Result RelayError (ℕ × SocketAddr) × World B
  find_or_open client backend w (some s) = (ok (s.upstream, s.backend), touch client s w)
  find_or_open client backend w none =
      bind_result client backend (called w) (os.bind w.calls (bind_address backend))

  unfoldable pub session_for :
      SocketAddr → SocketAddr → World B → Result RelayError (ℕ × SocketAddr) × World B
  unfolding touch open_session
  session_for client backend w = find_or_open client backend w (lookup client w.sessions)

  abbrev pub send_on :
      Bytes → Result RelayError (ℕ × SocketAddr) × World B → Result RelayError Unit × World B
  send_on datagram (err e, w) = (err e, w)
  send_on datagram (ok (socket, to), w) = (
    if os.send w.calls socket to datagram then ok tt else err send_failed,
    logged (offered socket to datagram) (called w),
  )

  unfoldable pub forward_to_backend :
      SocketAddr → SocketAddr → Bytes → World B → Result RelayError Unit × World B
  unfolding session_for
  forward_to_backend from backend datagram w = send_on datagram (session_for from backend w)

  unfoldable pub reap_idle : ℕ → World B → ℕ × World B
  unfolding close_sessions
  reap_idle timeout w =
      let w' = close_sessions (is_fresh timeout (os.clock w.calls)) (called w) in
      (length w'.sessions, w')

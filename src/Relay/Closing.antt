-- ===== src/Relay/Closing.antt =====
-- Which sessions `reap_idle`, `drop_sessions_for` and `clear` of crates/sleepytale/src/relay.rs
-- close, and what `session_count_for` counts.
use sleepytale.Base.{
  ℕ, ◌-◌, ◌≡◌, refl, ◌≢◌, ◌↔◌, Bool, not, Option, none, some, [], ◌∷◌, arith, ite,
}
use native.Mathlib.Decide.{dec_lt}
use sleepytale.Base.Map.{Map, lookup, IsUnique, lookup-retain, retain-IsUnique}
use sleepytale.Net.{SocketAddr, addr_eq, addr_key}
use sleepytale.Runtime.{Os, Session, World}
use sleepytale.Relay.{
  session_backend, close_sessions, session_count_for, count_for, drop_sessions_for, clear,
  reap_idle, is_for, is_fresh, map_backend,
}

-- No client has a session for the backend.
abbrev pub IsUnused : SocketAddr → Map SocketAddr Session → Type 0
IsUnused backend m = (client : SocketAddr) → map_backend (lookup client m) ≢ some backend

count_for-zero :
    (backend : SocketAddr) (m : Map SocketAddr Session)
    → count_for backend m ≡ 0
    → IsUnused backend m
unfolding count_for lookup
count_for-zero backend [] h client e = cc
count_for-zero backend ((c, s) ∷ m) h client e =
    ground (arith, count_for-zero backend m (ground arith) client)

-- The tail of the list has no session that the list lacks, as no client stands twice.
IsUnused-tail :
    (backend c : SocketAddr) (s : Session) (m : Map SocketAddr Session)
    → lookup c m ≡ none
    → IsUnused backend ((c, s) ∷ m)
    → IsUnused backend m
unfolding lookup
IsUnused-tail backend c s m fresh h client e = ground (arith, h client)

count_for_none :
    (backend : SocketAddr) (m : Map SocketAddr Session)
    → IsUnique m
    → IsUnused backend m
    → count_for backend m ≡ 0
unfolding count_for lookup
count_for_none backend [] u h = refl
count_for_none backend ((c, s) ∷ m) u h =
    ground (arith, h c, count_for_none backend m u.1 (IsUnused-tail backend c s m u.0 h))

-- What is left of a client's pin when a backend is gone.
abbrev pub unpinned : SocketAddr → Option SocketAddr → Option SocketAddr
unpinned backend none = none
unpinned backend (some target) = ite (addr_eq target backend) none (some target)

-- What is left of a session at a time.
abbrev pub survivor : ℕ → ℕ → Option Session → Option Session
survivor timeout now none = none
survivor timeout now (some s) = ite (dec_lt (now - s.last_seen) timeout) (some s) none

module _ {B : Type 0} where
  pub close-IsUnique :
      (p : SocketAddr → Session → Bool) (w : World B)
      → IsUnique w.sessions
      → IsUnique (close_sessions p w).sessions
  unfolding close_sessions
  close-IsUnique p w u = retain-IsUnique p w.sessions u

  pub clear-IsUnique : (w : World B) → IsUnique (clear w).sessions
  unfolding clear
  clear-IsUnique w = tt

  -- The count for a backend is 0 exactly if no client has a session for it.
  pub session_count_for-eq-zero_iff :
      (backend : SocketAddr) (w : World B)
      → IsUnique w.sessions
      → (session_count_for backend w ≡ 0)
        ↔ ((client : SocketAddr) → session_backend client w ≢ some backend)
  unfolding session_count_for session_backend
  session_count_for-eq-zero_iff backend w u =
      (count_for-zero backend w.sessions, count_for_none backend w.sessions u)

  pub pinned_counts :
      (client backend : SocketAddr) (w : World B)
      → IsUnique w.sessions
      → session_backend client w ≡ some backend
      → session_count_for backend w ≢ 0
  pinned_counts client backend w u pinned none_counted =
      (session_count_for-eq-zero_iff backend w u).0 none_counted client pinned

  -- Dropping the sessions of a backend takes them from the clients pinned to it, and leaves every
  -- other client as it was.
  pub drop_sessions_for_lem :
      (backend client : SocketAddr) (w : World B)
      → IsUnique w.sessions
      → session_backend client (drop_sessions_for backend w)
        ≡ unpinned backend (session_backend client w)
  unfolding drop_sessions_for session_backend close_sessions
  drop_sessions_for_lem backend client w u =
      ground (arith, lookup-retain (λ c s. not (is_for backend s)) client w.sessions u)

  pub close_pins_only :
      (p : SocketAddr → Session → Bool) (client target : SocketAddr) (w : World B)
      → IsUnique w.sessions
      → session_backend client (close_sessions p w) ≡ some target
      → session_backend client w ≡ some target
  unfolding close_sessions session_backend
  close_pins_only p client target w u h = ground (arith, lookup-retain p client w.sessions u)

module _ {B : Type 0} (os : Os B) where
  -- A reaping keeps a session as it is if its client was last seen less than the timeout ago, takes
  -- it away otherwise, and enters none.
  pub reap_idle_lem :
      (timeout : ℕ) (client : SocketAddr) (w : World B)
      → IsUnique w.sessions
      → lookup client (reap_idle os timeout w).1.sessions
        ≡ survivor timeout (os.clock w.calls) (lookup client w.sessions)
  unfolding reap_idle
  reap_idle_lem timeout client w u =
      ground (arith, lookup-retain (is_fresh timeout (os.clock w.calls)) client w.sessions u)

-- ===== src/Relay/Tasks.antt =====
-- The return paths that crates/sleepytale/src/relay.rs spawns and aborts.
use sleepytale.Base.{
  ℕ, ◌+◌, ◌≤◌, ◌≡◌, refl, ap, ◌∙◌, Bool, false, Option, none, some, List, [], ◌∷◌, ◌++◌, ◌==◌,
  if◌then◌else◌, arith,
}
use sleepytale.Base.Bytes.{Bytes}
use sleepytale.Base.Result.{Result, ok, err}
use sleepytale.Base.Map.{Map, lookup, insert, retain}
use sleepytale.Net.{SocketAddr, addr_key}
use sleepytale.Config.{BackendConfig}
use sleepytale.Runtime.{Os, Session, World, Event, opened, aborted, woke, stopped, start_world}
use sleepytale.Relay.{
  aborts, close_sessions, touch, open_session, session_for, forward_to_backend, clear, RelayError,
  called, logged, bind_result, find_or_open, send_on, new_session,
}

-- How often a task stands in a list.
abbrev pub occurs : ℕ → List ℕ → ℕ
occurs t [] = 0
occurs t (u ∷ us) = (if t == u then 1 else 0) + occurs t us

occurs-append : (t : ℕ) (us vs : List ℕ) → occurs t (us ++ vs) ≡ occurs t us + occurs t vs
occurs-append t [] vs = omega arith
occurs-append t (u ∷ us) vs = ground (arith, occurs-append t us vs)

-- The return paths of the sessions.
unfoldable pub live : Map SocketAddr Session → List ℕ
live [] = []
live ((client, s) ∷ m) = s.return_path ∷ live m

-- A session that is written again keeps its return path.
live-insert_old :
    (client : SocketAddr) (s s' : Session) (m : Map SocketAddr Session)
    → lookup client m ≡ some s
    → s'.return_path ≡ s.return_path
    → live (insert client s' m) ≡ live m
unfolding live lookup insert
live-insert_old client s s' [] h e = cc
live-insert_old client s s' ((c, u) ∷ m) h e = ground (arith, live-insert_old client s s' m)

live-insert_new :
    (t : ℕ) (client : SocketAddr) (s : Session) (m : Map SocketAddr Session)
    → lookup client m ≡ none
    → occurs t (live (insert client s m))
      ≡ (if t == s.return_path then 1 else 0) + occurs t (live m)
unfolding live lookup insert
live-insert_new t client s [] h = omega arith
live-insert_new t client s ((c, u) ∷ m) h = ground (arith, live-insert_new t client s m)

retain-none : (m : Map SocketAddr Session) → retain (λ c s. false) m ≡ []
unfolding retain
retain-none [] = refl
retain-none ((c, s) ∷ m) = retain-none m

module _ {B : Type 0} where
  -- The return paths that were spawned, and those that were aborted.
  unfoldable pub spawned : List (Event B) → List ℕ
  spawned [] = []
  spawned (opened client socket task ∷ es) = task ∷ spawned es
  spawned (e ∷ es) = spawned es

  unfoldable pub ended : List (Event B) → List ℕ
  ended [] = []
  ended (aborted task ∷ es) = task ∷ ended es
  ended (e ∷ es) = ended es

  -- Every return path spawned is a session's or was aborted, and none is both. The numbers of the
  -- tasks are those of the calls, and lie below the next one.
  pub record AreTracked (w : World B) : Type 0 where
    pub balance :
        (t : ℕ) → occurs t (spawned w.trace) ≡ occurs t (ended w.trace) + occurs t (live w.sessions)
    pub once : (t : ℕ) → occurs t (spawned w.trace) ≤ 1
    pub below : (t : ℕ) → w.calls ≤ t → occurs t (spawned w.trace) ≡ 0

  pub start-AreTracked : AreTracked start_world
  unfolding spawned ended live
  start-AreTracked = record { balance = λ t. refl; once = λ t. omega arith; below = λ t h. refl }

  pub called-AreTracked : (w : World B) → AreTracked w → AreTracked (called w)
  called-AreTracked w v = record {
    balance = v.balance;
    once = v.once;
    below = λ t h. v.below t (omega arith);
  }

  pub woke-AreTracked :
      (task : ℕ) (config : BackendConfig) (console : Bool) (w : World B)
      → AreTracked w
      → AreTracked (logged (woke task config console) w)
  unfolding spawned ended
  woke-AreTracked task config console w v = record {
    balance = v.balance;
    once = v.once;
    below = v.below;
  }

  pub stopped-AreTracked :
      (addr : SocketAddr) (backend : B) (w : World B)
      → AreTracked w
      → AreTracked (logged (stopped addr backend) w)
  unfolding spawned ended
  stopped-AreTracked addr backend w v = record {
    balance = v.balance;
    once = v.once;
    below = v.below;
  }

  spawned-append : (es fs : List (Event B)) → spawned (es ++ fs) ≡ spawned es ++ spawned fs
  unfolding spawned
  spawned-append [] fs = refl
  spawned-append (opened client socket task ∷ es) fs = ap (◌∷◌ task) (spawned-append es fs)
  spawned-append (e ∷ es) fs = spawned-append es fs

  ended-append : (es fs : List (Event B)) → ended (es ++ fs) ≡ ended es ++ ended fs
  unfolding ended
  ended-append [] fs = refl
  ended-append (aborted task ∷ es) fs = ap (◌∷◌ task) (ended-append es fs)
  ended-append (e ∷ es) fs = ended-append es fs

module _ (B : Type 0) (p : SocketAddr → Session → Bool) where
  spawned-aborts : (m : Map SocketAddr Session) → spawned (aborts {B = B} p m) ≡ []
  unfolding spawned aborts
  spawned-aborts [] = refl
  spawned-aborts ((c, s) ∷ m) = ground (arith, spawned-aborts m)

  -- What a `retain` takes from the sessions is aborted.
  retain_balance :
      (t : ℕ) (m : Map SocketAddr Session)
      → occurs t (live m) ≡ occurs t (ended (aborts {B = B} p m)) + occurs t (live (retain p m))
  unfolding live ended aborts retain
  retain_balance t [] = refl
  retain_balance t ((c, s) ∷ m) = ground (arith, retain_balance t m)

module _ {B : Type 0} where
  pub close-AreTracked :
      (p : SocketAddr → Session → Bool) (w : World B)
      → AreTracked w
      → AreTracked (close_sessions p w)
  unfolding close_sessions
  close-AreTracked p w v =
      let es = aborts {B = B} p w.sessions in
      let same : spawned (es ++ w.trace) ≡ spawned w.trace =
        spawned-append es w.trace
        ∙ ap (λ l. l ++ spawned w.trace) (spawned-aborts B p w.sessions) in
      record {
        balance = λ t.
            rw (same, ended-append es w.trace)
              (omega (
                arith,
                v.balance t,
                retain_balance B p t w.sessions,
                occurs-append t (ended es) (ended w.trace),
              ));
        once = λ t. rw same (v.once t);
        below = λ t h. rw same (v.below t h);
      }

  pub clear-AreTracked : (w : World B) → AreTracked w → AreTracked (clear w)
  unfolding clear close_sessions
  clear-AreTracked w v = rw (← retain-none w.sessions) (close-AreTracked (λ c s. false) w v)

module _ {B : Type 0} (os : Os B) where
  touch-AreTracked :
      (client : SocketAddr) (s : Session) (w : World B)
      → lookup client w.sessions ≡ some s
      → AreTracked w
      → AreTracked (touch os client s w)
  unfolding touch
  touch-AreTracked client s w e v =
      let now = os.clock w.calls in
      let same = live-insert_old client s (record s { last_seen = now }) w.sessions e refl in
      record {
        balance = λ t. rw same (v.balance t);
        once = v.once;
        below = λ t h. v.below t (omega arith);
      }

  open_session-AreTracked :
      (client backend : SocketAddr) (socket : ℕ) (w : World B)
      → lookup client w.sessions ≡ none
      → AreTracked w
      → AreTracked (open_session os client backend socket w)
  unfolding open_session spawned ended
  open_session-AreTracked client backend socket w e v = record {
    balance = λ t. ground (
      arith,
      v.balance t,
      live-insert_new t client (new_session os backend socket w) w.sessions e,
    );
    once = λ t. ground (arith, v.once t, v.below t);
    below = λ t h. ground (arith, v.below t (omega arith));
  }

  bind_result-AreTracked :
      (client backend : SocketAddr) (w : World B) (o : Option ℕ)
      → lookup client w.sessions ≡ none
      → AreTracked w
      → AreTracked (bind_result os client backend (called w) o).1
  bind_result-AreTracked client backend w none e v = called-AreTracked w v
  bind_result-AreTracked client backend w (some socket) e v =
      open_session-AreTracked client backend socket (called w) e (called-AreTracked w v)

  find_or_open-AreTracked :
      (client backend : SocketAddr) (w : World B) (o : Option Session)
      → lookup client w.sessions ≡ o
      → AreTracked w
      → AreTracked (find_or_open os client backend w o).1
  find_or_open-AreTracked client backend w none e v = bind_result-AreTracked client backend w _ e v
  find_or_open-AreTracked client backend w (some s) e v = touch-AreTracked client s w e v

  send_on-AreTracked :
      (datagram : Bytes) (r : Result RelayError (ℕ × SocketAddr)) (w : World B)
      → AreTracked w
      → AreTracked (send_on os datagram (r, w)).1
  unfolding spawned ended
  send_on-AreTracked datagram (ok (socket, to)) w v = record {
    balance = v.balance;
    once = v.once;
    below = λ t h. v.below t (omega arith);
  }
  send_on-AreTracked datagram (err e) w v = v

  pub forward-AreTracked :
      (client backend : SocketAddr) (datagram : Bytes) (w : World B)
      → AreTracked w
      → AreTracked (forward_to_backend os client backend datagram w).1
  unfolding forward_to_backend session_for
  forward-AreTracked client backend datagram w v =
      let (r, w') = session_for os client backend w in
      send_on-AreTracked datagram r w'
        (find_or_open-AreTracked client backend w (lookup client w.sessions) refl v)

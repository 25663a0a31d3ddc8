-- ===== src/Tests/Backends.antt =====
-- Tests of the lifecycle of the backends.
use sleepytale.Base.{
  ℕ, ◌+◌, ◌-◌, ◌≤◌, ◌≡◌, ◌≢◌, ap, ◌∙◌, refl, ite, true, ◌||◌, some, List, [], ◌∷◌, if◌then◌else◌,
  is_some, length, ltb,
}
use sleepytale.Base.Bytes.{ascii, bytes_dec}
use sleepytale.Base.Map.{lookup, insert_sorted, IsUnique}
use sleepytale.Base.Result.{ok}
use sleepytale.Base.Outcome.{to_option}
use sleepytale.Net.{SocketAddr, addr_key, addr_eq}
use sleepytale.Config.{routes, resolve, normalize}
use sleepytale.Sni.{peek_server_name}
use sleepytale.Runtime.{start_world}
use sleepytale.Relay.{called, session_backend, session_count_for}
use sleepytale.Relay.Tasks.{occurs, ended, spawned}
use sleepytale.Relay.Closing.{unpinned}
use sleepytale.Proxy.{sleeping, waking, running, State, start, wants_console, hold}
use sleepytale.Proxy.Datagram.{handle_datagram, select_target}
use sleepytale.Proxy.Tick.{supervise, idle_check}
use sleepytale.Proxy.Run.{Input, ticked, received, read_failed, rounds, run, shutdown}
use sleepytale.Proxy.Loop.{IsConsistent}
use sleepytale.Proxy.Rounds.{rounds-IsConsistent}
use sleepytale.Proxy.Targets.{handle_datagram-ok}
use sleepytale.Proxy.Held.{hold_lem}
use sleepytale.Proxy.Noise.{noise_wakes_nobody}
use sleepytale.Proxy.Once.{woken, asleep_at, woken_once}
use sleepytale.Proxy.Idle.{supervise_used, supervise_exited, supervise_stops_unused}
use sleepytale.Proxy.Shutdown.{Stopped, shutdown_stops, run_ends_tasks}
use sleepytale.Tests.Data.{
  alice, bob, lobby_address, config, table, os, exited_os, cipher, client_hello, initial, world,
  backend_at, state_at,
}
use sleepytale.Tests.Names.{initial_named, short_is_other}

-- Alice knocks for the lobby, it boots, she plays, and one datagram is lost.
abbrev events : List Input
events = received alice initial ∷ ticked ∷ received alice client_hello ∷ read_failed ∷ []

rounds-IsConsistent_example : IsConsistent (rounds cipher os config events (start config))
rounds-IsConsistent_example = rounds-IsConsistent cipher os config events

handle_datagram-ok_example :
    (handle_datagram cipher os
      (routes config)
      (wants_console config)
      bob
      initial
      (rounds cipher os config events (start config))).0
    ≡ ok tt
handle_datagram-ok_example = handle_datagram-ok cipher os config events bob initial

run_ends_tasks_example :
    let w = (run cipher os config events).world in
    (w.sessions ≡ [])
    × ((t : ℕ) → occurs t (ended w.trace) ≡ occurs t (spawned w.trace))
    × ((t : ℕ) → occurs t (spawned w.trace) ≤ 1)
run_ends_tasks_example = run_ends_tasks cipher os config events

lobby_named : peek_server_name cipher initial ≡ some (ascii "lobby.example")
unfolding peek_server_name
lobby_named = ap to_option initial_named

lobby_resolved : (resolve table (some (ascii "lobby.example"))).backend ≡ lobby_address
unfolding resolve routes normalize bytes_dec lookup insert_sorted
lobby_resolved = refl

select_lobby : select_target cipher os table true alice initial start_world ≡ lobby_address
unfolding select_target session_backend lookup
select_lobby = ap (λ name. (resolve table name).backend) lobby_named ∙ lobby_resolved

-- Alice sends a datagram that is no Initial, and a tick follows.
abbrev noise : List Input
noise = received alice client_hello ∷ ticked ∷ read_failed ∷ received bob client_hello ∷ []

noise_wakes_nobody_example :
    let s = rounds cipher os config noise (start config) in
    (s.backends ≡ (start config).backends) × (s.world.sessions ≡ []) × (s.world.trace ≡ [])
noise_wakes_nobody_example =
    noise_wakes_nobody cipher os config noise (short_is_other, (tt, (tt, (short_is_other, tt))))

-- Alice and Bob knock, and a read fails, before the next tick.
abbrev knocks : List Input
knocks = received alice initial ∷ read_failed ∷ received bob initial ∷ []

woken_once_example :
    let s = rounds cipher os config events (start config) in
    let s' = rounds cipher os config knocks s in
    (woken lobby_address s'.world.trace + asleep_at lobby_address (lookup lobby_address s'.backends)
      ≡ woken lobby_address s.world.trace
        + asleep_at lobby_address (lookup lobby_address s.backends))
    × (woken lobby_address s'.world.trace ≤ woken lobby_address s.world.trace + 1)
woken_once_example = woken_once cipher os lobby_address config events knocks (tt, (tt, (tt, tt)))

hold_lem_example :
    let m = backend_at (waking 4) ((bob, initial) ∷ []) in
    let kept = is_some (lookup alice m.held) || ltb (length m.held) 8 in
    let m' = (hold alice initial m).0 in
    ((hold alice initial m).1 ≡ kept)
    × (m' ≡ (if kept then record m { held = m'.held } else m))
    × (lookup bob m'.held ≡ (
        if kept
        then ite (addr_eq alice bob) (some initial) (lookup bob m.held)
        else lookup bob m.held))
hold_lem_example = hold_lem alice bob initial (backend_at (waking 4) ((bob, initial) ∷ []))

one_session : IsUnique world.sessions
unfolding lookup
one_session = (refl, tt)

alice_pinned : session_backend alice world ≡ some lobby_address
unfolding session_backend lookup addr_eq
alice_pinned = refl

supervise_used_example :
    supervise os 900 (backend_at (running 7) []) world ≡ (backend_at (running 7) [], called world)
supervise_used_example =
    supervise_used os 900 alice 7 (backend_at (running 7) []) world refl refl one_session
      alice_pinned

supervise_exited_example :
    ((supervise exited_os 900 (backend_at (running 7) []) world).0.lifecycle ≡ sleeping)
    × (session_backend alice (supervise exited_os 900 (backend_at (running 7) []) world).1
        ≡ unpinned lobby_address (session_backend alice world))
supervise_exited_example =
    supervise_exited exited_os 900 alice 7 (backend_at (running 7) []) world refl refl one_session

-- Empty since 0, and it is 2.
idle_stops : (supervise os 1 (backend_at (running 7) []) start_world).0.lifecycle ≡ sleeping
unfolding supervise idle_check session_count_for
idle_stops = refl

supervise_stops_unused_example :
    ((client : SocketAddr) → session_backend {B = ℕ} client start_world ≢ some lobby_address)
    × (1 ≤ 2 - 1)
supervise_stops_unused_example =
    supervise_stops_unused os 1 7 (backend_at (running 7) []) start_world refl refl tt idle_stops

abbrev up : State ℕ
up = state_at (backend_at (running 7) []) world

up_found : lookup lobby_address up.backends ≡ some (backend_at (running 7) [])
unfolding lookup addr_eq
up_found = refl

shutdown_stops_example :
    Stopped lobby_address 7 (shutdown os 10 up).world.trace
    × (lookup lobby_address (shutdown os 10 up).backends ≡ some (backend_at sleeping []))
shutdown_stops_example =
    shutdown_stops os 10 lobby_address (backend_at (running 7) []) 7 up up_found refl

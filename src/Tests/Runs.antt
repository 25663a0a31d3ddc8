-- ===== src/Tests/Runs.antt =====
-- Tests of runs in which the lobby wakes, runs, and is left.
use sleepytale.Base.{
  ℕ, ◌+◌, ◌-◌, ◌≡◌, ◌≢◌, ◌≤◌, refl, ap, ◌∙◌, false, ◌&&◌, none, some, List, [], ◌∷◌, arith, ltb,
  if◌then◌else◌,
}
use sleepytale.Base.Bytes.{ascii, bytes_dec}
use sleepytale.Base.Map.{retain, lookup, insert, insert_sorted}
use sleepytale.Net.{SocketAddr, addr_key, addr_eq, addr_before}
use sleepytale.Config.{all, routes}
use sleepytale.Runtime.{World, Os, woke, ready}
use sleepytale.Relay.{reap_idle, forward_to_backend, session_count_for, session_backend}
use sleepytale.Proxy.Run.{Input, received, ticked, rounds, round}
use sleepytale.Proxy.{State, ManagedBackend, sleeping, waking, running, start, wants_console}
use sleepytale.Proxy.Tick.{tick, tick_backends, deliver_held}
use sleepytale.Proxy.Offer.{offered_name_wakes, woken_state}
use sleepytale.Proxy.Traces.{IsLogged}
use sleepytale.Proxy.Transitions.{Moves, round-Moves}
use sleepytale.Proxy.Past.{IsMonotone}
use sleepytale.Proxy.Quiet.{SleepsAt, unused_sleeps}
use sleepytale.Proxy.Delivery.{CanBind}
use sleepytale.Proxy.Served.{Sent, offered_name_served}
use sleepytale.Proxy.Origins.{running_is_own}
use sleepytale.Sni.RoundTrip.Message.{datagram}
use sleepytale.Tests.Data.{alice, lobby, lobby_address, config, os, cipher, backend_at}
use sleepytale.Tests.Messages.{lobby_message, lobby_message-IsMessage}
use sleepytale.Tests.Offers.{accepted, same_name, long_enough}

abbrev pub lobby_asleep : {B : Type 0} → ManagedBackend B
lobby_asleep = record { config = lobby; lifecycle = sleeping; empty_since = none; held = [] }

lobby_found :
    (B : Type 0) → lookup lobby_address (start {B = B} config).backends ≡ some lobby_asleep
unfolding lookup start all routes insert_sorted addr_eq addr_before
lobby_found B = refl

abbrev pub knock_and_tick : List Input
knock_and_tick = received alice (datagram lobby_message) ∷ ticked ∷ []

module _ {B : Type 0} (os : Os B) where
  abbrev pub woken : State B
  woken =
      woken_state cipher os config (start config) lobby_address lobby_asleep alice
        (datagram lobby_message) lobby

  abbrev pub ran : State B
  ran = tick os config.idle_timeout config.session_timeout woken

  woken_lem :
      rounds cipher os config (received alice (datagram lobby_message) ∷ []) (start config) ≡ woken
  unfolding rounds round lookup bytes_dec session_backend start
  woken_lem =
      ap (λ r. r.1)
        (offered_name_wakes cipher os config [] alice lobby_message (ascii "Lobby.example.") lobby
          lobby_asleep accepted refl lobby_message-IsMessage same_name long_enough refl
          (lobby_found B) refl)

  pub ran_lem : rounds cipher os config knock_and_tick (start config) ≡ ran
  unfolding rounds round
  ran_lem = ap (tick os config.idle_timeout config.session_timeout) woken_lem

abbrev lobby_runs : ManagedBackend ℕ
lobby_runs = backend_at (running 7) []

module _ {B : Type 0} (os : Os B) (m : ManagedBackend B) where
  -- What the run has come to, read off the state that it has been computed to.
  pub after_run :
      lookup lobby_address (ran os).backends ≡ some m
      → lookup lobby_address (rounds cipher os config knock_and_tick (start config)).backends
        ≡ some m
  after_run h = ap (λ s. lookup lobby_address s.backends) (ran_lem os) ∙ h

stands : lookup lobby_address (ran os).backends ≡ some lobby_runs
unfolding tick start lookup routes all insert insert_sorted addr_eq addr_before reap_idle
    tick_backends forward_to_backend bytes_dec session_count_for deliver_held retain
stands = refl

running_is_own_example :
    (task : ℕ) × (n : ℕ) × IsLogged
      (woke task lobby (false && wants_console config))
      (rounds cipher os config knock_and_tick (start config)).world.trace
    × (os.finished n task ≡ some (ready 7))
unfolding lookup bytes_dec
running_is_own_example =
    running_is_own cipher os config knock_and_tick (ascii "Lobby.example.") lobby lobby_runs 7
      accepted refl (after_run os lobby_runs stands) refl

-- Nothing can be bound, so Alice gets no session; and much time passes before call 12.
abbrev deaf_os : Os ℕ
deaf_os = record os { bind = λ n a. none; clock = λ n. if ltb n 12 then n else n + 1000 }

abbrev lobby_left : ManagedBackend ℕ
lobby_left = record lobby_runs { empty_since = some 3 }

left : lookup lobby_address (ran deaf_os).backends ≡ some lobby_left
unfolding tick start lookup routes all insert insert_sorted addr_eq addr_before reap_idle
    tick_backends forward_to_backend bytes_dec session_count_for deliver_held retain
left = refl

nobody : (ran deaf_os).world.sessions ≡ []
unfolding tick start lookup routes all insert insert_sorted addr_eq addr_before reap_idle
    tick_backends forward_to_backend bytes_dec session_count_for deliver_held retain
nobody = refl

no_sessions :
    (client a : SocketAddr) (w : World ℕ) → w.sessions ≡ [] → session_backend client w ≢ some a
unfolding session_backend lookup
no_sessions client a w e h = cc

nobody_left :
    (client : SocketAddr)
    → session_backend client (rounds cipher deaf_os config knock_and_tick (start config)).world
      ≢ some lobby_address
nobody_left client e =
    no_sessions client lobby_address _ (ap (λ s. s.world.sessions) (ran_lem deaf_os) ∙ nobody) e

monotone : IsMonotone deaf_os
monotone i j le = ground arith

answered : (n : ℕ) → deaf_os.has_exited n 7 ≢ none
answered n e = cc

first_calls : (tick deaf_os 900 90 (ran deaf_os)).world.calls ≡ 12
unfolding tick start lookup routes all insert insert_sorted addr_eq addr_before reap_idle
    tick_backends forward_to_backend bytes_dec session_count_for deliver_held retain
first_calls = refl

abbrev left_state : State ℕ
left_state = rounds cipher deaf_os config knock_and_tick (start config)

late :
    deaf_os.clock ((round cipher deaf_os config ticked left_state).world.calls - 1) + 900
    ≤ deaf_os.clock (round cipher deaf_os config ticked left_state).world.calls
unfolding round
late =
    let calls = ap (λ s. (tick deaf_os 900 90 s).world.calls) (ran_lem deaf_os) ∙ first_calls in
    rw calls (omega arith)

unused_sleeps_example :
    SleepsAt lobby_address
      (round cipher deaf_os config ticked (round cipher deaf_os config ticked left_state))
unused_sleeps_example =
    unused_sleeps cipher deaf_os config knock_and_tick lobby_address lobby_left 7 monotone
      (after_run deaf_os lobby_left left) refl nobody_left answered late

nothing_held :
    (a : SocketAddr) (n : ManagedBackend ℕ)
    → lookup a (start {B = ℕ} config).backends ≡ some n
    → lookup alice n.held ≡ none
unfolding start lookup routes all insert_sorted addr_eq addr_before
nothing_held a n e = ground arith

bindable : CanBind os
bindable n a = refl

done : (n : ℕ) → os.finished n 0 ≡ some (ready 7)
done n = refl

offered_name_served_example :
    Sent lobby_address
      (datagram lobby_message)
      (round cipher os config ticked
        (round cipher os config (received alice (datagram lobby_message)) (start config))).world
unfolding rounds start session_backend lookup bytes_dec
offered_name_served_example =
    offered_name_served cipher os config [] alice lobby_message (ascii "Lobby.example.") lobby
      lobby_asleep 7 accepted refl lobby_message-IsMessage same_name long_enough refl nothing_held
      (lobby_found ℕ) refl bindable done

abbrev lobby_wakes : ManagedBackend ℕ
lobby_wakes = backend_at (waking 0) ((alice, datagram lobby_message) ∷ [])

wakes_there : lookup lobby_address (woken os).backends ≡ some lobby_wakes
unfolding start lookup routes all insert insert_sorted addr_eq addr_before
wakes_there = refl

round-Moves_example : Moves os ticked (waking 0) (running 7)
unfolding rounds round
round-Moves_example =
    round-Moves cipher os config (received alice (datagram lobby_message) ∷ []) ticked lobby_address
      lobby_wakes lobby_runs
      (ap (λ s. lookup lobby_address s.backends) (woken_lem os) ∙ wakes_there)
      (after_run os lobby_runs stands)

-- ===== src/Tests/Children.antt =====
-- Tests of the proxy with a backend that is a child of it.
use sleepytale.Base.{
  ℕ, ◌≡◌, refl, ap, ◌∙◌, inl, inr, Bool, false, ◌&&◌, Option, none, some, List, [], ◌∷◌,
}
use sleepytale.Base.Bytes.{ascii, bytes_dec}
use sleepytale.Base.Map.{retain, lookup, insert, insert_sorted}
use sleepytale.Net.{addr_key, addr_eq, addr_before}
use sleepytale.Config.{BackendConfig, all, routes}
use sleepytale.Runtime.{Os, Event, woke, Wake, ready, start_failed}
use sleepytale.Relay.{reap_idle, forward_to_backend, session_count_for}
use sleepytale.Process.Child.{ProcessBackend, Past, command_of}
use sleepytale.Process.Startup.{startup}
use sleepytale.Process.Booting.{Boots, unstarted, startup-ready_iff}
use sleepytale.Proxy.{ManagedBackend, running, start, wants_console}
use sleepytale.Proxy.Tick.{tick, tick_backends, deliver_held}
use sleepytale.Proxy.Run.{rounds}
use sleepytale.Proxy.Traces.{IsLogged}
use sleepytale.Proxy.Children.{AwaitsStartups, route_runs_its_server}
use sleepytale.Tests.Data.{lobby, lobby_address, config, cipher}
use sleepytale.Tests.Offers.{accepted}
use sleepytale.Tests.Runs.{knock_and_tick, ran, ran_lem, after_run}
use sleepytale.Tests.Processes.{stubborn, past, address_text}

abbrev server : ProcessBackend
server = record (unstarted address_text stubborn config lobby false) {
  child = some (record { handle = 6; reaped = false });
  started_at = some 1;
}

server_boots : (startup address_text stubborn config lobby false past).0 ≡ ready server
server_boots =
    (startup-ready_iff address_text stubborn config lobby false past server).1
      (refl, refl, inr (inr refl), refl)

-- Every startup task gives that server; no upstream socket can be bound.
abbrev server_os : Os ProcessBackend
server_os = record {
  clock = λ n. n;
  bind = λ n a. none;
  send = λ n socket to datagram. false;
  finished = λ n task. some (ready server);
  within_grace = λ n task grace. none;
  has_exited = λ n backend. some false;
}

abbrev served : ManagedBackend ProcessBackend
served = record { config = lobby; lifecycle = running server; empty_since = some 3; held = [] }

stands : lookup lobby_address (ran server_os).backends ≡ some served
unfolding tick start lookup routes all insert insert_sorted addr_eq addr_before reap_idle
    tick_backends forward_to_backend bytes_dec session_count_for deliver_held retain
stands = refl

one_task : (ran server_os).world.trace ≡ woke 0 lobby false ∷ []
unfolding tick start lookup routes all insert insert_sorted addr_eq addr_before reap_idle
    tick_backends forward_to_backend bytes_dec session_count_for deliver_held retain wants_console
one_task = refl

abbrev woken_config : Event ProcessBackend → BackendConfig
woken_config (woke task c console) = c
woken_config e = lobby

abbrev woken_console : Event ProcessBackend → Bool
woken_console (woke task c console) = console
woken_console e = false

one_startup :
    (task : ℕ) (c : BackendConfig) (console : Bool) (trace : List (Event ProcessBackend))
    → trace ≡ woke 0 lobby false ∷ []
    → IsLogged (woke task c console) trace
    → (startup address_text stubborn config c console past).0 ≡ ready server
one_startup task c console trace e h = elim (rw e at h) [
  | inl q ↦ rw (← ap woken_config q, ← ap woken_console q) server_boots
  | inr nothing ↦ absurd nothing
]

abbrev outcome : Option (Wake ProcessBackend) → Wake ProcessBackend
outcome none = start_failed
outcome (some w) = w

one_trace :
    (rounds cipher server_os config knock_and_tick (start config)).world.trace
    ≡ woke 0 lobby false ∷ []
one_trace = ap (λ s. s.world.trace) (ran_lem server_os) ∙ one_task

awaits :
    AwaitsStartups address_text stubborn config server_os
      (rounds cipher server_os config knock_and_tick (start config)).world.trace
awaits n task c console p h e = (past, one_startup task c console _ one_trace h ∙ ap outcome e)

route_runs_its_server_example :
    (w : Past) × Boots address_text stubborn config lobby
      (false && wants_console config)
      w.calls
      (stubborn.spawn w.calls
        (command_of (unstarted address_text stubborn config lobby (false && wants_console config))))
      server
unfolding lookup bytes_dec
route_runs_its_server_example =
    route_runs_its_server address_text stubborn config cipher server_os knock_and_tick
      (ascii "Lobby.example.") lobby served server accepted awaits refl
      (after_run server_os served stands) refl

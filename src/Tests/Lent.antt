-- ===== src/Tests/Lent.antt =====
-- Tests of the console that is given to the default backend, which fails to start and wakes again.
use sleepytale.Base.{ℕ, ◌≡◌, refl, inl, inr, true, some, List, [], ◌∷◌, replicate}
use sleepytale.Base.Bytes.{Bytes, bytes_dec}
use sleepytale.Base.Map.{lookup, insert, insert_sorted, retain}
use sleepytale.Net.{addr_eq, addr_before}
use sleepytale.Config.{BackendConfig, all, routes, default_backend, resolve}
use sleepytale.Sni.{peek, peek_server_name}
use sleepytale.Sni.Header.{parse_long_header}
use sleepytale.Sni.Reader.{new, u8, u32, take, cid, varint, append_bytes, skip}
use sleepytale.Knock.{is_quic_initial}
use sleepytale.Runtime.{Os, Event, woke, start_failed}
use sleepytale.Relay.{reap_idle, session_backend}
use sleepytale.Proxy.{start, wake, hold, wants_console}
use sleepytale.Proxy.Datagram.{handle_datagram}
use sleepytale.Proxy.Run.{Input, ticked, received, rounds, round}
use sleepytale.Proxy.Tick.{tick, tick_backends}
use sleepytale.Proxy.Lending.{one_console}
use sleepytale.Tests.Data.{alice, config, cipher, os}
use sleepytale.Tests.Offers.{accepted}

-- An Initial that is cut off before its packet number: it has no name.
abbrev nameless : Bytes
nameless = 0xc0 ∷ 0 ∷ 0 ∷ 0 ∷ 1 ∷ replicate 1195 0

abbrev failing_os : Os ℕ
failing_os = record os { finished = λ n task. some start_failed }

abbrev twice : List Input
twice = received alice nameless ∷ ticked ∷ received alice nameless ∷ []

abbrev main : BackendConfig
main = record { backend = config.backend; server = config.server }

abbrev trace : List (Event ℕ)
trace = (rounds cipher failing_os config twice (start config)).world.trace

logged_twice : trace ≡ woke 3 main true ∷ woke 0 main true ∷ []
unfolding rounds round tick handle_datagram start lookup routes all insert insert_sorted addr_eq
    addr_before reap_idle tick_backends session_backend retain resolve is_quic_initial wake hold
    wants_console peek_server_name peek parse_long_header new u8 u32 take cid varint append_bytes
    skip default_backend bytes_dec
logged_twice = refl

one_console_example : (main ≡ main) × (main.server.forward_stdin ≡ true)
one_console_example =
    one_console cipher failing_os config twice 3 0 main main accepted (rw logged_twice (inl refl))
      (rw logged_twice (inr (inl refl)))

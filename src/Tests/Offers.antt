-- ===== src/Tests/Offers.antt =====
-- Tests of a client that offers the name of a route.
use sleepytale.Base.{ℕ, ◌≡◌, ◌≤◌, refl, false, ◌&&◌, some, [], ◌∷◌, arith, length}
use sleepytale.Base.Bytes.{ascii, bytes_dec}
use sleepytale.Base.Map.{lookup, insert, insert_sorted}
use sleepytale.Base.Result.{ok}
use sleepytale.Net.{addr_key, addr_eq, addr_before}
use sleepytale.Config.{all, routes, normalize}
use sleepytale.Config.Validate.{validate}
use sleepytale.Knock.{min_initial}
use sleepytale.Runtime.{woke, start_world}
use sleepytale.Relay.{called, logged, session_backend}
use sleepytale.Proxy.Run.{rounds}
use sleepytale.Proxy.{State, sleeping, waking, start, wants_console}
use sleepytale.Proxy.Datagram.{handle_datagram}
use sleepytale.Proxy.Offer.{offered_name_wakes}
use sleepytale.Sni.RoundTrip.Message.{datagram}
use sleepytale.Sni.RoundTrip.Numbers.{varint_bytes}
use sleepytale.Tests.Data.{alice, lobby, lobby_address, config, os, cipher, backend_at}
use sleepytale.Tests.Messages.{lobby_message, lobby_message-IsMessage}

abbrev at_start : State ℕ
at_start = start config

pub accepted : validate config ≡ ok tt
unfolding validate addr_eq lookup insert_sorted
accepted = refl

lobby_found : lookup lobby_address at_start.backends ≡ some (backend_at sleeping [])
unfolding lookup start all routes insert_sorted addr_eq addr_before
lobby_found = refl

pub same_name : normalize (ascii "Lobby.example") ≡ normalize (ascii "Lobby.example.")
unfolding normalize
same_name = refl

pub long_enough : min_initial ≤ length (datagram lobby_message)
unfolding varint_bytes
long_enough = omega arith

offered_name_wakes_example :
    handle_datagram cipher os
      (routes config)
      (wants_console config)
      alice
      (datagram lobby_message)
      at_start
    ≡ (
      ok tt,
      record {
        world = logged (woke 0 lobby (false && wants_console config)) (called start_world);
        backends =
            insert lobby_address
              (backend_at (waking 0) ((alice, datagram lobby_message) ∷ []))
              at_start.backends;
      },
    )
unfolding lookup bytes_dec session_backend rounds start
offered_name_wakes_example =
    offered_name_wakes cipher os config [] alice lobby_message (ascii "Lobby.example.") lobby
      (backend_at sleeping []) accepted refl lobby_message-IsMessage same_name long_enough refl
      lobby_found refl

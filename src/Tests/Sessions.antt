-- ===== src/Tests/Sessions.antt =====
-- Tests of the relay, with Alice on the lobby.
use sleepytale.Base.{◌+◌, length, ◌≡◌, refl, not, ◌==◌, Option, none, some, List, [], ◌∷◌, ◌++◌}
use sleepytale.Base.Bytes.{Bytes, ascii}
use sleepytale.Base.Map.{lookup, retain, IsUnique}
use sleepytale.Net.{SocketAddr, addr_key, addr_eq}
use sleepytale.Runtime.{offered, opened}
use sleepytale.Relay.{session_backend, forward_to_backend, reap_idle}
use sleepytale.Relay.Sessions.{pin_or, forward_keeps_pins}
use sleepytale.Relay.Closing.{survivor, reap_idle_lem}
use sleepytale.Relay.ReturnPath.{
  Sends, return_path, received, to_client, AllReach, StopsAt, return_path_lem,
}
use sleepytale.Proxy.Tick.{deliver_held}
use sleepytale.Proxy.Delivery.{Offered, CanBind, forward_offers, deliver_held_offers}
use sleepytale.Tests.Data.{alice, bob, main_address, lobby_address, os, world}

one_session : IsUnique world.sessions
unfolding lookup
one_session = (refl, tt)

alice_pinned : session_backend alice world ≡ some lobby_address
unfolding session_backend lookup addr_eq
alice_pinned = refl

bob_opens :
    (forward_to_backend os bob main_address (ascii "hi") world).1.trace
    ≡ offered 10 main_address (ascii "hi") ∷ opened bob 10 11 ∷ []
unfolding forward_to_backend session_backend lookup addr_eq
bob_opens = refl

forward_keeps_pins_example :
    session_backend alice (forward_to_backend os alice main_address (ascii "hi") world).1
    ≡ some lobby_address
forward_keeps_pins_example =
    forward_keeps_pins os alice alice main_address lobby_address (ascii "hi") world alice_pinned

-- Alice was seen at 2, and it is 10.
reap_idle_lem_example :
    lookup alice (reap_idle os 8 world).1.sessions ≡ survivor 8 10 (lookup alice world.sessions)
reap_idle_lem_example = reap_idle_lem os 8 alice world one_session

reaped : (reap_idle os 8 world).1.sessions ≡ []
unfolding reap_idle retain
reaped = refl

not_reaped : (reap_idle os 9 world).0 ≡ 1
unfolding reap_idle retain
not_reaped = refl

can_bind : CanBind os
can_bind n a = refl

forward_offers_example :
    Offered
      (pin_or (session_backend bob world) main_address)
      (ascii "hi")
      (forward_to_backend os bob main_address (ascii "hi") world).1.trace
forward_offers_example = forward_offers os bob main_address (ascii "hi") world can_bind

held_once : IsUnique ((alice, ascii "hi") ∷ [])
unfolding lookup
held_once = (refl, tt)

held_found : lookup alice ((alice, ascii "hi") ∷ []) ≡ some (ascii "hi")
unfolding lookup addr_eq
held_found = refl

-- What is held for Alice while the main backend boots goes to the lobby, where her session is.
deliver_held_offers_example :
    Offered
      (pin_or (session_backend alice world) main_address)
      (ascii "hi")
      (deliver_held os main_address ((alice, ascii "hi") ∷ []) world).trace
deliver_held_offers_example =
    deliver_held_offers os main_address alice (ascii "hi") ((alice, ascii "hi") ∷ []) world can_bind
      held_once held_found

held_goes_elsewhere :
    (deliver_held os main_address ((alice, ascii "hi") ∷ []) world).trace
    ≡ offered 3 lobby_address (ascii "hi") ∷ []
unfolding deliver_held forward_to_backend lookup addr_eq
held_goes_elsewhere = refl

-- The second send fails, and an error follows the third reply.
abbrev replies : List (Option Bytes)
replies = some (ascii "a") ∷ some (ascii "b") ∷ some (ascii "c") ∷ none ∷ []

abbrev loses : Sends
loses n client reply = not (n == 1)

two_sent : return_path loses alice 0 replies ≡ (alice, ascii "a") ∷ (alice, ascii "b") ∷ []
unfolding return_path
two_sent = refl

return_path_lem_example :
    (reached : List Bytes) × (rest : List Bytes) × (tried : List (SocketAddr × Bytes)) × (received
        replies
      ≡ reached ++ rest)
    × (return_path loses alice 0 replies ≡ to_client alice reached ++ tried)
    × AllReach loses alice 0 reached
    × StopsAt loses alice (0 + length reached) rest tried
return_path_lem_example = return_path_lem loses alice 0 replies

-- ===== src/Relay/ReturnPath.antt =====
-- The loop of `spawn_return_path` in crates/sleepytale/src/relay.rs, until it returns or is aborted.
use sleepytale.Base.{
  ℕ, suc, ◌+◌, ◌≡◌, refl, ap, inl, inr, Bool, true, false, Option, none, some, List, [], ◌∷◌, ◌++◌,
  length, arith, if◌then◌else◌, Bool-cases,
}
use sleepytale.Base.Bytes.{Bytes}
use sleepytale.Net.{SocketAddr}

-- Whether the n-th call of `send_to` succeeds.
abbrev pub Sends : Type 0
Sends = ℕ → SocketAddr → Bytes → Bool

-- What `recv` gives is the list, an error as none. The result is the calls of `send_to`, in order:
-- to whom, and what.
unfoldable pub return_path :
    Sends → SocketAddr → ℕ → List (Option Bytes) → List (SocketAddr × Bytes)
return_path send client n [] = []
return_path send client n (none ∷ replies) = []
return_path send client n (some reply ∷ replies) =
    let more = return_path send client (suc n) replies in
    (client, reply) ∷ (if send n client reply then more else [])

-- The replies before the first error.
abbrev pub received : List (Option Bytes) → List Bytes
received [] = []
received (none ∷ replies) = []
received (some reply ∷ replies) = reply ∷ received replies

abbrev pub to_client : SocketAddr → List Bytes → List (SocketAddr × Bytes)
to_client client [] = []
to_client client (reply ∷ replies) = (client, reply) ∷ to_client client replies

-- The calls from the n-th on bring all of these to the client.
abbrev pub AllReach : Sends → SocketAddr → ℕ → List Bytes → Type 0
AllReach send client n [] = Unit
AllReach send client n (reply ∷ replies) =
    (send n client reply ≡ true) × AllReach send client (suc n) replies

-- After the replies that have reached the client: there is no further one, or the next one was tried,
-- and failed, and nothing was tried after it.
abbrev pub StopsAt : Sends → SocketAddr → ℕ → List Bytes → List (SocketAddr × Bytes) → Type 0
StopsAt send client n [] tried = tried ≡ []
StopsAt send client n (lost ∷ rest) tried =
    (send n client lost ≡ false) × (tried ≡ (client, lost) ∷ [])

stops_at :
    (send : Sends) (client : SocketAddr) (n m : ℕ) (rest : List Bytes)
    (tried : List (SocketAddr × Bytes))
    → n ≡ m
    → StopsAt send client n rest tried
    → StopsAt send client m rest tried
stops_at send client n m rest tried e h = rw e at h

-- The replies that are received before the first error fall into those that reached the client and
-- those that did not. All of the first were sent to the client, unchanged and in their order; of the
-- others the first was sent too, to the client, in a call that failed, and no further one was.
pub return_path_lem :
    (send : Sends) (client : SocketAddr) (n : ℕ) (replies : List (Option Bytes))
    → (reached : List Bytes) × (rest : List Bytes) × (tried : List (SocketAddr × Bytes)) × (received
          replies
        ≡ reached ++ rest)
      × (return_path send client n replies ≡ to_client client reached ++ tried)
      × AllReach send client n reached
      × StopsAt send client (n + length reached) rest tried
unfolding return_path
return_path_lem send client n [] = ([], [], [], refl, refl, tt, refl)
return_path_lem send client n (none ∷ replies) = ([], [], [], refl, refl, tt, refl)
return_path_lem send client n (some reply ∷ replies) = elim (Bool-cases (send n client reply)) [
  | inl sent ↦
      let (reached, rest, tried, all, calls, ok, stop) =
        return_path_lem send client (suc n) replies in
      (
        reply ∷ reached,
        rest,
        tried,
        ap (◌∷◌ reply) all,
        rw sent (ap (◌∷◌ (client, reply)) calls),
        (sent, ok),
        stops_at send client _ _ rest tried (omega arith) stop,
      )
  | inr lost ↦ (
    [],
    reply ∷ received replies,
    (client, reply) ∷ [],
    refl,
    rw lost refl,
    tt,
    stops_at send client n _ (reply ∷ received replies) ((client, reply) ∷ []) (omega arith)
        (lost, refl),
  )
]

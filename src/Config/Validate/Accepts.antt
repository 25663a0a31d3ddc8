-- ===== src/Config/Validate/Accepts.antt =====
-- What `Config::validate` of crates/sleepytale/src/config.rs accepts.
use sleepytale.Base.{refl, ◌≤◌, ◌≡◌, ◌≢◌, ◌↔◌, true, not, [], ◌∷◌, length, arith, All, none}
use sleepytale.Base.Bytes.{Bytes, bytes_key}
use sleepytale.Base.Map.{Map, lookup, insert_sorted}
use sleepytale.Base.Distinct.{IsDistinct, AreNew, AreNew-nil, AreNew-insert, AreNew-cons}
use sleepytale.Base.Result.{ok}
use sleepytale.Net.{SocketAddr, port, addr_key}
use sleepytale.Config.{BackendConfig, Config, max_server_name, normalize}
use sleepytale.Config.Validate.{
  Owner, default_owner, route_owner, is_empty, validate_routes, interactive, validate,
}

abbrev Route : Type 0
Route = Bytes × BackendConfig

abbrev pub name_key : Route → Bytes
name_key r = normalize r.0

abbrev pub backend_key : Route → SocketAddr
backend_key r = r.1.backend

-- A route by itself: a name of 1 to 253 bytes, a fixed port, not the proxy's own address, a command.
abbrev pub IsRoute : SocketAddr → Route → Type 0
IsRoute listen (name, route) =
    ((1 ≤ length name) × (length name ≤ max_server_name))
    × (port route.backend ≢ 0)
    × (route.backend ≢ listen)
    × (route.server.command ≢ [])

-- The whole configuration: also no two routes share a name, no two backends an address, and at
-- most one backend takes the console.
abbrev pub IsValid : Config → Type 0
IsValid c =
    (c.listen ≢ c.backend)
    × (port c.listen ≢ 0)
    × (port c.backend ≢ 0)
    × (c.server.command ≢ [])
    × All (IsRoute c.listen) c.routes
    × IsDistinct name_key c.routes
    × (All (λ r. c.backend ≢ r.1.backend) c.routes × IsDistinct backend_key c.routes)
    × (interactive c ≤ 1)

is_empty_iff : (s : Bytes) → (not (is_empty s) ≡ true) ↔ (s ≢ [])
is_empty_iff [] = (λ h. cc, λ h. absurd (h refl))
is_empty_iff (c ∷ s) = (λ h e. cc, λ h. refl)

-- One round: the route's own checks, and the two maps.
round_iff :
    (listen : SocketAddr) (names : Map Bytes Bytes) (backends : Map SocketAddr Owner) (name : Bytes)
    (route : BackendConfig) (rest : Map Bytes BackendConfig)
    → (validate_routes listen names backends ((name, route) ∷ rest) ≡ ok tt) ↔ (
        IsRoute listen (name, route)
        × (lookup (normalize name) names ≡ none)
        × (lookup route.backend backends ≡ none)
        × (validate_routes listen
              (insert_sorted (normalize name) name names)
              (insert_sorted route.backend (route_owner name) backends)
              rest
            ≡ ok tt))
unfolding validate_routes
round_iff listen names backends name route rest = ground (arith, is_empty_iff route.server.command)

-- The loop, from any maps that it has filled so far.
loop_iff :
    (listen : SocketAddr) (names : Map Bytes Bytes) (backends : Map SocketAddr Owner)
    (rs : Map Bytes BackendConfig)
    → (validate_routes listen names backends rs ≡ ok tt) ↔ (
        All (IsRoute listen) rs
        × (AreNew name_key names rs × IsDistinct name_key rs)
        × (AreNew backend_key backends rs × IsDistinct backend_key rs))
unfolding validate_routes
loop_iff listen names backends [] = (λ h. (tt, (tt, tt), (tt, tt)), λ h. refl)
loop_iff listen names backends ((name, route) ∷ rest) =
    let round = round_iff listen names backends name route rest in
    let ih =
      loop_iff listen (insert_sorted (normalize name) name names)
        (insert_sorted route.backend (route_owner name) backends) rest in
    let by_name = AreNew-cons name_key name names (name, route) rest in
    let by_backend = AreNew-cons backend_key (route_owner name) backends (name, route) rest in
    (
      λ h.
          let r = round.0 h in
          let k = ih.0 r.3 in
          ((r.0, k.0), by_name.0 (r.1, k.1.0, k.1.1), by_backend.0 (r.2, k.2.0, k.2.1)),
      λ h.
          let n = by_name.1 h.1 in
          let b = by_backend.1 h.2 in
          round.1 (h.0.0, n.0, b.0, ih.1 (h.0.1, (n.1, n.2), (b.1, b.2))),
    )

-- The checks before and after the loop.
frame_iff :
    (c : Config)
    → (validate c ≡ ok tt) ↔ (
        (c.listen ≢ c.backend)
        × (port c.listen ≢ 0)
        × (port c.backend ≢ 0)
        × (c.server.command ≢ [])
        × (validate_routes c.listen [] (insert_sorted c.backend default_owner []) c.routes ≡ ok tt)
        × (interactive c ≤ 1))
unfolding validate
frame_iff c = ground (arith, is_empty_iff c.server.command)

-- A configuration is accepted exactly when: the proxy listens elsewhere than on the default
-- backend, both at fixed ports, and its command is not empty; each route has a name of 1 to 253
-- bytes, a fixed port, another address than the proxy's and a command; no two names are the same
-- but for case and a final dot; no two backends share an address; at most one backend reads the
-- console.
pub validate-ok_iff : (c : Config) → (validate c ≡ ok tt) ↔ IsValid c
validate-ok_iff c =
    let first = insert_sorted c.backend default_owner [] in
    let frame = frame_iff c in
    let loop = loop_iff c.listen [] first c.routes in
    let taken = AreNew-insert backend_key c.backend default_owner [] c.routes in
    let no_name = AreNew-nil Bytes name_key c.routes in
    let no_backend = AreNew-nil Owner backend_key c.routes in
    (
      λ h.
          let f = frame.0 h in
          let l = loop.0 f.4 in (f.0, f.1, f.2, f.3, l.0, l.1.1, ((taken.0 l.2.0).0, l.2.1), f.5),
      λ h.
          let l = loop.1 (h.4, (no_name, h.5), (taken.1 (h.6.0, no_backend), h.6.1)) in
          frame.1 (h.0, h.1, h.2, h.3, l, h.7),
    )

-- ===== src/Config/Resolve.antt =====
-- The route table of crates/sleepytale/src/config.rs after the configuration has been accepted.
use sleepytale.Base.{◌≡◌, ◌≢◌, Option, none, some, [], ◌∷◌, All, arith, refl}
use sleepytale.Base.Bytes.{Bytes, bytes_key}
use sleepytale.Base.Map.{Map, lookup, insert_sorted, lookup-insert_sorted}
use sleepytale.Base.Distinct.{IsDistinct}
use sleepytale.Base.Result.{ok}
use sleepytale.Config.{
  BackendConfig, Config, normalize, collect_routes, routes, resolve, default_backend,
}
use sleepytale.Config.Validate.{validate}
use sleepytale.Config.Validate.Accepts.{name_key, validate-ok_iff}

-- A name that no further route has is found as before.
collect_other :
    (k : Bytes) (table rs : Map Bytes BackendConfig)
    → All (λ r. k ≢ name_key r) rs
    → lookup k (collect_routes table rs) ≡ lookup k table
unfolding collect_routes
collect_other k table [] h = refl
collect_other k table ((name, route) ∷ rs) h = ground (
  arith,
  collect_other k (insert_sorted (normalize name) route table) rs h.1,
  lookup-insert_sorted (normalize name) k route table,
)

collect_route :
    (name : Bytes) (route : BackendConfig) (table rs : Map Bytes BackendConfig)
    → lookup name rs ≡ some route
    → IsDistinct name_key rs
    → lookup (normalize name) (collect_routes table rs) ≡ some route
unfolding collect_routes lookup
collect_route name route table [] h d = cc
collect_route name route table ((n, b) ∷ rs) h d = ground (
  arith,
  collect_other (normalize n) (insert_sorted (normalize n) b table) rs d.0,
  collect_route name route (insert_sorted (normalize n) b table) rs,
  lookup-insert_sorted (normalize n) (normalize n) b table,
)

-- In an accepted configuration, a client that asks for a route's name, in any case and with or
-- without a final dot, gets that route.
pub resolve-routes :
    (c : Config) (name asked : Bytes) (route : BackendConfig)
    → validate c ≡ ok tt
    → lookup name c.routes ≡ some route
    → normalize asked ≡ normalize name
    → resolve (routes c) (some asked) ≡ route
unfolding resolve routes
resolve-routes c name asked route accepted has same =
    let distinct = ((validate-ok_iff c).0 accepted).5 in
    rw same (ground (arith, collect_route name route [] c.routes has distinct))

-- A client that names no route, or no server at all, gets the default backend.
pub resolve-routes_default :
    (c : Config) (asked : Option Bytes)
    → ((name : Bytes) → asked ≡ some name → All (λ r. normalize name ≢ name_key r) c.routes)
    → resolve (routes c) asked ≡ default_backend c
unfolding resolve routes lookup
resolve-routes_default c none other = refl
resolve-routes_default c (some asked) other =
    ground (arith, collect_other (normalize asked) [] c.routes (other asked refl))

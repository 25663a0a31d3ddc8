-- ===== src/Tests/Settings.antt =====
-- Tests of the configuration.
use sleepytale.Base.{◌≡◌, ◌↔◌, refl, some, [], ◌∷◌}
use sleepytale.Base.Bytes.{ascii, bytes_key, bytes_dec}
use sleepytale.Base.Map.{lookup, insert_sorted}
use sleepytale.Base.Result.{ok, err}
use sleepytale.Config.{default_config, routes, resolve, normalize}
use sleepytale.Config.Validate.{same_name, validate}
use sleepytale.Config.Validate.Accepts.{IsValid, validate-ok_iff}
use sleepytale.Config.Resolve.{resolve-routes}
use sleepytale.Net.{addr_eq, addr_key}
use sleepytale.Tests.Data.{config, lobby}

default_accepted : validate default_config ≡ ok tt
unfolding validate addr_eq
default_accepted = refl

accepted : validate config ≡ ok tt
unfolding validate addr_eq lookup insert_sorted
accepted = refl

twice_refused :
    validate (record config { routes = (ascii "a", lobby) ∷ (ascii "A.", lobby) ∷ [] })
    ≡ err (same_name (ascii "a") (ascii "A."))
unfolding validate addr_eq bytes_dec lookup normalize insert_sorted
twice_refused = refl

validate-ok_iff_example : (validate config ≡ ok tt) ↔ IsValid config
validate-ok_iff_example = validate-ok_iff config

lobby_found : lookup (ascii "Lobby.example.") config.routes ≡ some lobby
unfolding lookup bytes_dec
lobby_found = refl

same_lobby : normalize (ascii "LOBBY.example") ≡ normalize (ascii "Lobby.example.")
unfolding normalize
same_lobby = refl

resolve-routes_example : resolve (routes config) (some (ascii "LOBBY.example")) ≡ lobby
resolve-routes_example =
    resolve-routes config (ascii "Lobby.example.") (ascii "LOBBY.example") lobby accepted
      lobby_found same_lobby

-- ===== src/Tests/Serving.antt =====
-- Tests of the command line and the public socket.
use sleepytale.Base.{ℕ, ◌≡◌, ◌↔◌, refl, true, false, some, List, [], ◌∷◌}
use sleepytale.Base.Bytes.{Bytes, ascii}
use sleepytale.Base.Map.{lookup, insert_sorted}
use sleepytale.Base.Result.{ok}
use sleepytale.Net.{v6, addr_eq}
use sleepytale.Config.{Config}
use sleepytale.Config.Validate.{validate}
use sleepytale.Proxy.Run.{Input, ticked, received, run}
use sleepytale.Proxy.Serve.{
  Sockets, ipv6, create, set_only_v6, set_nonblocking, bind_to, hand_over, bind_public, serve,
  console,
}
use sleepytale.Proxy.Binding.{IsBound, calls_for, bind_public-ok_iff}
use sleepytale.Main.{Cli, Files, Exit, shut_down, main}
use sleepytale.Main.Valid.{Does, main-ok_iff}
use sleepytale.Tests.Data.{alice, config, os, cipher, initial}

abbrev sockets : Sockets
sockets = record {
  socket = λ domain. some 3;
  allow_mapped = λ s. true;
  unblock = λ s. true;
  bind = λ s addr. true;
  adopt = λ s. true;
  start_console = true;
}

five_calls :
    (bind_public sockets (v6 0 5520 0 0)).1
    ≡ create ipv6
      ∷ set_only_v6 3 false
      ∷ set_nonblocking 3
      ∷ bind_to 3 (v6 0 5520 0 0)
      ∷ hand_over 3
      ∷ []
unfolding bind_public
five_calls = refl

bind_public-ok_iff_example :
    (((bind_public sockets (v6 0 5520 0 0)).0 ≡ ok 3) ↔ IsBound sockets (v6 0 5520 0 0) 3)
    × (IsBound sockets (v6 0 5520 0 0) 3
        → (bind_public sockets (v6 0 5520 0 0)).1 ≡ calls_for (v6 0 5520 0 0) 3)
bind_public-ok_iff_example = bind_public-ok_iff sockets (v6 0 5520 0 0) 3

abbrev files : Files
files = record {
  read = λ path. some (ascii "text");
  parse = λ text. some config;
  render = λ c. some (ascii "text");
}

abbrev cli : Cli
cli = record { config = some (ascii "sleepytale.toml"); print_config = false }

abbrev inputs : List Input
inputs = received alice initial ∷ ticked ∷ []

abbrev end : Exit ℕ
end = shut_down (run cipher os config inputs)

main-ok_iff_example : (main files sockets cipher os cli inputs ≡ ok end) ↔ (
    (c : Config) × ((text : Bytes) × (some (ascii "text") ≡ some text) × (some config ≡ some c))
    × (validate c ≡ ok tt)
    × Does files sockets cipher os cli inputs c end)
main-ok_iff_example = main-ok_iff files sockets cipher os cli inputs end

config_accepted : validate config ≡ ok tt
unfolding validate addr_eq lookup insert_sorted
config_accepted = refl

served : serve sockets cipher os config inputs ≡ ok (run cipher os config inputs)
unfolding serve bind_public console
served = refl

main_served : main files sockets cipher os cli inputs ≡ ok end
main_served =
    (main-ok_iff files sockets cipher os cli inputs end).1
      (config, (ascii "text", refl, refl), config_accepted, (refl, served))

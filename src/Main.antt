-- ===== src/Main.antt =====
-- crates/sleepytale/src/main.rs: the command line, and `Config::load` of config.rs. Reading a file,
-- the TOML parser and printer and the system below the proxy are parameters; the set-up of logging
-- and the signal handlers are left out, and a shutdown is the end of the list of events.
pub mod Valid
use sleepytale.Base.{Bool, true, false, Option, none, some, List, if◌then◌else◌}
use sleepytale.Base.Bytes.{Bytes}
use sleepytale.Base.Result.{Result, ok, err, ◌>>=◌, ◌>>◌}
use sleepytale.Config.{Config, default_config}
use sleepytale.Config.Validate.{ConfigError, validate}
use sleepytale.Sni.Keys.{Crypto}
use sleepytale.Runtime.{Os}
use sleepytale.Proxy.{State}
use sleepytale.Proxy.Run.{Input}
use sleepytale.Proxy.Serve.{Sockets, ServeError, serve}

pub record Cli : Type 0 where
  pub config : Option Bytes
  pub print_config : Bool

-- `read_to_string`, `toml::from_str` and `toml::to_string_pretty`.
pub record Files : Type 0 where
  pub read : Bytes → Option Bytes
  pub parse : Bytes → Option Config
  pub render : Config → Option Bytes

pub data MainError : Type 0 where
  unreadable : Bytes → MainError
  unparsable : Bytes → MainError
  invalid : ConfigError → MainError
  unrendered : MainError
  not_served : ServeError → MainError

-- The text that is printed, or the state in which the proxy was shut down.
pub data Exit (B : Type 0) : Type 0 where
  printed : Bytes → Exit B
  shut_down : State B → Exit B

-- `context`, and the conversions of errors by `?`.
abbrev pub or_error : {A : Type 0} → Option A → MainError → Result MainError A
or_error none e = err e
or_error (some a) e = ok a

abbrev pub checked :
    {E : Type 0} → Result E (Unit {0}) → (E → MainError) → Result MainError (Unit {0})
checked (ok done) f = ok tt
checked (err e) f = err (f e)

abbrev pub finished : {B : Type 0} → Result ServeError (State B) → Result MainError (Exit B)
finished (ok s) = ok (shut_down s)
finished (err e) = err (not_served e)

module _ (files : Files) where
  unfoldable pub load : Bytes → Result MainError Config
  unfolding validate
  load path = do
    text ← or_error (files.read path) (unreadable path)
    config ← or_error (files.parse text) (unparsable path)
    checked (validate config) invalid
    ok config

  abbrev pub chosen : Option Bytes → Result MainError Config
  chosen (some path) = load path
  chosen none = do checked (validate default_config) invalid; ok default_config

  module _ {Prk B : Type 0} (sockets : Sockets) (crypto : Crypto Prk) (os : Os B) where
    abbrev pub act : Cli → List Input → Config → Result MainError (Exit B)
    act cli inputs config =
        if cli.print_config
        then (do text ← or_error (files.render config) unrendered; ok (printed text))
        else finished (serve sockets crypto os config inputs)

    unfoldable pub main : Cli → List Input → Result MainError (Exit B)
    unfolding load
    main cli inputs = do config ← chosen cli.config; act cli inputs config

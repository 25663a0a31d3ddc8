-- ===== src/Config.antt =====
-- crates/sleepytale/src/config.rs: the configuration, its defaults and the route table.
-- `Config::load` is in Main, and `Validate` is what it and `main` check. Durations are counts of one unit; the defaults are in seconds.
pub mod Validate
pub mod Resolve
use sleepytale.Base.{
  ℕ, ◌+◌, ◌-◌, Bool, true, Option, none, some, List, [], ◌∷◌, ◌++◌, leb, ◌==◌, ◌&&◌, if◌then◌else◌,
  map,
}
use sleepytale.Base.Bytes.{Bytes, ascii, bytes_key}
use sleepytale.Base.Map.{Map, lookup, insert_sorted, values}
use sleepytale.Net.{SocketAddr, v4, v6}

abbrev pub default_port : ℕ
default_port = 5520

abbrev pub max_server_name : ℕ
max_server_name = 253

pub data BackendProvider : Type 0 where
  process : BackendProvider

pub record ServerConfig : Type 0 where
  pub provider : BackendProvider
  pub command : Bytes
  pub args : List Bytes
  pub working_dir : Bytes
  pub forward_stdin : Bool

pub record BackendConfig : Type 0 where
  pub backend : SocketAddr
  pub server : ServerConfig

pub record Config : Type 0 where
  pub listen : SocketAddr
  pub backend : SocketAddr
  pub server : ServerConfig
  pub routes : Map Bytes BackendConfig
  pub idle_timeout : ℕ
  pub boot_timeout : ℕ
  pub session_timeout : ℕ
  pub shutdown_grace : ℕ

abbrev pub default_server : ServerConfig
default_server = record {
  provider = process;
  command = ascii "java";
  args = ascii "-jar" ∷ ascii "HytaleServer.jar" ∷ [];
  working_dir = ascii ".";
  forward_stdin = true;
}

abbrev pub default_config : Config
default_config = record {
  listen = v6 0 default_port 0 0;
  backend = v4 0x7f00_0001 (default_port + 1);
  server = default_server;
  routes = [];
  idle_timeout = 900;
  boot_timeout = 300;
  session_timeout = 90;
  shutdown_grace = 10;
}

unfoldable pub default_backend : Config → BackendConfig
default_backend c = record { backend = c.backend; server = c.server }

-- `to_string` of an address is the standard library's, and an argument here.
unfoldable pub server_args : (SocketAddr → Bytes) → BackendConfig → List Bytes
server_args to_string b = (b.server.args ++ (ascii "-b" ∷ [])) ++ (to_string b.backend ∷ [])

-- `strip_suffix('.')`, or the name itself.
unfoldable pub strip_dot : Bytes → Bytes
strip_dot [] = []
strip_dot (c ∷ []) = if c == b'.' then [] else c ∷ []
strip_dot (c ∷ d ∷ s) = c ∷ strip_dot (d ∷ s)

unfoldable pub to_ascii_lowercase : ℕ → ℕ
to_ascii_lowercase c = if leb b'A' c && leb c b'Z' then c + 32 else c

unfoldable pub normalize : Bytes → Bytes
unfolding strip_dot to_ascii_lowercase
normalize name = map to_ascii_lowercase (strip_dot name)

pub record Routes : Type 0 where
  pub default : BackendConfig
  pub table : Map Bytes BackendConfig

-- `collect` into a `BTreeMap`: the entries are inserted in turn.
unfoldable pub collect_routes :
    Map Bytes BackendConfig → Map Bytes BackendConfig → Map Bytes BackendConfig
collect_routes table [] = table
collect_routes table ((name, route) ∷ rest) =
    collect_routes (insert_sorted (normalize name) route table) rest

unfoldable pub routes : Config → Routes
unfolding default_backend collect_routes
routes c = record { default = default_backend c; table = collect_routes [] c.routes }

abbrev pub or_default : Option BackendConfig → BackendConfig → BackendConfig
or_default none d = d
or_default (some b) d = b

unfoldable pub resolve : Routes → Option Bytes → BackendConfig
resolve r none = r.default
resolve r (some name) = or_default (lookup (normalize name) r.table) r.default

unfoldable pub all : Routes → List BackendConfig
unfolding values
all r = r.default ∷ values r.table

-- ===== src/Config/Validate.antt =====
-- `Config::validate` of crates/sleepytale/src/config.rs: every check in the order of the code.
pub mod Accepts
use sleepytale.Base.{
  ℕ, ◌+◌, Bool, true, false, not, ◌&&◌, List, [], ◌∷◌, leb, ltb, ◌==◌, if◌then◌else◌, length,
}
use sleepytale.Base.Result.{Result, ok, err, ◌>>=◌, ◌>>◌, ensure, ensure_none, ensure_not}
use sleepytale.Base.Bytes.{Bytes, bytes_key}
use sleepytale.Base.Map.{Map, lookup, insert_sorted, values}
use sleepytale.Net.{SocketAddr, port, addr_eq, addr_key}
use sleepytale.Config.{ServerConfig, BackendConfig, Config, max_server_name, normalize}

-- Who uses a backend address: the text that the error names.
pub data Owner : Type 0 where
  default_owner : Owner
  route_owner : Bytes → Owner

pub data ConfigError : Type 0 where
  listen_is_backend : SocketAddr → ConfigError
  listen_port_zero backend_port_zero command_empty : ConfigError
  name_length : Bytes → ConfigError
  route_port_zero route_is_listen route_command_empty : Bytes → ConfigError
  same_name : Bytes → Bytes → ConfigError
  same_backend : Owner → Bytes → ConfigError
  consoles : ℕ → ConfigError

abbrev pub Check : Type 0
Check = Result ConfigError Unit

abbrev pub is_empty : Bytes → Bool
is_empty [] = true
is_empty (c ∷ s) = false

-- The body of the loop over the routes, with the two maps that it fills.
unfoldable pub validate_routes :
    SocketAddr → Map Bytes Bytes → Map SocketAddr Owner → Map Bytes BackendConfig → Check
validate_routes listen names backends [] = ok tt
validate_routes listen names backends ((name, route) ∷ rest) = do
  ensure (leb 1 (length name) && leb (length name) max_server_name) (name_length name)
  ensure (not (port route.backend == 0)) (route_port_zero name)
  ensure_not (addr_eq route.backend listen) (route_is_listen name)
  ensure_none (lookup (normalize name) names) (λ other. same_name other name)
  ensure_none (lookup route.backend backends) (λ other. same_backend other name)
  ensure (not (is_empty route.server.command)) (route_command_empty name)
  validate_routes listen (insert_sorted (normalize name) name names)
      (insert_sorted route.backend (route_owner name) backends) rest

-- `filter(|server| server.forward_stdin).count()`
unfoldable pub count_consoles : List BackendConfig → ℕ
count_consoles [] = 0
count_consoles (b ∷ bs) = (if b.server.forward_stdin then 1 else 0) + count_consoles bs

unfoldable pub interactive : Config → ℕ
unfolding count_consoles values
interactive c = (if c.server.forward_stdin then 1 else 0) + count_consoles (values c.routes)

unfoldable pub validate : Config → Check
unfolding validate_routes interactive
validate c = do
  ensure_not (addr_eq c.listen c.backend) (listen_is_backend c.listen)
  ensure (not (port c.listen == 0)) listen_port_zero
  ensure (not (port c.backend == 0)) backend_port_zero
  ensure (not (is_empty c.server.command)) command_empty
  validate_routes c.listen [] (insert_sorted c.backend default_owner []) c.routes
  ensure (leb (interactive c) 1) (consoles (interactive c))

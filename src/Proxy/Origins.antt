-- ===== src/Proxy/Origins.antt =====
-- Where the running backends of crates/sleepytale/src/state.rs come from.
use sleepytale.Base.{ℕ, ◌≡◌, some, List, ◌&&◌}
use sleepytale.Base.Bytes.{bytes_key}
use sleepytale.Base.Map.{lookup}
use sleepytale.Base.Result.{ok}
use sleepytale.Net.{addr_key}
use sleepytale.Config.{BackendConfig, Config}
use sleepytale.Config.Validate.{validate}
use sleepytale.Sni.Keys.{Crypto}
use sleepytale.Runtime.{Os, World, ready, woke}
use sleepytale.Base.Bytes.{Bytes}
use sleepytale.Proxy.{Lifecycle, running, ManagedBackend, start, wants_console}
use sleepytale.Proxy.Run.{Input, rounds}
use sleepytale.Proxy.Configs.{route_config}
use sleepytale.Proxy.Traces.{IsLogged}
use sleepytale.Proxy.Each.{rounds-Each}
use sleepytale.Proxy.Owners.{IsOwn, owns}

module _ {Prk B : Type 0} (crypto : Crypto Prk) (os : Os B) (config : Config) where
  running_lem :
      (b : B) (c : BackendConfig) (w : World B) (l : Lifecycle B)
      → l ≡ running b
      → IsOwn os (wants_console config) c w l
      → IsOwn os (wants_console config) c w (running b)
  running_lem b c w l e h = rw e at h

  -- In an accepted configuration, after any events, what runs at the address of a route is what a
  -- startup task gave that was spawned for that route, with the console if the route wants it.
  pub running_is_own :
      (is : List Input) (name : Bytes) (route : BackendConfig) (m : ManagedBackend B) (b : B)
      → let s = rounds crypto os config is (start config) in
        validate config ≡ ok tt
        → lookup name config.routes ≡ some route
        → lookup route.backend s.backends ≡ some m
        → m.lifecycle ≡ running b
        → (task : ℕ) × (n : ℕ) × IsLogged
            (woke task route (route.server.forward_stdin && wants_console config))
            s.world.trace
          × (os.finished n task ≡ some (ready b))
  running_is_own is name route m b accepted has found up =
      let s = rounds crypto os config is (start config) in
      let own =
        rounds-Each crypto config (owns os (wants_console config)) is route.backend m found in
      let same = route_config crypto os config is name route m accepted has found in
      rw same at (running_lem b m.config s.world m.lifecycle up own)

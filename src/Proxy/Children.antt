-- ===== src/Proxy/Children.antt =====
-- The proxy of crates/sleepytale/src/state.rs with the adapter of infra/process.rs: the children
-- that its backends are.
use sleepytale.Base.{◌≡◌, some, List, Bool, ◌&&◌, ℕ}
use sleepytale.Base.Bytes.{Bytes, bytes_key}
use sleepytale.Base.Map.{lookup}
use sleepytale.Base.Result.{ok}
use sleepytale.Net.{SocketAddr, addr_key}
use sleepytale.Config.{BackendConfig, Config}
use sleepytale.Config.Validate.{validate}
use sleepytale.Sni.Keys.{Crypto}
use sleepytale.Runtime.{Os, Event, woke, ready}
use sleepytale.Process.Child.{Host, Past, ProcessBackend, command_of}
use sleepytale.Process.Startup.{startup}
use sleepytale.Process.Booting.{Boots, unstarted, startup-ready_iff}
use sleepytale.Proxy.{running, ManagedBackend, start, wants_console}
use sleepytale.Proxy.Run.{Input, rounds}
use sleepytale.Proxy.Traces.{IsLogged}
use sleepytale.Proxy.Origins.{running_is_own}

module _ (to_string : SocketAddr → Bytes) (host : Host) (config : Config) where
  -- What awaiting a task gives is what its block returned, at some point of what the host does.
  abbrev pub AwaitsStartups : Os ProcessBackend → List (Event ProcessBackend) → Type 0
  AwaitsStartups os trace =
      (n task : ℕ) (c : BackendConfig) (console : Bool) (p : ProcessBackend)
      → IsLogged (woke task c console) trace
      → os.finished n task ≡ some (ready p)
      → (w : Past) × ((startup to_string host config c console w).0 ≡ ready p)

  -- In an accepted configuration, after any events, where awaiting a startup task gives what the
  -- startup of its configuration returned: what runs at the address of a route is the adapter whose
  -- child was spawned with the command, the arguments and the directory of that route, and whose
  -- banner was seen within the boot timeout; it has the console if the route wants it.
  pub route_runs_its_server :
      {Prk : Type 0} (crypto : Crypto Prk) (os : Os ProcessBackend) (is : List Input) (name : Bytes)
      (route : BackendConfig) (m : ManagedBackend ProcessBackend) (p : ProcessBackend)
      → let s = rounds crypto os config is (start config) in
        let console = route.server.forward_stdin && wants_console config in
        validate config ≡ ok tt
        → AwaitsStartups os s.world.trace
        → lookup name config.routes ≡ some route
        → lookup route.backend s.backends ≡ some m
        → m.lifecycle ≡ running p
        → (w : Past) × Boots to_string host config route console w.calls
            (host.spawn w.calls (command_of (unstarted to_string host config route console)))
            p
  route_runs_its_server crypto os is name route m p accepted awaits has found up =
      let (task, n, spawned, gave) =
        running_is_own crypto os config is name route m p accepted has found up in
      let console = route.server.forward_stdin && wants_console config in
      let (w, booted) = awaits n task route console p spawned gave in
      (w, (startup-ready_iff to_string host config route console w p).0 booted)

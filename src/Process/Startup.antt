-- ===== src/Process/Startup.antt =====
-- `create_backend` of crates/sleepytale/src/infra/mod.rs, `ProcessBackend::new` of
-- infra/process.rs, and its methods as an implementation of `Backend`.
use sleepytale.Base.{Bool, none}
use sleepytale.Base.Bytes.{Bytes}
use sleepytale.Base.Result.{Result, ok}
use sleepytale.Net.{SocketAddr}
use sleepytale.Config.{Config, BackendConfig, BackendProvider, process, server_args}
use sleepytale.Runtime.{Wake}
use sleepytale.Backend.{Backend, boot}
use sleepytale.Process.Child.{
  Host, ProcessBackend, ProcessError, Past, start, wait_until_ready, has_exited, stop, drop_backend,
}

-- `impl Backend for ProcessBackend`
abbrev pub process_backend : Host → Backend ProcessError ProcessBackend Past
process_backend host = record {
  start = start host;
  wait_until_ready = wait_until_ready host;
  has_exited = has_exited host;
  stop = stop host;
  drop = drop_backend;
}

module _ (to_string : SocketAddr → Bytes) where
  unfoldable pub new : Config → BackendConfig → Bool → Result ProcessError ProcessBackend
  new config backend console = ok (record {
    command = backend.server.command;
    args = server_args to_string backend;
    working_dir = backend.server.working_dir;
    boot_timeout = config.boot_timeout;
    shutdown_grace = config.shutdown_grace;
    console = console;
    child = none;
    started_at = none;
  })

  abbrev pub create_for :
      Config → BackendConfig → Bool → BackendProvider → Result ProcessError ProcessBackend
  create_for config backend console process = new config backend console

  unfoldable pub create_backend : Config → BackendConfig → Bool → Result ProcessError ProcessBackend
  unfolding new
  create_backend config backend console = create_for config backend console backend.server.provider

  unfoldable pub startup : Host → Config → BackendConfig → Bool → Past → Wake ProcessBackend × Past
  unfolding create_backend boot
  startup host config backend console w =
      boot (process_backend host) (create_backend config backend console) w

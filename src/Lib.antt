-- ===== src/Lib.antt =====
-- Verification of sleepytale, the proxy that runs a game server only while someone plays.
--
-- The program (crates/sleepytale/src) is one event loop. A datagram on the public socket goes to the
-- backend that its client is pinned to, or else to the one that its TLS server name selects. A
-- sleeping backend is started by a client Initial, which is held until the backend is ready; a
-- running one gets the datagram through the relay, which has a socket and a return path for each
-- client. A tick reaps quiet sessions, sees which backends have come up or gone, and stops those that
-- nobody has used for a while.
--
-- Which file models what:
-- - Config: config.rs, `Config`, `Routes` and `normalize`; Config/Validate: `Config::validate`.
-- - Knock: knock.rs, `is_quic_initial`.
-- - Sni: sni.rs, `peek_server_name`. Its children follow the functions: Reader (`Reader`), Header
--   (`parse_long_header`), Keys (`Keys::initial`, `Keys::open`, `expand_label`), Frames
--   (`reassemble_crypto`), Hello (`client_hello_server_name`), Utf8 (`String::from_utf8`).
--   Sni/RoundTrip lays out what a client sends by the RFCs 8446, 9000 and 9001: Numbers, Hello,
--   Frames, Packet (the header), Protection (the seal) and Message (all of a datagram).
-- - Net: `SocketAddr`. Runtime: what tokio and the operating system answer, and the relay's state.
-- - Relay: relay.rs, one function for each method of `Relay`; Relay/ReturnPath: the loop of
--   `spawn_return_path`.
-- - Proxy: state.rs, `ManagedBackend`, with Proxy/Datagram (`handle_datagram`), Proxy/Tick (`tick`,
--   `deliver_held`), Proxy/Run (the loop of `run`) and Proxy/Serve (`bind_public`, `console` and
--   the opening of `run`).
-- - Backend: infra/mod.rs, the trait `Backend`, and the startup task of `handle_datagram`.
-- - Process: infra/process.rs, with Process/Scan (`mirror_stdout`) and Process/Child
--   (`ProcessBackend`: `start`, `wait_until_ready`, `has_exited`, `stop`); Process/Startup:
--   `create_backend` of infra/mod.rs and `ProcessBackend` as a `Backend`.
-- - Console: infra/console.rs, `Attached`, `attach`, `detach`, and the task and thread of `start`.
-- - Main: main.rs, and `Config::load` of config.rs.
-- - Proxy/Each carries a property of single backends through the loop, Proxy/Worlds one of the relay
--   and the surroundings; Proxy/Visits finds the world in which one backend has its tick.
-- The other modules prove; Base has what they share, and Tests the runs at concrete inputs.
--
-- How code becomes definitions:
-- - Code that returns an `Option` and indexes slices returns an `Outcome`: `done`, `refuse` for
--   `None`, and `panic` for an index out of range. `validate` returns a `Result` with each error.
-- - The world is passed along: the sessions, the number of calls made so far, and a trace of what
--   the program did. Every answer of the surroundings (clock, bind, send, finished tasks, exited
--   backends) is a function of the number of the call, so it may be anything, and may change.
-- - A child whose handle is dropped before a wait has given its status is killed (`kill_on_drop`):
--   `Backend` has a `drop` for an adapter that goes out of scope in the startup task, and `stop` lets
--   go of the handle that it took out.
-- - A branch of the `select!` runs to its end before the next event is taken, so a run is a list of
--   events. The session table's lock is held throughout each operation of the relay.
-- - A `HashMap` is a list without repeated keys in some order, a `BTreeMap` the same in the order of
--   its keys.
-- - A loop over a reader takes fuel: one more than the bytes that it reads. Each round takes a byte
--   at least, so the fuel is enough; to run out of it would count as `panic`.
-- - A `usize` has 64 bits. Bytes are numbers; a clock reading is a count of one unit
--   and has no bound: an addition that overflows `Instant` is not modelled.
--
-- Parameters: the crates hkdf, aes and aes-gcm (`Crypto`), tokio and the system (`Os`; `Host`
-- for the child process; `Sockets` for the public socket), the file system and the TOML parser and
-- printer (`Files`). That a packet is sealed is a relation between it and the answers of `Crypto`.
--
-- Not modelled: the command line's parser, logging, the signal handlers, the tick timer, the copy of
-- the child's standard error to the terminal, the adapter on systems other than unix, and what
-- becomes of a startup task that outlives the grace of a shutdown. The proxy sees a backend through
-- `Wake` and `has_exited`, which may give any answers; the startup task of Backend gives a `Wake`
-- too, and Proxy/Children takes the loop's answers to be those of such tasks.
pub mod Base
pub mod Net
pub mod Config
pub mod Knock
pub mod Sni
pub mod Runtime
pub mod Backend
pub mod Relay
pub mod Proxy
pub mod Process
pub mod Console
pub mod Main
pub mod Tests

-- ===== src/Proxy/Run.antt =====
-- `Proxy::run` of crates/sleepytale/src/state.rs: the select loop over its events, and what follows
-- a shutdown. One branch runs to its end before the next event is taken, so a run is a list of
-- events. What comes before the loop is in Serve.
use sleepytale.Base.{ℕ, Option, none, some, List, [], ◌∷◌}
use sleepytale.Base.Bytes.{Bytes}
use sleepytale.Base.Map.{Map}
use sleepytale.Net.{SocketAddr}
use sleepytale.Config.{Config, routes}
use sleepytale.Sni.Keys.{Crypto}
use sleepytale.Runtime.{Wake, ready, start_failed, task_failed, Os, World}
use sleepytale.Relay.{called, clear}
use sleepytale.Proxy.{
  Lifecycle, sleeping, waking, running, ManagedBackend, State, start, wants_console,
}
use sleepytale.Proxy.Datagram.{handle_datagram}
use sleepytale.Proxy.Tick.{stop_backend, tick}

-- The branches of the `select!` but the shutdown, which ends the list.
pub data Input : Type 0 where
  ticked : Input
  received : SocketAddr → Bytes → Input
  read_failed : Input

module _ {B : Type 0} (os : Os B) where
  abbrev pub stop_ready : SocketAddr → World B → Option (Wake B) → World B
  stop_ready addr w none = w
  stop_ready addr w (some (ready backend)) = stop_backend addr backend w
  stop_ready addr w (some start_failed) = w
  stop_ready addr w (some task_failed) = w

  -- A running backend is stopped; a waking one gets `shutdown_grace` to be stopped too.
  abbrev pub stop_lifecycle : ℕ → SocketAddr → World B → Lifecycle B → World B
  stop_lifecycle grace addr w sleeping = w
  stop_lifecycle grace addr w (running backend) = stop_backend addr backend w
  stop_lifecycle grace addr w (waking task) =
      stop_ready addr (called w) (os.within_grace w.calls task grace)

  unfoldable pub stop_all :
      ℕ → Map SocketAddr (ManagedBackend B) → World B → Map SocketAddr (ManagedBackend B) × World B
  stop_all grace [] w = ([], w)
  stop_all grace ((addr, m) ∷ rest) w =
      let w' = stop_lifecycle grace m.config.backend w m.lifecycle in
      let (rest', w'') = stop_all grace rest w' in
      ((addr, record m { lifecycle = sleeping }) ∷ rest', w'')

  unfoldable pub shutdown : ℕ → State B → State B
  unfolding stop_all
  shutdown grace s =
      let (backends, w) = stop_all grace s.backends (clear s.world) in
      record { world = w; backends = backends }

module _ {Prk B : Type 0} (crypto : Crypto Prk) (os : Os B) (config : Config) where
  -- One round of the loop. An error of `handle_datagram` is logged.
  unfoldable pub round : Input → State B → State B
  round ticked s = tick os config.idle_timeout config.session_timeout s
  round (received client datagram) s =
      (handle_datagram crypto os (routes config) (wants_console config) client datagram s).1
  round read_failed s = s

  unfoldable pub rounds : List Input → State B → State B
  rounds [] s = s
  rounds (i ∷ is) s = rounds is (round i s)

  unfoldable pub run : List Input → State B
  unfolding rounds
  run inputs = shutdown os config.shutdown_grace (rounds inputs start_state)
    where
      start_state : State B
      start_state = start config

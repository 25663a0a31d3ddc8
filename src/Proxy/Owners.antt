-- ===== src/Proxy/Owners.antt =====
-- Each backend of crates/sleepytale/src/state.rs keeps to the startup tasks that were spawned for it.
use sleepytale.Base.{ℕ, ◌≡◌, refl, Bool, Option, none, some, ◌⊎◌, inl, inr, arith, ◌&&◌}
use sleepytale.Base.Bytes.{Bytes}
use sleepytale.Net.{SocketAddr, addr_key}
use sleepytale.Config.{BackendConfig}
use sleepytale.Proxy.Held.{lifecycle-hold}
use sleepytale.Runtime.{Os, World, Wake, ready, start_failed, task_failed, woke}
use sleepytale.Relay.{called}
use sleepytale.Proxy.{Lifecycle, sleeping, waking, running, ManagedBackend, new_backend, hold, wake}
use sleepytale.Proxy.Tick.{
  make_ready, awaited, settle, settle_at, idle_check, supervise, supervise_at, tick_backend,
}
use sleepytale.Proxy.Worlds.{supervise_keeps, deliver_held_keeps}
use sleepytale.Proxy.Held.{config-hold}
use sleepytale.Base.Bytes.{bytes_key}
use sleepytale.Proxy.Traces.{IsLogged, Follows, Follows-refl, follows}
use sleepytale.Proxy.Each.{KeepsEach}

module _ {B : Type 0} (os : Os B) (console : Bool) where
  -- A startup task was spawned for the configuration, with the console if it wants it.
  abbrev pub IsSpawned : ℕ → BackendConfig → World B → Type 0
  IsSpawned task c w = IsLogged (woke task c (c.server.forward_stdin && console)) w.trace

  -- A backend that wakes waits for a task that was spawned for it, and one that runs is what such a
  -- task gave.
  abbrev pub IsOwn : BackendConfig → World B → Lifecycle B → Type 0
  IsOwn c w sleeping = Unit
  IsOwn c w (waking task) = IsSpawned task c w
  IsOwn c w (running b) =
      (task : ℕ) × (n : ℕ) × IsSpawned task c w × (os.finished n task ≡ some (ready b))

  abbrev pub Owns : World B → ManagedBackend B → Type 0
  Owns w m = IsOwn m.config w m.lifecycle

  IsOwn-stays :
      (c : BackendConfig) (w w' : World B) (l : Lifecycle B)
      → Follows w w'
      → IsOwn c w l
      → IsOwn c w' l
  IsOwn-stays c w w' sleeping x h = tt
  IsOwn-stays c w w' (waking task) x h = x.1 _ h
  IsOwn-stays c w w' (running b) x (task, n, h, e) = (task, n, x.1 _ h, e)

  awaited-Owns :
      (n task : ℕ) (m : ManagedBackend B) (w : World B) (o : Option (Wake B))
      → os.finished n task ≡ o
      → IsSpawned task m.config w
      → Owns w m
      → Owns (awaited os m w o).1 (awaited os m w o).0
  unfolding make_ready
  awaited-Owns n task m w none e s h = h
  awaited-Owns n task m w (some (ready b)) e s h = (
    task,
    n,
    (deliver_held_keeps (follows os w) m.config.backend m.held (called w) (omega arith, λ f p. p)).1
        _ s,
    e,
  )
  awaited-Owns n task m w (some start_failed) e s h = tt
  awaited-Owns n task m w (some task_failed) e s h = tt

  settle_at-Owns :
      (m : ManagedBackend B) (w : World B) (l : Lifecycle B)
      → m.lifecycle ≡ l
      → Owns w m
      → Owns (settle_at os m w l).1 (settle_at os m w l).0
  settle_at-Owns m w sleeping e h = h
  settle_at-Owns m w (waking task) e h =
      awaited-Owns w.calls task m (called w) _ refl (rw e at h)
        (IsOwn-stays m.config w (called w) m.lifecycle (omega arith, λ f p. p) h)
  settle_at-Owns m w (running b) e h = h

  -- A tick leaves a running backend as it is, or asleep.
  supervise_quiets :
      (idle_timeout : ℕ) (m : ManagedBackend B) (w : World B) (l : Lifecycle B)
      → m.lifecycle ≡ l
      → let r = (supervise_at os idle_timeout m w l).0 in
        (r.config ≡ m.config) × ((r.lifecycle ≡ sleeping) ⊎ (r.lifecycle ≡ m.lifecycle))
  unfolding idle_check
  supervise_quiets idle_timeout m w l e = ground (arith, e)

  supervise-Owns :
      (m r : ManagedBackend B) (w w' : World B)
      → (r.config ≡ m.config) × ((r.lifecycle ≡ sleeping) ⊎ (r.lifecycle ≡ m.lifecycle))
      → Follows w w'
      → Owns w m
      → Owns w' r
  supervise-Owns m r w w' (same, inl e) x h = rw e tt
  supervise-Owns m r w w' (same, inr e) x h =
      rw (e, same) (IsOwn-stays m.config w w' m.lifecycle x h)

  tick_backend-Owns :
      (idle_timeout : ℕ) (m : ManagedBackend B) (w : World B)
      → Owns w m
      → Owns (tick_backend os idle_timeout m w).1 (tick_backend os idle_timeout m w).0
  unfolding tick_backend settle supervise
  tick_backend-Owns idle_timeout m w h =
      let (m', w') = settle_at os m w m.lifecycle in
      let (m'', w'') = supervise os idle_timeout m' w' in
      supervise-Owns m' m'' w' w'' (supervise_quiets idle_timeout m' w' m'.lifecycle refl)
        (supervise_keeps (follows os w') idle_timeout m' w' (Follows-refl w'))
        (settle_at-Owns m w m.lifecycle refl h)

  hold-Owns :
      (client : SocketAddr) (datagram : Bytes) (m : ManagedBackend B) (w : World B)
      → Owns w m
      → Owns w (hold client datagram m).0
  hold-Owns client datagram m w h =
      rw (lifecycle-hold client datagram m, config-hold client datagram m) h

  wake-Owns :
      (client : SocketAddr) (datagram : Bytes) (m : ManagedBackend B) (w : World B)
      → let r = wake console client datagram m w in Owns r.1 r.0
  unfolding wake
  wake-Owns client datagram m w =
      hold-Owns client datagram (record m { lifecycle = waking w.calls })
        (wake console client datagram m w).1 (inl refl)

  pub owns : KeepsEach os console Owns
  unfolding new_backend
  owns = record {
    on_new = λ c. tt;
    on_world = λ m w w' f h. IsOwn-stays m.config w w' m.lifecycle f h;
    on_tick = tick_backend-Owns;
    on_wake = λ client datagram m w h. wake-Owns client datagram m w;
    on_hold = hold-Owns;
  }

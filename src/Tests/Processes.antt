-- ===== src/Tests/Processes.antt =====
-- Tests of the child process, on a host whose child never ends by itself.
use sleepytale.Base.{
  ◌≡◌, ◌↔◌, ◌<◌, refl, Bool, true, false, some, none, List, [], ◌∷◌, length, arith, inr,
}
use sleepytale.Base.Bytes.{Bytes, ascii, bytes_eqb}
use sleepytale.Base.Result.{ok}
use sleepytale.Process.Scan.{boot_marker, contains, start_scan, scan}
use sleepytale.Process.Banner.{mirrored, Occurs, scan_finds}
use sleepytale.Process.Child.{
  sigterm, sigkill, notified, exited, timed_out, attached, killed, Child, wait_until_ready, Host,
  detached, signalled, ProcessBackend, Past, start, stop,
}
use sleepytale.Process.Startup.{startup}
use sleepytale.Process.Booting.{unstarted, Boots, Leaves, startup-ready_iff, startup_effects}
use sleepytale.Net.{SocketAddr}
use sleepytale.Config.{default_config}
use sleepytale.Runtime.{ready, start_failed}
use sleepytale.Tests.Data.{lobby}
use sleepytale.Process.Stopping.{detach_first, stop-stop}

abbrev pub stubborn : Host
stubborn = record {
  clock = λ n. n;
  spawn = λ n command. some (record { handle = 6; stdout = true; stderr = true; stdin = some 1 });
  booted = λ n. false;
  await_banner = λ n child deadline. notified;
  try_wait = λ n child. some false;
  id = λ n child. some 77;
  kill = λ n pid signal. none;
  within = λ n child grace. none;
  wait = λ n child. true;
  esrch = 3;
}

abbrev idle : ProcessBackend
idle = record {
  command = ascii "java";
  args = [];
  working_dir = ascii ".";
  boot_timeout = 300;
  shutdown_grace = 10;
  console = true;
  child = none;
  started_at = none;
}

abbrev child : Child
child = record { handle = 6; reaped = false }

abbrev busy : ProcessBackend
busy = record idle { child = some child }

abbrev pub past : Past
past = record { calls = 0; effects = [] }

stop_kills_group :
    (stop stubborn busy past).2.effects
    ≡ signalled 77 sigkill ∷ signalled 77 sigterm ∷ detached ∷ []
unfolding stop
stop_kills_group = refl

stop-stop_example :
    ((stop stubborn (stop stubborn busy past).1 past).0 ≡ ok tt)
    × ((stop stubborn (stop stubborn busy past).1 past).2.effects ≡ detach_first true [])
stop-stop_example = stop-stop stubborn busy past past

start_returns : (start stubborn idle past).0 ≡ ok 301
unfolding start
start_returns = refl

-- The lobby's server, on a host that answers with its banner.
abbrev pub address_text : SocketAddr → Bytes
address_text a = ascii "127.0.0.1:5522"

abbrev started_lobby : ProcessBackend
started_lobby = record (unstarted address_text stubborn default_config lobby true) {
  child = some child;
  started_at = some 1;
}

startup-ready_iff_example :
    ((startup address_text stubborn default_config lobby true past).0 ≡ ready started_lobby)
    ↔ Boots address_text stubborn default_config lobby true 0
        (some (record { handle = 6; stdout = true; stderr = true; stdin = some 1 }))
        started_lobby
startup-ready_iff_example =
    startup-ready_iff address_text stubborn default_config lobby true past started_lobby

lobby_boots : (startup address_text stubborn default_config lobby true past).0 ≡ ready started_lobby
lobby_boots =
    (startup-ready_iff address_text stubborn default_config lobby true past started_lobby).1
      (refl, refl, inr (inr refl), refl)

-- The child ends before it shows a banner.
abbrev hasty : Host
hasty = record stubborn { await_banner = λ n child deadline. exited }

hasty_fails : (startup address_text hasty default_config lobby true past).0 ≡ start_failed
unfolding startup start wait_until_ready
hasty_fails = refl

-- The banner does not come in time, so the child is killed.
abbrev mute : Host
mute = record stubborn { await_banner = λ n child deadline. timed_out }

startup_effects_example :
    let r = startup address_text mute default_config lobby true past in
    Leaves address_text mute default_config lobby true 0
      (some (record { handle = 6; stdout = true; stderr = true; stdin = some 1 }))
      []
      r.0
      r.1.effects
startup_effects_example = startup_effects address_text mute default_config lobby true past

mute_killed :
    (startup address_text mute default_config lobby true past).1.effects
    ≡ killed 6 ∷ attached 1 ∷ []
unfolding startup start wait_until_ready
mute_killed = refl

hasty_reaped :
    (startup address_text hasty default_config lobby true past).1.effects ≡ attached 1 ∷ []
unfolding startup start wait_until_ready
hasty_reaped = refl

abbrev chunks : List (Bytes × Bool)
chunks =
    (ascii "[INFO] Hytale Ser", true)
    ∷ (ascii "ver Bo", true)
    ∷ (ascii "oted! took 3s", true)
    ∷ (ascii "lost", false)
    ∷ []

scan_finds_example :
    (((scan boot_marker start_scan chunks).booted ≡ true) ↔ Occurs boot_marker (mirrored chunks))
    × (length (scan boot_marker start_scan chunks).tail < length boot_marker)
    × ((scan boot_marker start_scan chunks).terminal ≡ mirrored chunks)
scan_finds_example = scan_finds boot_marker chunks (omega arith)

banner_across_chunks : (scan boot_marker start_scan chunks).booted ≡ true
unfolding scan contains bytes_eqb
banner_across_chunks = refl

-- The terminal is gone: the banner is read, but nobody looks for it.
banner_unseen : (scan boot_marker start_scan ((boot_marker, false) ∷ [])).booted ≡ false
unfolding scan
banner_unseen = refl

-- Nothing may be signalled: the stop fails, and the child is killed by the drop.
abbrev denied : Host
denied = record stubborn { kill = λ n pid signal. some 1 }

stop_denied : (stop denied busy past).2.effects ≡ killed 6 ∷ signalled 77 sigterm ∷ detached ∷ []
unfolding stop
stop_denied = refl

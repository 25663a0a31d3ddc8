-- ===== src/Tests/Data.antt =====
-- The inputs of the tests: two backends, one of them behind a name; a system that answers every
-- call; a cipher that leaves its text as it is; and a client Initial that asks for that name.
use sleepytale.Base.{ℕ, true, false, none, some, [], ◌∷◌, ◌++◌, replicate}
use sleepytale.Base.Bytes.{Bytes, ascii}
use sleepytale.Base.Map.{Map}
use sleepytale.Net.{SocketAddr, v4}
use sleepytale.Config.{BackendConfig, Config, Routes, default_config, default_server, routes}
use sleepytale.Sni.Keys.{Crypto}
use sleepytale.Runtime.{ready, Os, Session, World}
use sleepytale.Proxy.{Lifecycle, ManagedBackend, State}

abbrev pub alice : SocketAddr
alice = v4 0x0a00_0001 40000

abbrev pub bob : SocketAddr
bob = v4 0x0a00_0002 40000

abbrev pub main_address : SocketAddr
main_address = v4 0x7f00_0001 5521

abbrev pub lobby_address : SocketAddr
lobby_address = v4 0x7f00_0001 5522

abbrev pub lobby : BackendConfig
lobby = record { backend = lobby_address; server = record default_server { forward_stdin = false } }

abbrev pub config : Config
config = record default_config { routes = (ascii "Lobby.example.", lobby) ∷ [] }

abbrev pub table : Routes
table = routes config

-- Time is the number of the call; every startup task is finished, with backend 7.
abbrev pub os : Os ℕ
os = record {
  clock = λ n. n;
  bind = λ n a. some n;
  send = λ n socket to datagram. true;
  finished = λ n task. some (ready 7);
  within_grace = λ n task grace. some (ready 7);
  has_exited = λ n backend. some false;
}

-- The same, but a backend has exited when it is asked.
abbrev pub exited_os : Os ℕ
exited_os = record os { has_exited = λ n backend. some true }

abbrev pub cipher : Crypto Bytes
cipher = record {
  extract = λ salt ikm. salt ++ ikm;
  from_prk = λ prk. some prk;
  expand = λ prk info len. some (replicate len 0);
  encrypt_block = λ key block. some (replicate 16 0);
  decrypt = λ key nonce aad text. some text;
}

-- A ClientHello whose one extension names the server `lobby.example`.
abbrev pub extension : Bytes
extension = 0 ∷ 0 ∷ 0 ∷ 18 ∷ 0 ∷ 16 ∷ 0 ∷ 0 ∷ 13 ∷ ascii "lobby.example"

abbrev pub client_hello : Bytes
client_hello =
    1 ∷ 0 ∷ 0 ∷ 65 ∷ (replicate 34 3 ++ (0 ∷ 0 ∷ 2 ∷ 19 ∷ 1 ∷ 1 ∷ 0 ∷ 0 ∷ 22 ∷ extension))

-- A CRYPTO frame and padding, in an Initial of 1200 bytes and version 1.
abbrev pub initial : Bytes
initial =
    0xc0
    ∷ 0
    ∷ 0
    ∷ 0
    ∷ 1
    ∷ 8
    ∷ (replicate 8 9
        ++ (0 ∷ 0 ∷ 0x44 ∷ 0x9e ∷ 0 ∷ 6 ∷ 0 ∷ 0x40 ∷ 69 ∷ (client_hello ++ replicate 1108 0)))

abbrev pub pinned : SocketAddr → Session
pinned backend = record { upstream = 3; backend = backend; return_path = 5; last_seen = 2 }

-- Alice plays on the lobby.
abbrev pub world : World ℕ
world = record { sessions = (alice, pinned lobby_address) ∷ []; calls = 10; trace = [] }

abbrev pub backend_at : Lifecycle ℕ → Map SocketAddr Bytes → ManagedBackend ℕ
backend_at l held = record { config = lobby; lifecycle = l; empty_since = none; held = held }

abbrev pub state_at : ManagedBackend ℕ → World ℕ → State ℕ
state_at m w = record { world = w; backends = (lobby_address, m) ∷ [] }

-- ===== src/Sni/Hello.antt =====
-- `client_hello_server_name` of crates/sleepytale/src/sni.rs.
pub mod Bounds
use sleepytale.Base.{ℕ, zero, suc, ◌+◌, ◌&&◌, leb, ◌==◌, if◌then◌else◌, length}
use sleepytale.Base.Bytes.{Bytes}
use sleepytale.Base.Outcome.{Outcome, done, refuse, panic, ◌>>=◌, ◌>>◌, try, require}
use sleepytale.Sni.Reader.{Reader, new, take, skip, u8, u16, u24}
use sleepytale.Sni.Utf8.{from_utf8}

abbrev pub max_server_name : ℕ
max_server_name = 253

-- `while let Some(kind) = r.u8()` over the server name list; fuel as in the walk over the frames.
unfoldable pub find_host_name : ℕ → Reader → Outcome Bytes
find_host_name zero r = panic
find_host_name (suc fuel) r = elim (u8 r) [
  | refuse ↦ refuse
  | panic ↦ panic
  | done (kind, r1) ↦ do
    (len, r2) ← u16 r1
    (name, r3) ← take r2 len
    let rest = find_host_name fuel r3
    if kind == 0x00 && leb 1 (length name) && leb (length name) max_server_name
        then try (from_utf8 name)
        else rest
]

unfoldable pub server_name_list : Bytes → Outcome Bytes
unfolding find_host_name
server_name_list body = do
  (list_len, r1) ← u16 (new body)
  (list, r2) ← take r1 list_len
  find_host_name (suc (length list)) (new list)

-- `while let Some(extension) = r.u16()`
unfoldable pub find_server_name : ℕ → Reader → Outcome Bytes
find_server_name zero r = panic
find_server_name (suc fuel) r = elim (u16 r) [
  | refuse ↦ refuse
  | panic ↦ panic
  | done (extension, r1) ↦ do
    (len, r2) ← u16 r1
    (body, r3) ← take r2 len
    let rest = find_server_name fuel r3
    if extension == 0x0000 then server_name_list body else rest
]

-- The reader stands on the extensions' length behind `legacy_version`, `random`, the session id,
-- the cipher suites and the compression methods.
unfoldable pub skip_to_extensions : Reader → Outcome Reader
skip_to_extensions r = do
  r1 ← skip r (2 + 32)
  (session_id, r2) ← u8 r1
  r3 ← skip r2 session_id
  (cipher_suites, r4) ← u16 r3
  r5 ← skip r4 cipher_suites
  (compression, r6) ← u8 r5
  skip r6 compression

unfoldable pub client_hello_server_name : Bytes → Outcome Bytes
unfolding skip_to_extensions find_server_name server_name_list
client_hello_server_name handshake = do
  (kind, r1) ← u8 (new handshake)
  require (kind == 0x01)
  (body_len, r2) ← u24 r1
  (body, r3) ← take r2 body_len
  r4 ← skip_to_extensions (new body)
  (extensions_len, r5) ← u16 r4
  (extensions, r6) ← take r5 extensions_len
  find_server_name (suc (length extensions)) (new extensions)

-- ===== src/Sni.antt =====
-- crates/sleepytale/src/sni.rs: reading the `server_name` out of a client's first datagram.
pub mod Reader
pub mod Header
pub mod Keys
pub mod Frames
pub mod Utf8
pub mod Hello
pub mod Panics
pub mod Fuel
pub mod RoundTrip
use sleepytale.Base.{ℕ, Option}
use sleepytale.Base.Bytes.{Bytes}
use sleepytale.Base.Outcome.{Outcome, ◌>>=◌, to_option}
use Header.{parse_long_header}
use Keys.{Crypto, initial_keys, open_packet}
use Frames.{reassemble_crypto}
use Hello.{client_hello_server_name}

module _ {Prk : Type 0} (crypto : Crypto Prk) where
  unfoldable pub peek : Bytes → Outcome Bytes
  peek datagram = do
    h ← parse_long_header datagram
    keys ← initial_keys crypto h.version h.dcid
    plaintext ← open_packet crypto keys datagram h.pn_offset h.length
    bytes ← reassemble_crypto plaintext
    client_hello_server_name bytes

  -- The `Option` that the caller gets.
  unfoldable pub peek_server_name : Bytes → Option Bytes
  peek_server_name datagram = to_option (peek datagram)

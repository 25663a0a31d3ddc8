-- ===== src/Sni/Panics.antt =====
-- The indices of crates/sleepytale/src/sni.rs, which reads bytes that anyone can send.
use sleepytale.Base.{ℕ, ◌≡◌, ◌≢◌, some, length}
use sleepytale.Base.Bytes.{Bytes}
use sleepytale.Base.Outcome.{done, panic}
use sleepytale.Base.Safe.{Any, Safe-bind, Safe-ne-panic, Safe-done}
use sleepytale.Sni.{peek}
use sleepytale.Sni.Header.{Header, parse_long_header}
use sleepytale.Sni.Header.Bounds.{Fits, parse_long_header-Safe}
use sleepytale.Sni.Keys.{Crypto, initial_keys, open_packet}
use sleepytale.Sni.Keys.Bounds.{Sized, initial_keys-Safe, open_packet-Safe}
use sleepytale.Sni.Frames.{reassemble_crypto}
use sleepytale.Sni.Frames.Bounds.{reassemble_crypto-Safe}
use sleepytale.Sni.Hello.Bounds.{client_hello_server_name-Safe}

-- A header that the parser returns lies within its datagram: the version is a supported one, the
-- connection id has at most 20 bytes, the packet holds a header protection sample and a tag, and
-- it ends where the datagram ends or before.
pub parse_long_header-Fits :
    (datagram : Bytes) (h : Header) → parse_long_header datagram ≡ done h → Fits datagram h
parse_long_header-Fits datagram h e =
    Safe-done (Fits datagram) (parse_long_header datagram) h (parse_long_header-Safe datagram) e

-- No datagram makes the reading of its server name panic, where the key derivation returns as many
-- bytes as it is asked for and the block cipher returns blocks of 16 bytes: every index is in
-- range, and each loop ends within its fuel.
pub peek-ne-panic :
    {Prk : Type 0} (crypto : Crypto Prk) (datagram : Bytes)
    → ((prk : Prk) (info : Bytes) (len : ℕ) (out : Bytes)
        → crypto.expand prk info len ≡ some out
        → length out ≡ len)
    → ((key block out : Bytes) → crypto.encrypt_block key block ≡ some out → length out ≡ 16)
    → peek crypto datagram ≢ panic
unfolding peek
peek-ne-panic crypto d expand_length block_length = Safe-ne-panic Any (peek crypto d) (
    Safe-bind (Fits d) Any (parse_long_header d) _ (parse_long_header-Safe d) λ h fits.
      Safe-bind Sized Any (initial_keys crypto h.version h.dcid) _
        (initial_keys-Safe crypto expand_length block_length h.version h.dcid)
        λ keys sized.
          Safe-bind Any Any (open_packet crypto keys d h.pn_offset h.length) _
            (open_packet-Safe crypto expand_length block_length keys d h.pn_offset h.length sized)
            λ plaintext p.
              Safe-bind Any Any (reassemble_crypto plaintext) _ (reassemble_crypto-Safe plaintext)
                λ bytes b. client_hello_server_name-Safe bytes)

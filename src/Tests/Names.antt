-- ===== src/Tests/Names.antt =====
-- Tests of reading the server name, and of telling an Initial.
use sleepytale.Base.{
  [], ℕ, zero, suc, ◌≡◌, ◌≢◌, ◌↔◌, ◌⊎◌, refl, ◌≤◌, true, false, some, length, replicate, arith,
}
use sleepytale.Base.Bytes.{Bytes, ascii}
use sleepytale.Base.Outcome.{done, panic}
use sleepytale.Sni.{peek}
use sleepytale.Sni.Header.{Header, parse_long_header}
use sleepytale.Sni.Header.Bounds.{Fits}
use sleepytale.Sni.Panics.{peek-ne-panic, parse_long_header-Fits}
use sleepytale.Sni.Fuel.{EndsBy, loops_end}
use sleepytale.Sni.Frames.{reassemble_crypto, walk}
use sleepytale.Sni.Hello.{client_hello_server_name, find_host_name, find_server_name}
use sleepytale.Sni.Keys.{initial_keys, open_packet, expand_label, unmask, xor_at}
use sleepytale.Sni.Frames.{read_frame, read_crypto}
use sleepytale.Sni.Utf8.{from_utf8}
use sleepytale.Sni.Reader.{new, u8, u16, u24, u32, take, cid, varint, append_bytes, skip}
use sleepytale.Knock.{min_initial, quic_v1, quic_v2, is_quic_initial}
use sleepytale.Knock.Shape.{OpensWith, is_quic_initial_iff}
use sleepytale.Tests.Data.{cipher, client_hello, initial}

hello_length : length client_hello ≡ 69
hello_length = refl

hello_named : client_hello_server_name client_hello ≡ done (ascii "lobby.example")
unfolding client_hello_server_name u8 take new u24 skip u16 from_utf8
hello_named = refl

initial_length : length initial ≡ 1200
initial_length = refl

abbrev header_of_initial : Header
header_of_initial = record { version = 1; dcid = replicate 8 9; pn_offset = 18; length = 1182 }

initial_parsed : parse_long_header initial ≡ done header_of_initial
unfolding parse_long_header u8 take new u32 cid varint append_bytes skip
initial_parsed = refl

pub initial_named : peek cipher initial ≡ done (ascii "lobby.example")
unfolding peek parse_long_header initial_keys open_packet reassemble_crypto client_hello_server_name
    u8 take new u32 cid varint append_bytes skip u16 u24 from_utf8 expand_label unmask xor_at
    read_frame read_crypto
initial_named = refl

-- The laws of the cipher that the reading relies on.
length-replicate : (n x : ℕ) → length (replicate n x) ≡ n
length-replicate zero x = refl
length-replicate (suc n) x = omega (arith, length-replicate n x)

expanded :
    (prk info : Bytes) (len : ℕ) (out : Bytes)
    → cipher.expand prk info len ≡ some out
    → length out ≡ len
expanded prk info len out e = ground (arith, e, length-replicate len 0)

block : (key b out : Bytes) → cipher.encrypt_block key b ≡ some out → length out ≡ 16
block key b out e = ground (arith, e)

peek-ne-panic_example : peek cipher initial ≢ panic
peek-ne-panic_example = peek-ne-panic cipher initial expanded block

loops_end_example :
    EndsBy (λ n. walk n (new client_hello) []) 70
    × EndsBy (λ n. find_host_name n (new client_hello)) 70
    × EndsBy (λ n. find_server_name n (new client_hello)) 70
loops_end_example = loops_end client_hello

parse_long_header-Fits_example : Fits initial header_of_initial
parse_long_header-Fits_example = parse_long_header-Fits initial header_of_initial initial_parsed

is_quic_initial_iff_example : (is_quic_initial initial ≡ true) ↔ (
    (min_initial ≤ length initial)
    × (OpensWith 0b1100_0000 quic_v1 initial ⊎ OpensWith 0b1101_0000 quic_v2 initial))
is_quic_initial_iff_example = is_quic_initial_iff initial

pub initial_is_initial : is_quic_initial initial ≡ true
unfolding is_quic_initial
initial_is_initial = refl

pub short_is_other : is_quic_initial client_hello ≡ false
unfolding is_quic_initial
short_is_other = refl

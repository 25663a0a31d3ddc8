-- ===== src/Sni/RoundTrip/Message.antt =====
-- A datagram that offers a server name, for `peek_server_name` of crates/sleepytale/src/sni.rs:
-- a ClientHello cut into the CRYPTO frames of a sealed Initial.
use Prim.Native.Nat.{bit_and, bit_xor}
use sleepytale.Base.{
  ℕ, ◌+◌, ◌*◌, ◌≤◌, ◌<◌, ◌^◌, ◌≡◌, refl, ap, ◌∙◌, ◌⊎◌, inl, inr, true, List, [], ◌∷◌, ◌++◌, length,
  arith, length-append, All, some,
}
use sleepytale.Base.Bytes.{Bytes}
use sleepytale.Base.Bits.{bit_and-bit_xor, bit_and_le}
use sleepytale.Base.Outcome.{to_option, done}
use sleepytale.Sni.{peek, peek_server_name}
use sleepytale.Knock.{is_quic_initial, min_initial, quic_v1, quic_v2}
use sleepytale.Knock.Shape.{OpensWith, is_quic_initial_iff}
use sleepytale.Sni.RoundTrip.Numbers.{four_bytes}
use sleepytale.Sni.Header.{parse_long_header}
use sleepytale.Sni.Keys.{Crypto, open_packet}
use sleepytale.Sni.RoundTrip.Hello.{Hello, IsHello, hello_bytes}
use sleepytale.Sni.RoundTrip.Hello.Read.{client_hello_server_name-hello_bytes}
use sleepytale.Sni.RoundTrip.Frames.{Sent, IsSent, frames, sent_pieces}
use sleepytale.Sni.RoundTrip.Frames.Read.{reassemble_crypto-frames, Ended}
use sleepytale.Sni.RoundTrip.Stream.{IsSlice, Covers}
use sleepytale.Sni.RoundTrip.Packet.{
  Version, v1, v2, number_bytes, Initial, IsInitial, first_byte, initial_first, middle,
  middle_append, pn_offset, version_number, type_bits, parse_long_header-middle,
}
use sleepytale.Sni.RoundTrip.Protection.{
  xor_bytes, Seal, IsSeal, packet, masked_number, length-masked_number, open_packet-protected,
}

-- More of the stream, of the payload and of the datagram may follow what is read of them.
pub record Message : Type 0 where
  pub initial : Initial
  pub seal : Seal
  pub sent : List Sent
  pub more_frames : Bytes
  pub hello : Hello
  pub more_stream : Bytes
  pub more_packets : Bytes

abbrev pub stream : Message → Bytes
stream m = hello_bytes m.hello m.more_stream

abbrev pub payload : Message → Bytes
payload m = frames m.sent m.more_frames

abbrev pub datagram : Message → Bytes
datagram m = packet m.initial m.seal m.more_packets

-- Every layer is well formed, and the CRYPTO frames cover the stream in any order.
pub record IsMessage {Prk : Type 0} (crypto : Crypto Prk) (m : Message) : Type 0 where
  pub is_initial : IsInitial m.initial
  pub is_seal : IsSeal crypto m.initial m.seal (payload m)
  pub are_sent : All IsSent m.sent
  pub ended : Ended m.more_frames
  pub slices : All (IsSlice (stream m)) (sent_pieces m.sent)
  pub covered : (i : ℕ) → i < length (stream m) → Covers (sent_pieces m.sent) i
  pub is_hello : IsHello m.hello
  pub stream_size : length (stream m) < 2 ^ 64
  pub payload_size : length (payload m) < 2 ^ 64
  pub datagram_size : length (datagram m) < 2 ^ 64

first_byte_small : (v : Version) (n : ℕ) → n < 4 → 0xc0 + type_bits v * 2 ^ 4 + n < 256
first_byte_small v1 n h = omega arith
first_byte_small v2 n h = omega arith

opens :
    (v : Version) (first : ℕ) (rest : Bytes)
    → bit_and first 0xf0 ≡ 0xc0 + type_bits v * 2 ^ 4
    → let d = first ∷ (four_bytes (version_number v) ++ rest) in
      OpensWith 0b1100_0000 quic_v1 d ⊎ OpensWith 0b1101_0000 quic_v2 d
opens v1 first rest h = inl (first, rest, refl, h)
opens v2 first rest h = inr (first, rest, refl, h)

module _ {Prk : Type 0} (crypto : Crypto Prk) (m : Message) (ok : IsMessage crypto m) where
  header_read :
      parse_long_header (datagram m)
      ≡ done (record {
        version = version_number m.initial.version;
        dcid = m.initial.dcid;
        pn_offset = pn_offset m.initial;
        length = m.initial.length;
      })
  header_read =
      let p = m.initial in
      let s = m.seal in
      let mask = bit_and s.mask_first 0x0f in
      let number =
        masked_number crypto s.keys (first_byte p) (middle p []) s.ciphertext p.pn_more
          p.packet_number s.mask_first s.mask (payload m) m.more_packets in
      let tail = number ++ (s.ciphertext ++ m.more_packets) in
      let bits = initial_first p.version p.pn_more ok.is_initial.number_size in
      let kept =
        bit_and-bit_xor (first_byte p) mask
          (first_byte_small p.version p.pn_more ok.is_initial.number_size)
          (omega (arith, bit_and_le s.mask_first 0x0f)) in
      let size =
        length-masked_number crypto s.keys (first_byte p) (middle p []) s.ciphertext p.pn_more
          p.packet_number s.mask_first s.mask (payload m) m.more_packets in
      parse_long_header-middle p ok.is_initial (bit_xor (first_byte p) mask) tail (kept.0 ∙ bits.0)
        (kept.1 ∙ bits.1)
        (omega (
          arith,
          length-append number (s.ciphertext ++ m.more_packets),
          length-append s.ciphertext m.more_packets,
          ok.is_seal.counted,
          size,
        ))
        ok.datagram_size

  payload_opened :
      open_packet crypto m.seal.keys (datagram m) (pn_offset m.initial) m.initial.length
      ≡ done (payload m)
  payload_opened =
      let p = m.initial in
      let s = m.seal in
      let seal = ok.is_seal in
      let small = ok.is_initial in
      rw (middle_append p (xor_bytes (number_bytes p) s.mask ++ (s.ciphertext ++ m.more_packets))) (
        open_packet-protected crypto s.keys (first_byte p) (middle p []) s.ciphertext p.pn_more
          p.packet_number s.mask_first s.mask (payload m) m.more_packets p.length seal.counted
          small.number_size small.number_fits small.some_payload
          (first_byte_small p.version p.pn_more small.number_size)
          (initial_first p.version p.pn_more small.number_size).2 seal.iv_size seal.masked
          seal.mask_bytes seal.mask_size (rw (middle_append p (number_bytes p)) at seal.opens))

  peek-datagram : peek crypto (datagram m) ≡ done m.hello.name
  unfolding peek
  peek-datagram =
      rw
        (
          header_read,
          ok.is_seal.derived,
          payload_opened,
          reassemble_crypto-frames (stream m) m.sent m.more_frames ok.are_sent ok.ended ok.slices
              ok.covered (omega arith) ok.payload_size,
          client_hello_server_name-hello_bytes m.hello ok.is_hello m.more_stream ok.stream_size,
        )
        refl

  -- The server name of a sealed Initial is read: the datagram is a well-formed Initial of version 1
  -- or 2 under the keys that its version and connection id give; its payload is well-formed frames
  -- whose CRYPTO pieces, in any order, cover a stream that opens with a ClientHello; and the
  -- ClientHello names the server in its first host name, of 1 to 253 bytes of UTF-8.
  pub peek_server_name-datagram : peek_server_name crypto (datagram m) ≡ some m.hello.name
  unfolding peek_server_name
  peek_server_name-datagram = ap to_option peek-datagram

  kept_bits :
      bit_and (bit_xor (first_byte m.initial) (bit_and m.seal.mask_first 0x0f)) 0xf0
      ≡ 0xc0 + type_bits m.initial.version * 2 ^ 4
  kept_bits =
      let p = m.initial in
      (bit_and-bit_xor (first_byte p) (bit_and m.seal.mask_first 0x0f)
        (first_byte_small p.version p.pn_more ok.is_initial.number_size)
        (omega (arith, bit_and_le m.seal.mask_first 0x0f))).2
      ∙ (initial_first p.version p.pn_more ok.is_initial.number_size).3

  pub is_quic_initial-datagram :
      min_initial ≤ length (datagram m) → is_quic_initial (datagram m) ≡ true
  is_quic_initial-datagram size =
      (is_quic_initial_iff (datagram m)).1 (size, opens m.initial.version _ _ kept_bits)

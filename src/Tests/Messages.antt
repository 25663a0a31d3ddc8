-- ===== src/Tests/Messages.antt =====
-- Tests of reading a server name out of a datagram that a client has made.
use sleepytale.Base.{
  ℕ, ◌+◌, ◌≡◌, ◌<◌, refl, some, inl, inr, List, [], ◌∷◌, ◌++◌, length, replicate, arith, take, drop,
  All,
}
use native.Mathlib.Decide.{dec_lt}
use sleepytale.Base.Bytes.{Bytes, ascii}
use sleepytale.Base.Outcome.{done}
use sleepytale.Sni.{peek_server_name}
use sleepytale.Sni.Reader.{new, varint}
use sleepytale.Sni.Keys.{initial_keys, expand_label}
use sleepytale.Sni.Frames.{reassemble_crypto}
use sleepytale.Sni.Hello.{client_hello_server_name}
use sleepytale.Sni.Utf8.{from_utf8}
use sleepytale.Sni.RoundTrip.{Ahead, Gives}
use sleepytale.Sni.RoundTrip.Numbers.{varint_bytes, varint-varint_bytes, low_bytes}
use sleepytale.Sni.RoundTrip.Hello.{Hello, IsHello, hello_bytes}
use sleepytale.Sni.RoundTrip.Hello.Read.{client_hello_server_name-hello_bytes}
use sleepytale.Sni.RoundTrip.Frames.{
  Sent, padding, ping, ack, crypto_at, frames, sent_pieces, IsSent,
}
use sleepytale.Sni.RoundTrip.Frames.Read.{reassemble_crypto-frames}
use sleepytale.Sni.RoundTrip.Stream.{IsSlice, Covers}
use sleepytale.Sni.RoundTrip.Packet.{IsInitial, v2}
use sleepytale.Sni.RoundTrip.Protection.{IsSeal}
use sleepytale.Sni.RoundTrip.Message.{
  Message, IsMessage, datagram, payload, peek_server_name-datagram,
}
use sleepytale.Tests.Data.{cipher}

-- 15293 over two bytes.
abbrev number_reader_rest : Bytes
number_reader_rest = 1 ∷ 2 ∷ []

number_bytes : varint_bytes 1 15293 ≡ 0x7b ∷ 0xbd ∷ []
unfolding varint_bytes
number_bytes = refl

number-Ahead :
    Ahead
      (new (varint_bytes 1 15293 ++ number_reader_rest))
      (varint_bytes 1 15293 ++ number_reader_rest)
unfolding new varint_bytes low_bytes
number-Ahead = (refl, omega arith, omega arith)

number_read :
    Gives (varint (new (varint_bytes 1 15293 ++ number_reader_rest))) 15293 number_reader_rest
number_read =
    varint-varint_bytes 1 15293 (omega arith) (new (varint_bytes 1 15293 ++ number_reader_rest))
      number_reader_rest number-Ahead

abbrev lobby_hello : Hello
lobby_hello = record {
  version = replicate 34 3;
  session_id = 7 ∷ [];
  cipher_suites = 19 ∷ 1 ∷ [];
  compression = 0 ∷ [];
  before = (16, 0 ∷ 3 ∷ 2 ∷ b'h' ∷ b'3' ∷ []) ∷ [];
  other_names = (1, ascii "other") ∷ [];
  name = ascii "Lobby.example";
  more_names = [];
  after = 0 ∷ 43 ∷ 0 ∷ 0 ∷ [];
}

lobby_hello-IsHello : IsHello lobby_hello
unfolding from_utf8
lobby_hello-IsHello = record {
  version_size = refl;
  session_size = omega arith;
  suites_size = omega arith;
  compression_size = omega arith;
  extensions_size = omega arith;
  others = (omega arith, tt);
  other_kinds = (omega arith, tt);
  some_name = omega arith;
  short_name = omega arith;
  utf8 = refl;
}

client_hello_server_name-hello_bytes_example :
    client_hello_server_name (hello_bytes lobby_hello (1 ∷ [])) ≡ done (ascii "Lobby.example")
client_hello_server_name-hello_bytes_example =
    client_hello_server_name-hello_bytes lobby_hello lobby_hello-IsHello (1 ∷ []) (omega arith)

-- The ClientHello in two pieces that overlap, the later one first.
abbrev lobby_stream : Bytes
lobby_stream = hello_bytes lobby_hello []

abbrev late : Bytes
late = drop 40 lobby_stream

abbrev early : Bytes
early = take 50 lobby_stream

abbrev lobby_sent : List Sent
lobby_sent =
    ping
    ∷ crypto_at (0, 40) 0 late
    ∷ ack (record {
      largest = (0, 3);
      delay = (1, 99);
      count_size = 0;
      first = (0, 1);
      further = ((0, 1), (0, 0)) ∷ [];
    })
    ∷ padding
    ∷ crypto_at (2, 0) 1 early
    ∷ padding
    ∷ []

-- A CONNECTION_CLOSE ends the walk.
abbrev closing : Bytes
closing = 0x1c ∷ 0 ∷ 0 ∷ 0 ∷ []

lobby_sent-IsSent : All IsSent lobby_sent
lobby_sent-IsSent = omega arith

lobby_slices : All (IsSlice lobby_stream) (sent_pieces lobby_sent)
lobby_slices = (refl, (refl, tt))

lobby_covered : (i : ℕ) → i < length lobby_stream → Covers (sent_pieces lobby_sent) i
lobby_covered i h = elim (dec_lt i 50) [
  | yes p ↦ inr (inl (omega arith))
  | no p ↦ inl (omega arith)
]

reassemble_crypto-frames_example : reassemble_crypto (frames lobby_sent closing) ≡ done lobby_stream
unfolding varint_bytes
reassemble_crypto-frames_example =
    reassemble_crypto-frames lobby_stream lobby_sent closing lobby_sent-IsSent (omega arith)
      lobby_slices lobby_covered (omega arith) (omega arith)

abbrev pub lobby_message : Message
lobby_message = record {
  initial = record {
    version = v2;
    dcid = replicate 8 9;
    scid = 1 ∷ 2 ∷ [];
    token_size = 1;
    token = replicate 1200 5;
    length_size = 1;
    length = 2 + length (frames lobby_sent closing);
    pn_more = 1;
    packet_number = 513;
  };
  seal = record {
    keys = record { key = replicate 16 0; iv = replicate 12 0; hp = replicate 16 0 };
    ciphertext = frames lobby_sent closing;
    mask_first = 0;
    mask = replicate 15 0;
  };
  sent = lobby_sent;
  more_frames = closing;
  hello = lobby_hello;
  more_stream = [];
  more_packets = 1 ∷ [];
}

lobby_keys : initial_keys cipher 0x6b33_43cf (replicate 8 9) ≡ done lobby_message.seal.keys
unfolding initial_keys expand_label
lobby_keys = refl

lobby_initial : IsInitial lobby_message.initial
unfolding varint_bytes
lobby_initial = record {
  dcid_size = omega arith;
  scid_size = omega arith;
  token_fits = omega arith;
  length_fits = omega arith;
  some_payload = omega arith;
  number_size = omega arith;
  number_fits = omega arith;
}

lobby_seal : IsSeal cipher lobby_message.initial lobby_message.seal (payload lobby_message)
lobby_seal = record {
  derived = lobby_keys;
  iv_size = refl;
  masked = refl;
  mask_first_byte = omega arith;
  mask_bytes = omega arith;
  mask_size = omega arith;
  opens = refl;
  counted = refl;
}

pub lobby_message-IsMessage : IsMessage cipher lobby_message
unfolding varint_bytes
lobby_message-IsMessage = record {
  is_initial = lobby_initial;
  is_seal = lobby_seal;
  are_sent = lobby_sent-IsSent;
  ended = omega arith;
  slices = lobby_slices;
  covered = lobby_covered;
  is_hello = lobby_hello-IsHello;
  stream_size = omega arith;
  payload_size = omega arith;
  datagram_size = omega arith;
}

peek_server_name-datagram_example :
    peek_server_name cipher (datagram lobby_message) ≡ some (ascii "Lobby.example")
peek_server_name-datagram_example =
    peek_server_name-datagram cipher lobby_message lobby_message-IsMessage

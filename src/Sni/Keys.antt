-- ===== src/Sni/Keys.antt =====
-- `Keys` and `expand_label` of crates/sleepytale/src/sni.rs. The crates hkdf, aes and aes-gcm
-- are parameters.
pub mod Bounds
use Prim.Native.Nat.{bit_and, bit_xor}
use sleepytale.Base.{
  ℕ, ◌+◌, ◌*◌, ◌/◌, ◌%◌, ◌^◌, Option, none, some, [], ◌∷◌, ◌++◌, ltb, leb, ◌==◌, if◌then◌else◌,
  length, set, take, drop,
}
use sleepytale.Base.Bytes.{Bytes, ascii}
use sleepytale.Base.Outcome.{Outcome, done, panic, ◌>>=◌, try, index, get_range}
use sleepytale.Sni.Header.{version1, version2, sample}

-- `extract salt ikm` is `Hkdf::new`; `expand prk info len` fills `len` bytes; `encrypt_block key b`
-- is AES-128 of one block, and `decrypt key nonce aad msg` AES-128-GCM. They fail on a key or an
-- output of a wrong length, and `decrypt` on a wrong tag.
pub record Crypto (Prk : Type 0) : Type 0 where
  pub extract : Bytes → Bytes → Prk
  pub from_prk : Bytes → Option Prk
  pub expand : Prk → Bytes → ℕ → Option Bytes
  pub encrypt_block : Bytes → Bytes → Option Bytes
  pub decrypt : Bytes → Bytes → Bytes → Bytes → Option Bytes

abbrev pub v1_salt : Bytes
v1_salt =
    0x38 ∷ 0x76 ∷ 0x2c ∷ 0xf7 ∷ 0xf5 ∷ 0x59 ∷ 0x34 ∷ 0xb3 ∷ 0x4d ∷ 0x17 ∷ 0x9a ∷ 0xe6 ∷ 0xa4 ∷ 0xc8
    ∷ 0x0c ∷ 0xad ∷ 0xcc ∷ 0xbb ∷ 0x7f ∷ 0x0a ∷ []

abbrev pub v2_salt : Bytes
v2_salt =
    0x0d ∷ 0xed ∷ 0xe3 ∷ 0xde ∷ 0xf7 ∷ 0x00 ∷ 0xa6 ∷ 0xdb ∷ 0x81 ∷ 0x93 ∷ 0x81 ∷ 0xbe ∷ 0x6e ∷ 0x26
    ∷ 0x9d ∷ 0xcb ∷ 0xf9 ∷ 0xbd ∷ 0x2e ∷ 0xd9 ∷ []

pub record Keys : Type 0 where
  pub key : Bytes
  pub iv : Bytes
  pub hp : Bytes

-- The salt and the three labels of a version.
pub record Labels : Type 0 where
  pub salt : Bytes
  pub key_label : Bytes
  pub iv_label : Bytes
  pub hp_label : Bytes

abbrev pub labels : ℕ → Option Labels
labels version =
    if version == version1
    then some (record {
      salt = v1_salt;
      key_label = ascii "quic key";
      iv_label = ascii "quic iv";
      hp_label = ascii "quic hp";
    })
    else if version == version2
    then some (record {
      salt = v2_salt;
      key_label = ascii "quicv2 key";
      iv_label = ascii "quicv2 iv";
      hp_label = ascii "quicv2 hp";
    })
    else none

-- `u16::try_from` and `to_be_bytes`; `u8::try_from`.
abbrev pub u16_bytes : ℕ → Option Bytes
u16_bytes n = if ltb n (2 ^ 16) then some (n / 2 ^ 8 ∷ n % 2 ^ 8 ∷ []) else none

abbrev pub to_u8 : ℕ → Option ℕ
to_u8 n = if ltb n (2 ^ 8) then some n else none

-- `u64::to_be_bytes`
abbrev pub u64_bytes : ℕ → Bytes
u64_bytes n =
    n / 2 ^ 56 % 2 ^ 8
    ∷ n / 2 ^ 48 % 2 ^ 8
    ∷ n / 2 ^ 40 % 2 ^ 8
    ∷ n / 2 ^ 32 % 2 ^ 8
    ∷ n / 2 ^ 24 % 2 ^ 8
    ∷ n / 2 ^ 16 % 2 ^ 8
    ∷ n / 2 ^ 8 % 2 ^ 8
    ∷ n % 2 ^ 8
    ∷ []

-- The loop over `header[pn_offset..]`: the clear bytes and the number that they make.
unfoldable pub unmask : Bytes → Bytes → ℕ → Outcome (Bytes × ℕ)
unmask [] mask number = done ([], number)
unmask (b ∷ bs) [] number = panic
unmask (b ∷ bs) (m ∷ mask) number = do
  let clear = bit_xor b m
  (rest, whole) ← unmask bs mask (number * 2 ^ 8 % 2 ^ 64 + clear)
  done (clear ∷ rest, whole)

-- `nonce[i + 4] ^= byte`: the bytes are xored in from the given place on.
unfoldable pub xor_at : Bytes → ℕ → Bytes → Outcome Bytes
xor_at nonce i [] = done nonce
xor_at nonce i (b ∷ bs) = do old ← index nonce i; xor_at (set nonce i (bit_xor old b)) (i + 1) bs

-- `header[0] = first`
abbrev pub set_first : Bytes → ℕ → Outcome Bytes
set_first [] first = panic
set_first (b ∷ bs) first = done (first ∷ bs)

-- `header[from..]` splits the header; the front is kept.
abbrev pub tail_from : Bytes → ℕ → Outcome (Bytes × Bytes)
tail_from header from =
    if leb from (length header) then done (take from header, drop from header) else panic

module _ {Prk : Type 0} (crypto : Crypto Prk) where
  unfoldable pub expand_label : Prk → Bytes → ℕ → Outcome Bytes
  expand_label prk label len = do
    size ← try (u16_bytes len)
    label_size ← try (to_u8 (6 + length label))
    try (crypto.expand prk (size ++ (label_size ∷ (ascii "tls13 " ++ (label ++ (0 ∷ []))))) len)

  unfoldable pub initial_keys : ℕ → Bytes → Outcome Keys
  initial_keys version dcid = do
    l ← try (labels version)
    client_initial ← expand_label (crypto.extract l.salt dcid) (ascii "client in") 32
    client ← try (crypto.from_prk client_initial)
    key ← expand_label client l.key_label 16
    iv ← expand_label client l.iv_label 12
    hp ← expand_label client l.hp_label 16
    done (record { key = key; iv = iv; hp = hp })

  -- `Keys::open`
  unfoldable pub open_packet : Keys → Bytes → ℕ → ℕ → Outcome Bytes
  open_packet keys datagram pn_offset len = do
    block ← try (get_range datagram (pn_offset + 4) (pn_offset + 4 + sample))
    mask ← try (crypto.encrypt_block keys.hp block)
    protected ← index datagram 0
    mask0 ← index mask 0
    let first = bit_xor protected (bit_and mask0 0x0f)
    let pn_len = bit_and first 0x03 + 1
    masked ← try (get_range datagram 0 (pn_offset + pn_len))
    header ← set_first masked first
    (front, number) ← tail_from header pn_offset
    (clear, packet_number) ← unmask number (drop 1 mask) 0
    nonce ← xor_at keys.iv 4 (u64_bytes packet_number)
    ciphertext ← try (get_range datagram (pn_offset + pn_len) (pn_offset + len))
    try (crypto.decrypt keys.key nonce (front ++ clear) ciphertext)

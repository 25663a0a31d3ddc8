-- ===== src/Sni/Keys/Bounds.antt =====
-- The indices of opening a packet in crates/sleepytale/src/sni.rs, with the sizes that the crates
-- hkdf and aes document.
use Prim.Native.Nat.{bit_and, bit_xor}
use sleepytale.Base.{
  ℕ, ◌+◌, ◌-◌, ◌*◌, ◌%◌, ◌^◌, ◌≤◌, ◌≡◌, refl, some, [], ◌∷◌, length, arith, drop, set, length-take,
  length-drop,
}
use sleepytale.Base.Bytes.{Bytes, ascii}
use sleepytale.Base.Bits.{bit_and_le}
use sleepytale.Base.Outcome.{get_range}
use sleepytale.Base.Safe.{Safe, Any, Safe-bind, Safe-try, try-Safe, Safe-index, length-set}
use sleepytale.Sni.Header.{sample}
use sleepytale.Sni.Keys.{
  Crypto, Keys, labels, unmask, xor_at, set_first, tail_from, u16_bytes, to_u8, u64_bytes,
  expand_label, initial_keys, open_packet,
}

abbrev Long : ℕ → Bytes → Type 0
Long n bytes = length bytes ≡ n

abbrev pub Sized : Keys → Type 0
Sized keys = length keys.iv ≡ 12

pub length-get_range :
    (xs : Bytes) (from to : ℕ) (ys : Bytes)
    → get_range xs from to ≡ some ys
    → (length ys + from ≡ to) × (to ≤ length xs)
length-get_range xs from to ys e =
    ground (arith, e, length-take (to - from) (drop from xs), length-drop from xs)

unmask-Safe :
    (bs mask : Bytes) (number : ℕ)
    → length bs ≤ length mask
    → Safe (λ _. Unit {0}) (unmask bs mask number)
unfolding unmask
unmask-Safe [] mask number le = tt
unmask-Safe (b ∷ bs) [] number le = absurd (omega arith)
unmask-Safe (b ∷ bs) (m ∷ mask) number le =
    Safe-bind (λ _. Unit) (λ _. Unit) (unmask bs mask (number * 2 ^ 8 % 2 ^ 64 + bit_xor b m)) _
      (unmask-Safe bs mask _ (omega arith)) λ x h. tt

xor_at-Safe :
    (nonce : Bytes) (i : ℕ) (bs : Bytes)
    → i + length bs ≤ length nonce
    → Safe (λ _. Unit {0}) (xor_at nonce i bs)
unfolding xor_at
xor_at-Safe nonce i [] le = tt
xor_at-Safe nonce i (b ∷ bs) le =
    Safe-index (λ _. Unit) nonce i _ (omega arith)
      λ old.
        xor_at-Safe (set nonce i (bit_xor old b)) (i + 1) bs
          (omega (arith, length-set nonce i (bit_xor old b)))

set_first-Safe :
    (bs : Bytes) (first : ℕ)
    → 1 ≤ length bs
    → Safe (λ hs. length hs ≡ length bs) (set_first bs first)
set_first-Safe [] first le = omega arith
set_first-Safe (b ∷ bs) first le = refl

tail_from-Safe :
    (bs : Bytes) (from : ℕ)
    → from ≤ length bs
    → Safe (λ x. length x.1 + from ≡ length bs) (tail_from bs from)
tail_from-Safe bs from le = ground (arith, length-drop from bs)

module _ {Prk : Type 0} (crypto : Crypto Prk)
    (expand_length : (prk : Prk) (info : Bytes) (len : ℕ) (out : Bytes)
      → crypto.expand prk info len ≡ some out
      → length out ≡ len)
    (block_length : (key block out : Bytes)
      → crypto.encrypt_block key block ≡ some out
      → length out ≡ 16) where
  expand_label-Safe :
      (prk : Prk) (label : Bytes) (len : ℕ)
      → Safe (λ out. length out ≡ len) (expand_label crypto prk label len)
  unfolding expand_label
  expand_label-Safe prk label len =
      Safe-try (λ out. length out ≡ len) (u16_bytes len) _
        λ size s.
          Safe-try (λ out. length out ≡ len) (to_u8 (6 + length label)) _
            λ label_size l.
              try-Safe (λ out. length out ≡ len) (crypto.expand prk _ len) (expand_length prk _ len)

  pub initial_keys-Safe :
      (version : ℕ) (dcid : Bytes) → Safe Sized (initial_keys crypto version dcid)
  unfolding initial_keys
  initial_keys-Safe version dcid = Safe-try Sized (labels version) _ λ l known.
      Safe-bind (Long 32) Sized
        (expand_label crypto (crypto.extract l.salt dcid) (ascii "client in") 32) _
        (expand_label-Safe (crypto.extract l.salt dcid) (ascii "client in") 32)
        λ secret s. Safe-try Sized (crypto.from_prk secret) _ λ client c.
          Safe-bind (Long 16) Sized (expand_label crypto client l.key_label 16) _
            (expand_label-Safe client l.key_label 16)
            λ key k.
              Safe-bind (Long 12) Sized (expand_label crypto client l.iv_label 12) _
                (expand_label-Safe client l.iv_label 12)
                λ iv i.
                  Safe-bind (Long 16) Sized (expand_label crypto client l.hp_label 16) _
                    (expand_label-Safe client l.hp_label 16) λ hp h. i

  pub open_packet-Safe :
      (keys : Keys) (datagram : Bytes) (pn_offset len : ℕ)
      → Sized keys
      → Safe Any (open_packet crypto keys datagram pn_offset len)
  unfolding open_packet
  open_packet-Safe keys d pn_offset len sized =
      Safe-try Any (get_range d (pn_offset + 4) (pn_offset + 4 + sample)) _ λ block got.
        Safe-try Any (crypto.encrypt_block keys.hp block) _ λ mask encrypted.
          Safe-index Any d 0 _ (omega (arith, length-get_range d _ _ block got)) λ protected.
            Safe-index Any mask 0 _ (omega (arith, block_length keys.hp block mask encrypted))
              λ mask0.
                let first = bit_xor protected (bit_and mask0 0x0f) in
                let pn_len = bit_and first 0x03 + 1 in
                Safe-try Any (get_range d 0 (pn_offset + pn_len)) _ λ masked cut.
                  Safe-bind (λ hs. length hs ≡ length masked) Any (set_first masked first) _
                    (set_first-Safe masked first (omega (arith, length-get_range d _ _ masked cut)))
                    λ header same.
                      Safe-bind (λ x. length x.1 + pn_offset ≡ length header) Any
                        (tail_from header pn_offset) _
                        (tail_from-Safe header pn_offset
                          (omega (arith, same, length-get_range d _ _ masked cut)))
                        λ x split.
                          Safe-bind Any Any (unmask x.1 (drop 1 mask) 0) _
                            (unmask-Safe x.1 (drop 1 mask) 0 (
                              omega (
                                arith,
                                same,
                                split,
                                length-get_range d _ _ masked cut,
                                length-drop 1 mask,
                                block_length keys.hp block mask encrypted,
                                bit_and_le first 3,
                              )))
                            λ y u.
                              Safe-bind Any Any (xor_at keys.iv 4 (u64_bytes y.1)) _
                                (xor_at-Safe keys.iv 4 (u64_bytes y.1) (omega (arith, sized)))
                                λ nonce n.
                                  Safe-try Any (get_range d (pn_offset + pn_len) (pn_offset + len))
                                    _
                                    λ ciphertext c.
                                      try-Safe Any (crypto.decrypt keys.key nonce _ ciphertext)
                                        λ plaintext p. tt

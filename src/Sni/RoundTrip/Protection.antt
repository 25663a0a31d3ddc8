-- ===== src/Sni/RoundTrip/Protection.antt =====
-- An Initial as QUIC seals it, for `Keys::open` of crates/sleepytale/src/sni.rs.
use Prim.Native.Nat.{bit_and, bit_xor}
use mathlib.Core.List.{append_assoc}
use native.Mathlib.Nat.{add-sub_cancel_left}
use sleepytale.Base.{
  take-append-drop, ℕ, zero, suc, ◌+◌, ◌-◌, ◌*◌, ◌/◌, ◌%◌, ◌≤◌, ◌<◌, ◌^◌, ◌≡◌, refl, sym, ap, ◌∙◌,
  [], ◌∷◌, ◌++◌, length, arith, length-append, leb, true, some, take, drop, take-append,
  drop-append, get_elem?, set, length-take, length-drop,
}
use sleepytale.Base.Bytes.{Bytes, IsByte, AreBytes}
use sleepytale.Base.Bits.{bit_and_le, xor_twice}
use sleepytale.Base.Outcome.{done, get_range}
use sleepytale.Sni.Reader.{append_bytes}
use sleepytale.Sni.Header.{sample}
use sleepytale.Sni.Keys.{
  Crypto, Keys, initial_keys, open_packet, unmask, xor_at, u64_bytes, tail_from,
}
use sleepytale.Sni.RoundTrip.Numbers.{low_bytes, length-low_bytes, append_bytes-low_bytes}
use sleepytale.Sni.RoundTrip.Packet.{Initial, version_number, first_byte, middle, number_bytes}

abbrev pub xor_bytes : Bytes → Bytes → Bytes
xor_bytes [] ms = []
xor_bytes (b ∷ bs) [] = b ∷ bs
xor_bytes (b ∷ bs) (m ∷ ms) = bit_xor b m ∷ xor_bytes bs ms

length-xor_bytes : (bs ms : Bytes) → length (xor_bytes bs ms) ≡ length bs
length-xor_bytes [] ms = refl
length-xor_bytes (b ∷ bs) [] = refl
length-xor_bytes (b ∷ bs) (m ∷ ms) = ap suc (length-xor_bytes bs ms)

-- The nonce: the last eight bytes of the initialisation vector with the packet number.
abbrev pub nonce : Bytes → ℕ → Bytes
nonce iv n = take 4 iv ++ xor_bytes (drop 4 iv) (u64_bytes n)

All-append : (xs : Bytes) (x : ℕ) → AreBytes xs → IsByte x → AreBytes (xs ++ (x ∷ []))
All-append [] x hs h = (h, tt)
All-append (y ∷ xs) x (k, hs) h = (k, All-append xs x hs h)

low_bytes-AreBytes : (n v : ℕ) → AreBytes (low_bytes n v)
unfolding low_bytes
low_bytes-AreBytes zero v = tt
low_bytes-AreBytes (suc n) v =
    All-append (low_bytes n (v / 2 ^ 8)) (v % 2 ^ 8) (low_bytes-AreBytes n (v / 2 ^ 8))
      (omega arith)

unmask-xor_bytes :
    (bs ms : Bytes) (n : ℕ)
    → AreBytes bs
    → AreBytes ms
    → length bs ≤ length ms
    → unmask (xor_bytes bs ms) ms n ≡ done (bs, append_bytes n bs)
unfolding unmask append_bytes
unmask-xor_bytes [] ms n hb hm long = refl
unmask-xor_bytes (b ∷ bs) [] n hb hm long = absurd (omega arith)
unmask-xor_bytes (b ∷ bs) (m ∷ ms) n (hb, hbs) (hm, hms) long =
    rw (xor_twice b m hb hm, unmask-xor_bytes bs ms (n * 2 ^ 8 % 2 ^ 64 + b) hbs hms (omega arith))
      refl

get_elem?-middle : (xs ys : Bytes) (y : ℕ) → get_elem? (xs ++ (y ∷ ys)) (length xs) ≡ some y
get_elem?-middle [] ys y = refl
get_elem?-middle (x ∷ xs) ys y = get_elem?-middle xs ys y

set-middle : (xs ys : Bytes) (y z : ℕ) → set (xs ++ (y ∷ ys)) (length xs) z ≡ xs ++ (z ∷ ys)
set-middle [] ys y z = refl
set-middle (x ∷ xs) ys y z = ap (◌∷◌ x) (set-middle xs ys y z)

xor_at-xor_bytes :
    (xs ys bs : Bytes) (i : ℕ)
    → i ≡ length xs
    → length bs ≤ length ys
    → xor_at (xs ++ ys) i bs ≡ done (xs ++ xor_bytes ys bs)
unfolding xor_at
xor_at-xor_bytes xs [] [] i at long = refl
xor_at-xor_bytes xs (y ∷ ys) [] i at long = refl
xor_at-xor_bytes xs [] (b ∷ bs) i at long = absurd (omega arith)
xor_at-xor_bytes xs (y ∷ ys) (b ∷ bs) i at long =
    let x = bit_xor y b in
    let rest =
      xor_at-xor_bytes (xs ++ (x ∷ [])) ys bs (length xs + 1)
        (omega (arith, length-append xs (x ∷ []))) (omega arith) in
    rw (at, get_elem?-middle xs ys y, set-middle xs ys y x)
      (rw (append_assoc xs (x ∷ []) ys, append_assoc xs (x ∷ []) (xor_bytes ys bs)) at rest)

get_range_lem :
    (d xs ys zs : Bytes) (from to : ℕ)
    → d ≡ xs ++ (ys ++ zs)
    → from ≡ length xs
    → to ≡ from + length ys
    → get_range d from to ≡ some ys
get_range_lem d xs ys zs from to e start end =
    let cut : take (to - from) (drop from d) ≡ ys =
      rw (e, end, start, drop-append xs (ys ++ zs))
        (rw (add-sub_cancel_left (length xs) (length ys)) (take-append ys zs)) in
    let ordered : leb from to ≡ true = ground arith in
    let inside : leb to (length d) ≡ true =
      ground (arith, ap length e, length-append xs (ys ++ zs), length-append ys zs) in
    rw (ordered, inside, cut) refl

regroup :
    (a b x y z rest : Bytes)
    → a ++ (b ++ ((x ++ (y ++ z)) ++ rest)) ≡ (a ++ (b ++ x)) ++ (y ++ (z ++ rest))
regroup a b x y z rest = simp append_assoc

-- A packet number has four bytes at most.
no_more : (n v : ℕ) → n < 4 → v < 256 ^ suc n → (v / 256 ^ suc n ≡ 0) × (v < 2 ^ 64)
no_more zero v h small = omega arith
no_more (suc zero) v h small = omega arith
no_more (suc (suc zero)) v h small = omega arith
no_more (suc (suc (suc zero))) v h small = omega arith
no_more (suc (suc (suc (suc n)))) v h small = absurd (omega arith)

append_bytes-number : (n v : ℕ) → n < 4 → v < 256 ^ suc n → append_bytes 0 (low_bytes (suc n) v) ≡ v
append_bytes-number n v h small =
    let (e, fits) = no_more n v h small in rw e at (append_bytes-low_bytes (suc n) v fits)

-- A first byte, a middle, a masked packet number and a sealed payload, for any keys.
module _ {Prk : Type 0} (crypto : Crypto Prk) (keys : Keys) (first : ℕ) (mid cipher : Bytes)
    (n v : ℕ) (mask_first : ℕ) (mask payload rest : Bytes) where
  abbrev pub low_mask : ℕ
  low_mask = bit_and mask_first 0x0f

  abbrev pub masked_number : Bytes
  masked_number = xor_bytes (low_bytes (suc n) v) mask

  abbrev pub protected : Bytes
  protected = bit_xor first low_mask ∷ (mid ++ (masked_number ++ (cipher ++ rest)))

  abbrev front : Bytes
  front = bit_xor first low_mask ∷ mid

  pub length-masked_number : length masked_number ≡ suc n
  length-masked_number = length-xor_bytes (low_bytes (suc n) v) mask ∙ length-low_bytes (suc n) v

  sample_range :
      n < 4
      → 31 ≤ n + length cipher
      → get_range protected (suc (length mid) + 4) (suc (length mid) + 4 + sample)
        ≡ some (take sample (drop (3 - n) cipher))
  sample_range h k =
      let skipped = take (3 - n) cipher in
      let left = drop (3 - n) cipher in
      let before = front ++ (masked_number ++ skipped) in
      let parts : protected ≡ before ++ (take sample left ++ (drop sample left ++ rest)) =
        ap (λ c. bit_xor first low_mask ∷ (mid ++ (masked_number ++ (c ++ rest))))
          (sym (
            ap (λ c. skipped ++ c) (take-append-drop sample left)
            ∙ take-append-drop (3 - n) cipher))
        ∙ ap (◌∷◌ (bit_xor first low_mask))
            (regroup mid masked_number skipped (take sample left) (drop sample left) rest) in
      get_range_lem protected before (take sample left) (drop sample left ++ rest)
        (suc (length mid) + 4) (suc (length mid) + 4 + sample) parts
        (omega (
          arith,
          length-append front (masked_number ++ skipped),
          length-append masked_number skipped,
          length-masked_number,
          length-take (3 - n) cipher,
        ))
        (omega (arith, length-take sample left, length-drop (3 - n) cipher))

  number_range : get_range protected 0 (suc (length mid) + (n + 1)) ≡ some (front ++ masked_number)
  number_range =
      get_range_lem protected [] (front ++ masked_number) (cipher ++ rest) 0
        (suc (length mid) + (n + 1)) (sym (append_assoc front masked_number (cipher ++ rest))) refl
        (omega (arith, length-append front masked_number, length-masked_number))

  cipher_range :
      get_range protected (suc (length mid) + (n + 1)) (suc (length mid) + (suc n + length cipher))
      ≡ some cipher
  cipher_range =
      get_range_lem protected (front ++ masked_number) cipher rest (suc (length mid) + (n + 1))
        (suc (length mid) + (suc n + length cipher))
        (sym (append_assoc front masked_number (cipher ++ rest)))
        (omega (arith, length-append front masked_number, length-masked_number)) (omega arith)

  unmasked :
      n < 4
      → v < 256 ^ suc n
      → AreBytes mask
      → 4 ≤ length mask
      → unmask masked_number mask 0 ≡ done (low_bytes (suc n) v, v)
  unmasked h small bytes size =
      unmask-xor_bytes (low_bytes (suc n) v) mask 0 (low_bytes-AreBytes (suc n) v) bytes
        (omega (arith, length-low_bytes (suc n) v))
      ∙ ap (λ k. done (low_bytes (suc n) v, k)) (append_bytes-number n v h small)

  tail_made :
      tail_from (first ∷ (mid ++ masked_number)) (suc (length mid))
      ≡ done (first ∷ mid, masked_number)
  tail_made =
      let fits : leb (suc (length mid)) (suc (length (mid ++ masked_number))) ≡ true =
        ground (arith, length-append mid masked_number) in
      rw (fits, take-append mid masked_number, drop-append mid masked_number) refl

  nonce_made : length keys.iv ≡ 12 → xor_at keys.iv 4 (u64_bytes v) ≡ done (nonce keys.iv v)
  nonce_made size = rw (take-append-drop 4 keys.iv) at (
      xor_at-xor_bytes (take 4 keys.iv) (drop 4 keys.iv) (u64_bytes v) 4
        (omega (arith, length-take 4 keys.iv)) (omega (arith, length-drop 4 keys.iv)))

  pub open_packet-protected :
      (long : ℕ)
      → long ≡ suc n + length cipher
      → n < 4
      → v < 256 ^ suc n
      → 32 ≤ long
      → first < 256
      → bit_and first 0x03 ≡ n
      → length keys.iv ≡ 12
      → crypto.encrypt_block keys.hp (take sample (drop (3 - n) cipher)) ≡ some (mask_first ∷ mask)
      → AreBytes mask
      → 4 ≤ length mask
      → crypto.decrypt keys.key (nonce keys.iv v) (first ∷ (mid ++ low_bytes (suc n) v)) cipher
        ≡ some payload
      → open_packet crypto keys protected (suc (length mid)) long ≡ done payload
  unfolding open_packet
  open_packet-protected long counted h small room byte size_bits iv masked bytes size opens =
      let low_small : low_mask < 256 = omega (arith, bit_and_le mask_first 0x0f) in
      rw (counted, sample_range h (omega arith), masked)
        (rw (xor_twice first low_mask byte low_small, size_bits, number_range)
          (rw (tail_made, unmasked h small bytes size, nonce_made iv, cipher_range, opens) refl))

-- The keys that the version and the connection id give, what the mask of the header is made of,
-- and what the payload is sealed to.
pub record Seal : Type 0 where
  pub keys : Keys
  pub ciphertext : Bytes
  pub mask_first : ℕ
  pub mask : Bytes

abbrev pub packet : Initial → Seal → Bytes → Bytes
packet p s rest =
    bit_xor (first_byte p) (bit_and s.mask_first 0x0f)
    ∷ middle p (xor_bytes (number_bytes p) s.mask ++ (s.ciphertext ++ rest))

module _ {Prk : Type 0} (crypto : Crypto Prk) where
  pub record IsSeal (p : Initial) (s : Seal) (payload : Bytes) : Type 0 where
    pub derived : initial_keys crypto (version_number p.version) p.dcid ≡ done s.keys
    pub iv_size : length s.keys.iv ≡ 12
    pub masked :
        crypto.encrypt_block s.keys.hp (take sample (drop (3 - p.pn_more) s.ciphertext))
        ≡ some (s.mask_first ∷ s.mask)
    pub mask_first_byte : IsByte s.mask_first
    pub mask_bytes : AreBytes s.mask
    pub mask_size : 4 ≤ length s.mask
    pub opens :
        crypto.decrypt s.keys.key
          (nonce s.keys.iv p.packet_number)
          (first_byte p ∷ middle p (number_bytes p))
          s.ciphertext
        ≡ some payload
    pub counted : p.length ≡ suc p.pn_more + length s.ciphertext

-- ===== src/Sni/RoundTrip/Numbers.antt =====
-- The numbers that go over the wire, and how the readers of crates/sleepytale/src/sni.rs take them.
use Prim.Native.Nat.{bit_and}
use native.Mathlib.Nat.{pow-suc, mul_comm, div-div-eq-div-mul}
use sleepytale.Base.{
  ℕ, zero, suc, ◌+◌, ◌-◌, ◌*◌, ◌/◌, ◌%◌, ◌^◌, ◌≤◌, ◌<◌, ◌≡◌, refl, sym, ◌∙◌, [], ◌∷◌, ◌++◌, length,
  arith, length-append, leb, true,
}
use sleepytale.Base.Bytes.{Bytes}
use sleepytale.Base.Bits.{bit_and_63}
use sleepytale.Sni.Reader.{Reader, take, u8, u16, u24, u32, cid, varint, append_bytes, max_cid}
use sleepytale.Sni.RoundTrip.{
  Ahead, Gives, Gives-bind, u8-Gives, u16-Gives, u24-Gives, u32-Gives, take-Gives_number,
}

-- Two, three and four bytes, the highest first.
abbrev pub two_bytes : ℕ → Bytes
two_bytes n = n / 2 ^ 8 % 2 ^ 8 ∷ n % 2 ^ 8 ∷ []

abbrev pub three_bytes : ℕ → Bytes
three_bytes n = n / 2 ^ 16 % 2 ^ 8 ∷ n / 2 ^ 8 % 2 ^ 8 ∷ n % 2 ^ 8 ∷ []

abbrev pub four_bytes : ℕ → Bytes
four_bytes n = n / 2 ^ 24 % 2 ^ 8 ∷ n / 2 ^ 16 % 2 ^ 8 ∷ n / 2 ^ 8 % 2 ^ 8 ∷ n % 2 ^ 8 ∷ []

module _ (r : Reader) (n : ℕ) (rest : Bytes) where
  pub u16-Gives_bytes : n < 2 ^ 16 → Ahead r (two_bytes n ++ rest) → Gives (u16 r) n rest
  u16-Gives_bytes small h =
      let e : n / 2 ^ 8 % 2 ^ 8 * 2 ^ 8 + n % 2 ^ 8 ≡ n = omega arith in
      rw e at (u16-Gives r (n / 2 ^ 8 % 2 ^ 8) (n % 2 ^ 8) rest h)

  pub u24-Gives_bytes : n < 2 ^ 24 → Ahead r (three_bytes n ++ rest) → Gives (u24 r) n rest
  u24-Gives_bytes small h =
      let e : n / 2 ^ 16 % 2 ^ 8 * 2 ^ 16 + n / 2 ^ 8 % 2 ^ 8 * 2 ^ 8 + n % 2 ^ 8 ≡ n =
        omega arith in
      rw e at (u24-Gives r (n / 2 ^ 16 % 2 ^ 8) (n / 2 ^ 8 % 2 ^ 8) (n % 2 ^ 8) rest h)

  pub u32-Gives_bytes : n < 2 ^ 32 → Ahead r (four_bytes n ++ rest) → Gives (u32 r) n rest
  u32-Gives_bytes small h =
      let e : n / 2 ^ 24 % 2 ^ 8 * 2 ^ 24
            + n / 2 ^ 16 % 2 ^ 8 * 2 ^ 16
            + n / 2 ^ 8 % 2 ^ 8 * 2 ^ 8
            + n % 2 ^ 8
          ≡ n =
        omega arith in
      rw e at (
        u32-Gives r (n / 2 ^ 24 % 2 ^ 8) (n / 2 ^ 16 % 2 ^ 8) (n / 2 ^ 8 % 2 ^ 8) (n % 2 ^ 8) rest
          h)

pub cid-Gives :
    (r : Reader) (id rest : Bytes)
    → length id ≤ max_cid
    → Ahead r (length id ∷ (id ++ rest))
    → Gives (cid r) id rest
unfolding cid
cid-Gives r id rest short h =
    Gives-bind (λ o. Gives o id rest) (u8 r) _ (length id) (id ++ rest) (u8-Gives r (length id) _ h)
      λ r' k.
        let fits : leb (length id) max_cid ≡ true = ground (arith, short) in
        rw fits (take-Gives_number r' (length id) id rest refl k)

-- The lowest `n` bytes of a number, the highest of them first.
unfoldable pub low_bytes : ℕ → ℕ → Bytes
low_bytes zero v = []
low_bytes (suc n) v = low_bytes n (v / 2 ^ 8) ++ (v % 2 ^ 8 ∷ [])

pub length-low_bytes : (n v : ℕ) → length (low_bytes n v) ≡ n
unfolding low_bytes
length-low_bytes zero v = refl
length-low_bytes (suc n) v = omega (
  arith,
  length-append (low_bytes n (v / 2 ^ 8)) (v % 2 ^ 8 ∷ []),
  length-low_bytes n (v / 2 ^ 8),
)

append_bytes-append :
    (acc : ℕ) (xs : Bytes) (b : ℕ)
    → append_bytes acc (xs ++ (b ∷ [])) ≡ append_bytes acc xs * 2 ^ 8 % 2 ^ 64 + b
unfolding append_bytes
append_bytes-append acc [] b = refl
append_bytes-append acc (x ∷ xs) b = append_bytes-append (acc * 2 ^ 8 % 2 ^ 64 + x) xs b

-- The loop of `varint` puts the lower bytes behind the higher ones.
pub append_bytes-low_bytes : (n v : ℕ) → v < 2 ^ 64 → append_bytes (v / 256 ^ n) (low_bytes n v) ≡ v
unfolding low_bytes append_bytes
append_bytes-low_bytes zero v small = omega arith
append_bytes-low_bytes (suc n) v small =
    let parts : v / 256 ^ suc n ≡ v / 2 ^ 8 / 256 ^ n =
      rw (pow-suc 256 n, mul_comm (256 ^ n) 256) (sym (div-div-eq-div-mul v 256 (256 ^ n))) in
    let front = append_bytes-low_bytes n (v / 2 ^ 8) (omega arith) in
    rw parts (
      append_bytes-append (v / 2 ^ 8 / 256 ^ n) (low_bytes n (v / 2 ^ 8)) (v % 2 ^ 8)
      ∙ rw front (omega arith))

-- A number over `2 ^ k` bytes, of which the first tells `k`.
unfoldable pub varint_bytes : ℕ → ℕ → Bytes
unfolding low_bytes
varint_bytes k v = (k * 2 ^ 6 + v / 256 ^ (2 ^ k - 1)) ∷ low_bytes (2 ^ k - 1) v

-- What such a first byte can hold.
abbrev pub FitsVarint : ℕ → ℕ → Type 0
FitsVarint k v = (k < 4) × (v < 2 ^ 6 * 256 ^ (2 ^ k - 1))

pub varint_head : (k v : ℕ) → FitsVarint k v → (v / 256 ^ (2 ^ k - 1) < 2 ^ 6) × (v < 2 ^ 64)
varint_head zero v fits = omega arith
varint_head (suc zero) v fits = omega arith
varint_head (suc (suc zero)) v fits = omega arith
varint_head (suc (suc (suc zero))) v fits = omega arith
varint_head (suc (suc (suc (suc k)))) v fits = absurd (omega arith)

module _ (k v : ℕ) (fits : FitsVarint k v) where
  -- A number of 62 bits at most, written over one, two, four or eight bytes, is read back with
  -- exactly its bytes taken, whatever follows it.
  pub varint-varint_bytes :
      (r : Reader) (rest : Bytes) → Ahead r (varint_bytes k v ++ rest) → Gives (varint r) v rest
  unfolding varint varint_bytes
  varint-varint_bytes r rest h =
      let n = 2 ^ k - 1 in
      let head = k * 2 ^ 6 + v / 256 ^ n in
      Gives-bind (λ o. Gives o v rest) (u8 r) _ head (low_bytes n v ++ rest) (u8-Gives r head _ h)
        λ r1 h1.
          let tag : head / 2 ^ 6 ≡ k = omega (arith, varint_head k v fits) in
          let masked : bit_and head 0x3f ≡ v / 256 ^ n =
            omega (arith, varint_head k v fits, bit_and_63 head) in
          rw (tag, masked)
            (Gives-bind (λ o. Gives o v rest) (take r1 n) _ (low_bytes n v) rest
              (take-Gives_number r1 n (low_bytes n v) rest (sym (length-low_bytes n v)) h1)
              λ r2 h2. (r2, rw (append_bytes-low_bytes n v (varint_head k v fits).1), h2))

-- ===== src/Sni/RoundTrip/Packet.antt =====
-- The header of an Initial as QUIC lays it out, for `parse_long_header` of
-- crates/sleepytale/src/sni.rs.
use Prim.Native.Nat.{bit_and}
use mathlib.Core.List.{append_assoc, append-nil}
use sleepytale.Base.{
  ℕ, zero, suc, ◌+◌, ◌*◌, ◌/◌, ◌≤◌, ◌<◌, ◌^◌, ◌≡◌, refl, ap, ◌∙◌, [], ◌∷◌, ◌++◌, length, arith,
  length-append, ltb, not, ◌||◌, ◌==◌, true, some,
}
use sleepytale.Base.Bytes.{Bytes}
use sleepytale.Base.Outcome.{Outcome, done, ◌>>=◌}
use sleepytale.Sni.Reader.{Read, Reader, new, u8, u32, cid, varint, skip, to_usize, max_cid}
use sleepytale.Sni.Header.{Header, parse_long_header, version1, version2, initial_type, sample, tag}
use sleepytale.Base.Safe.{Safe, Safe-weaken}
use sleepytale.Sni.Reader.Bounds.{
  Took, After, CidRead, u8-Safe, u32-Safe, cid-Safe, varint-Safe, skip-Safe,
}
use sleepytale.Sni.RoundTrip.{Ahead, Gives, Moves, u8-Gives, skip-Moves, new-Ahead}
use sleepytale.Sni.RoundTrip.Numbers.{
  varint_head, low_bytes, four_bytes, u32-Gives_bytes, cid-Gives, FitsVarint, varint_bytes,
  varint-varint_bytes,
}

pub data Version : Type 0 where
  v1 : Version
  v2 : Version

abbrev pub version_number : Version → ℕ
version_number v1 = version1
version_number v2 = version2

abbrev pub type_bits : Version → ℕ
type_bits v1 = 0
type_bits v2 = 1

-- The packet number is written over `pn_more + 1` bytes, and `length` counts them too.
pub record Initial : Type 0 where
  pub version : Version
  pub dcid : Bytes
  pub scid : Bytes
  pub token_size : ℕ
  pub token : Bytes
  pub length_size : ℕ
  pub length : ℕ
  pub pn_more : ℕ
  pub packet_number : ℕ

abbrev pub first_byte : Initial → ℕ
first_byte p = 0xc0 + type_bits p.version * 2 ^ 4 + p.pn_more

-- What stands between the first byte and the packet number, before what follows.
abbrev pub middle : Initial → Bytes → Bytes
middle p rest =
    four_bytes (version_number p.version)
    ++ (length p.dcid
        ∷ (p.dcid
            ++ (length p.scid
                ∷ (p.scid
                    ++ (varint_bytes p.token_size (length p.token)
                        ++ (p.token ++ (varint_bytes p.length_size p.length ++ rest)))))))

abbrev pub number_bytes : Initial → Bytes
number_bytes p = low_bytes (suc p.pn_more) p.packet_number

pub record IsInitial (p : Initial) : Type 0 where
  pub dcid_size : length p.dcid ≤ max_cid
  pub scid_size : length p.scid ≤ max_cid
  pub token_fits : FitsVarint p.token_size (length p.token)
  pub length_fits : FitsVarint p.length_size p.length
  pub some_payload : sample + tag ≤ p.length
  pub number_size : p.pn_more < 4
  pub number_fits : p.packet_number < 256 ^ suc p.pn_more

pub initial_first :
    (v : Version) (n : ℕ)
    → n < 4
    → (bit_and (0xc0 + type_bits v * 2 ^ 4 + n) 0xc0 ≡ 0xc0)
      × (bit_and (0xc0 + type_bits v * 2 ^ 4 + n) 0x30 ≡ type_bits v * 2 ^ 4)
      × (bit_and (0xc0 + type_bits v * 2 ^ 4 + n) 0x03 ≡ n)
      × (bit_and (0xc0 + type_bits v * 2 ^ 4 + n) 0xf0 ≡ 0xc0 + type_bits v * 2 ^ 4)
initial_first v1 zero h = (refl, refl, refl, refl)
initial_first v1 (suc zero) h = (refl, refl, refl, refl)
initial_first v1 (suc (suc zero)) h = (refl, refl, refl, refl)
initial_first v1 (suc (suc (suc zero))) h = (refl, refl, refl, refl)
initial_first v1 (suc (suc (suc (suc n)))) h = absurd (omega arith)
initial_first v2 zero h = (refl, refl, refl, refl)
initial_first v2 (suc zero) h = (refl, refl, refl, refl)
initial_first v2 (suc (suc zero)) h = (refl, refl, refl, refl)
initial_first v2 (suc (suc (suc zero))) h = (refl, refl, refl, refl)
initial_first v2 (suc (suc (suc (suc n)))) h = absurd (omega arith)

initial_type-version_number : (v : Version) → initial_type (version_number v) ≡ some (type_bits v)
initial_type-version_number v1 = refl
initial_type-version_number v2 = refl

version_number_lt : (v : Version) → version_number v < 2 ^ 32
version_number_lt v1 = omega arith
version_number_lt v2 = omega arith

pub middle_append : (p : Initial) (rest : Bytes) → middle p rest ≡ middle p [] ++ rest
middle_append p rest = simp (append_assoc, append-nil)

abbrev pub pn_offset : Initial → ℕ
pn_offset p = suc (length (middle p []))

-- A read that stays on the same bytes.
module _ {A B : Type 0} where
  Gives-bind_on :
      (P : Outcome B → Type 0) (r : Reader) (n : ℕ) (m : Read A) (f : A × Reader → Outcome B)
      (a : A) (rest : Bytes)
      → Safe (Took n r) m
      → Gives m a rest
      → ((r' : Reader) → r'.bytes ≡ r.bytes → Ahead r' rest → P (f (a, r')))
      → P (m >>= f)
  Gives-bind_on P r n m f a rest safe (r', e, h) k =
      let after : Safe (Took n r) (done (a, r')) = rw e at safe in rw e (k r' after.0 h)

module _ {B : Type 0} where
  Moves-bind_on :
      (P : Outcome B → Type 0) (r : Reader) (n : ℕ) (m : Outcome Reader) (f : Reader → Outcome B)
      (rest : Bytes)
      → Safe (After n r) m
      → Moves m rest
      → ((r' : Reader) → r'.bytes ≡ r.bytes → Ahead r' rest → P (f r'))
      → P (m >>= f)
  Moves-bind_on P r n m f rest safe (r', e, h) k =
      let after : Safe (After n r) (done r') = rw e at safe in rw e (k r' after.0 h)

cid-Took : (r : Reader) → Safe (Took 1 r) (cid r)
cid-Took r = Safe-weaken (CidRead r) (Took 1 r) (cid r) (cid-Safe r) λ x h. h.0

to_usize-fits : (n : ℕ) → n < 2 ^ 64 → to_usize n ≡ some n
to_usize-fits n h = ground arith

-- A header with a first byte of which the low bits may be masked, before what follows.
module _ (p : Initial) (ok : IsInitial p) (first : ℕ) (tail : Bytes)
    (long : bit_and first 0xc0 ≡ 0xc0) (kind : bit_and first 0x30 ≡ type_bits p.version * 2 ^ 4)
    (room : p.length ≤ length tail) (small : suc (length (middle p tail)) < 2 ^ 64) where
  kind_test : (bit_and first 0x30 / 2 ^ 4 == type_bits p.version) ≡ true
  kind_test = ground (arith, kind)

  place : (r : Reader) → r.bytes ≡ first ∷ middle p tail → Ahead r tail → r.at ≡ pn_offset p
  place r same h = omega (
    arith,
    h.1,
    ap length same,
    ap length (middle_append p tail),
    length-append (middle p []) tail,
  )

  room_test :
      not (
        ltb p.length (sample + tag)
        || ltb (length (first ∷ middle p tail)) (pn_offset p + p.length))
      ≡ true
  room_test =
      let whole = length-append (middle p []) tail in
      let size : length (middle p tail) ≡ length (middle p []) + length tail =
        ap length (middle_append p tail) ∙ whole in
      ground (arith, ok.some_payload)

  pub parse_long_header-middle :
      parse_long_header (first ∷ middle p tail)
      ≡ done (record {
        version = version_number p.version;
        dcid = p.dcid;
        pn_offset = pn_offset p;
        length = p.length;
      })
  unfolding parse_long_header new
  parse_long_header-middle =
      let datagram = first ∷ middle p tail in
      let P : Outcome Header → Type 0 = λ o.
        o
        ≡ done (record {
          version = version_number p.version;
          dcid = p.dcid;
          pn_offset = pn_offset p;
          length = p.length;
        }) in
      let at_length = varint_bytes p.length_size p.length ++ tail in
      let at_token = p.token ++ at_length in
      let at_size = varint_bytes p.token_size (length p.token) ++ at_token in
      let at_scid = length p.scid ∷ (p.scid ++ at_size) in
      let r0 = new datagram in
      Gives-bind_on P r0 1 (u8 r0) _ first (middle p tail) (u8-Safe r0)
        (u8-Gives r0 first _ (new-Ahead datagram small))
        λ r1 s1 h1. rw long (
          Gives-bind_on P r1 4 (u32 r1) _ (version_number p.version)
            (length p.dcid ∷ (p.dcid ++ at_scid)) (u32-Safe r1)
            (u32-Gives_bytes r1 _ _ (version_number_lt p.version) h1)
            λ r2 s2 h2.
              rw (initial_type-version_number p.version, kind_test)
                (Gives-bind_on P r2 1 (cid r2) _ p.dcid at_scid (cid-Took r2)
                  (cid-Gives r2 p.dcid _ ok.dcid_size h2)
                  λ r3 s3 h3.
                    Gives-bind_on P r3 1 (cid r3) _ p.scid at_size (cid-Took r3)
                      (cid-Gives r3 p.scid _ ok.scid_size h3)
                      λ r4 s4 h4.
                        Gives-bind_on P r4 1 (varint r4) _ (length p.token) at_token
                          (varint-Safe r4)
                          (varint-varint_bytes p.token_size _ ok.token_fits r4 _ h4)
                          λ r5 s5 h5.
                            let token_small =
                              (varint_head p.token_size (length p.token) ok.token_fits).1 in
                            let length_small =
                              (varint_head p.length_size p.length ok.length_fits).1 in
                            rw (to_usize-fits (length p.token) token_small) (
                              Moves-bind_on P r5 (length p.token) (skip r5 (length p.token)) _
                                at_length (skip-Safe r5 _)
                                (skip-Moves r5 _ p.token at_length refl h5)
                                λ r6 s6 h6.
                                  Gives-bind_on P r6 1 (varint r6) _ p.length tail (varint-Safe r6)
                                    (varint-varint_bytes p.length_size _ ok.length_fits r6 _ h6)
                                    λ r7 s7 h7.
                                      let same : r7.bytes ≡ datagram =
                                        s7 ∙ (s6 ∙ (s5 ∙ (s4 ∙ (s3 ∙ (s2 ∙ s1))))) in
                                      rw
                                        (
                                          to_usize-fits p.length length_small,
                                          place r7 same h7,
                                          room_test,
                                        )
                                        refl)))

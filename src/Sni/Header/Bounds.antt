-- ===== src/Sni/Header/Bounds.antt =====
-- The header and its datagram, in crates/sleepytale/src/sni.rs.
use Prim.Native.Nat.{bit_and}
use sleepytale.Base.{◌/◌, ◌^◌, ℕ, ◌+◌, ◌≤◌, ◌≡◌, some, length, arith, ltb, not, ◌==◌, ◌||◌}
use sleepytale.Base.Bytes.{Bytes}
use sleepytale.Base.Safe.{Safe, Safe-bind, Safe-try, Safe-require}
use sleepytale.Sni.Reader.{new, u8, u32, cid, varint, skip, max_cid, to_usize}
use sleepytale.Sni.Reader.Bounds.{
  After, Took, CidRead, u8-Safe, u32-Safe, cid-Safe, varint-Safe, skip-Safe,
}
use sleepytale.Sni.Header.{Header, parse_long_header, initial_type, tag, sample}

-- A supported version, a connection id of at most 20 bytes, and a packet that lies in the datagram
-- and has room for a sample and a tag.
abbrev pub Fits : Bytes → Header → Type 0
Fits datagram h =
    ((type : ℕ) × (initial_type h.version ≡ some type))
    × (length h.dcid ≤ max_cid)
    × (sample + tag ≤ h.length)
    × (h.pn_offset + h.length ≤ length datagram)

pub parse_long_header-Safe : (datagram : Bytes) → Safe (Fits datagram) (parse_long_header datagram)
unfolding parse_long_header new
parse_long_header-Safe d =
    Safe-bind (Took 1 (new d)) (Fits d) (u8 (new d)) _ (u8-Safe (new d)) λ x1 h1.
      Safe-require (Fits d) (bit_and x1.0 0xc0 == 0xc0) _ λ form.
        Safe-bind (Took 4 x1.1) (Fits d) (u32 x1.1) _ (u32-Safe x1.1) λ x2 h2.
          Safe-try (Fits d) (initial_type x2.0) _ λ wanted known.
            Safe-require (Fits d) (bit_and x1.0 0x30 / 2 ^ 4 == wanted) _ λ type.
              Safe-bind (CidRead x2.1) (Fits d) (cid x2.1) _ (cid-Safe x2.1) λ x3 h3.
                Safe-bind (CidRead x3.1) (Fits d) (cid x3.1) _ (cid-Safe x3.1) λ x4 h4.
                  Safe-bind (Took 1 x4.1) (Fits d) (varint x4.1) _ (varint-Safe x4.1) λ x5 h5.
                    Safe-try (Fits d) (to_usize x5.0) _ λ skipped s.
                      Safe-bind (After skipped x5.1) (Fits d) (skip x5.1 skipped) _
                        (skip-Safe x5.1 skipped)
                        λ r6 h6.
                          Safe-bind (Took 1 r6) (Fits d) (varint r6) _ (varint-Safe r6) λ x7 h7.
                            Safe-try (Fits d) (to_usize x7.0) _ λ len l.
                              Safe-require (Fits d)
                                (not (ltb len (sample + tag) || ltb (length d) (x7.1.at + len))) _
                                λ room. (
                                  (wanted, known),
                                  h3.1,
                                  ground (arith, room),
                                  ground (arith, room),
                                )

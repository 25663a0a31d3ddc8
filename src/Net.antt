-- ===== src/Net.antt =====
-- `std::net::SocketAddr`, as crates/sleepytale/src uses it: its family, its port, equality as the
-- key of a map and the derived order by which a `BTreeMap` sorts.
use sleepytale.Base.{ℕ, Bool, true, [], ◌∷◌, ◌≡◌, ap, arith}
use sleepytale.Base.Map.{Key}
use sleepytale.Base.Bytes.{
  Bytes, bytes_before, bytes_eqb, bytes_eqb_sound, bytes_eqb_complete, dec_of,
}

-- An IPv4 address and port; an IPv6 address, port, flow label and scope id.
pub data SocketAddr : Type 0 where
  v4 : ℕ → ℕ → SocketAddr
  v6 : ℕ → ℕ → ℕ → ℕ → SocketAddr

abbrev pub port : SocketAddr → ℕ
port (v4 ip p) = p
port (v6 ip p flow scope) = p

-- The fields, the family first.
unfoldable pub fields : SocketAddr → Bytes
fields (v4 ip p) = 4 ∷ ip ∷ p ∷ []
fields (v6 ip p flow scope) = 6 ∷ ip ∷ p ∷ flow ∷ scope ∷ []

fields-injective : (a b : SocketAddr) → fields a ≡ fields b → a ≡ b
unfolding fields
fields-injective (v4 a p) (v4 b q) e = ground arith
fields-injective (v4 a p) (v6 b q g t) e = ground arith
fields-injective (v6 a p f s) (v4 b q) e = ground arith
fields-injective (v6 a p f s) (v6 b q g t) e = ground arith

pub fields_sound : (a b : SocketAddr) → bytes_eqb (fields a) (fields b) ≡ true → a ≡ b
fields_sound a b h = fields-injective a b (bytes_eqb_sound (fields a) (fields b) h)

pub fields_complete : (a b : SocketAddr) → a ≡ b → bytes_eqb (fields a) (fields b) ≡ true
fields_complete a b e = bytes_eqb_complete (fields a) (fields b) (ap fields e)

unfoldable pub addr_eq : Discrete SocketAddr
unfolding fields bytes_eqb
addr_eq a b = dec_of (bytes_eqb (fields a) (fields b)) (fields_sound a b) (fields_complete a b)

-- The order compares the families, then the fields.
unfoldable pub addr_before : SocketAddr → SocketAddr → Bool
unfolding bytes_before fields
addr_before a b = bytes_before (fields a) (fields b)

instance abbrev pub addr_key : Key SocketAddr
addr_key = record { eq = addr_eq; before = addr_before }

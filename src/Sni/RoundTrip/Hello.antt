-- ===== src/Sni/RoundTrip/Hello.antt =====
-- A ClientHello as TLS lays it out, for `client_hello_server_name` of crates/sleepytale/src/sni.rs.
pub mod Read
use sleepytale.Base.{
  ℕ, zero, suc, ◌+◌, ◌≤◌, ◌<◌, ◌^◌, ◌≡◌, ◌≢◌, refl, sym, List, [], ◌∷◌, ◌++◌, length, arith,
  length-append, some, All,
}
use sleepytale.Base.Bytes.{Bytes}
use sleepytale.Base.Outcome.{done}
use sleepytale.Sni.Reader.{Reader, take, skip, u8, u16, u24, new}
use sleepytale.Sni.Utf8.{from_utf8}
use sleepytale.Sni.Hello.{
  find_host_name, find_server_name, server_name_list, skip_to_extensions, client_hello_server_name,
  max_server_name,
}
use sleepytale.Sni.RoundTrip.{
  take-Gives_all, Ahead, Moves, Gives-bind, Moves-bind, u8-Gives, take-Gives, skip-Moves, new-Ahead,
}
use sleepytale.Sni.RoundTrip.Numbers.{two_bytes, three_bytes, u16-Gives_bytes, u24-Gives_bytes}

-- An entry of a server name list, and an extension, before what follows them.
abbrev pub entry : ℕ → Bytes → Bytes → Bytes
entry kind name rest = kind ∷ (two_bytes (length name) ++ (name ++ rest))

abbrev pub extension : ℕ → Bytes → Bytes → Bytes
extension kind body rest = two_bytes kind ++ (two_bytes (length body) ++ (body ++ rest))

abbrev pub entries : List (ℕ × Bytes) → Bytes → Bytes
entries [] rest = rest
entries ((kind, name) ∷ es) rest = entry kind name (entries es rest)

abbrev pub extensions : List (ℕ × Bytes) → Bytes → Bytes
extensions [] rest = rest
extensions ((kind, body) ∷ es) rest = extension kind body (extensions es rest)

-- Other names stand before the host name, other extensions before that of the names, and anything
-- behind them.
pub record Hello : Type 0 where
  pub version : Bytes
  pub session_id : Bytes
  pub cipher_suites : Bytes
  pub compression : Bytes
  pub before : List (ℕ × Bytes)
  pub other_names : List (ℕ × Bytes)
  pub name : Bytes
  pub more_names : Bytes
  pub after : Bytes

abbrev pub name_list : Hello → Bytes
name_list h = entries h.other_names (entry 0 h.name h.more_names)

abbrev pub all_extensions : Hello → Bytes
all_extensions h =
    extensions h.before (extension 0 (two_bytes (length (name_list h)) ++ name_list h) h.after)

abbrev pub hello_body : Hello → Bytes
hello_body h =
    h.version
    ++ (length h.session_id
        ∷ (h.session_id
            ++ (two_bytes (length h.cipher_suites)
                ++ (h.cipher_suites
                    ++ (length h.compression
                        ∷ (h.compression
                            ++ (two_bytes (length (all_extensions h)) ++ all_extensions h)))))))

abbrev pub hello_bytes : Hello → Bytes → Bytes
hello_bytes h rest = 0x01 ∷ (three_bytes (length (hello_body h)) ++ (hello_body h ++ rest))

abbrev pub IsOther : ℕ × Bytes → Type 0
IsOther e = (e.0 ≢ 0) × (e.0 < 2 ^ 16)

-- The fields are as long as their lengths can say; the name is a host name.
pub record IsHello (h : Hello) : Type 0 where
  pub version_size : length h.version ≡ 34
  pub session_size : length h.session_id < 2 ^ 8
  pub suites_size : length h.cipher_suites < 2 ^ 16
  pub compression_size : length h.compression < 2 ^ 8
  pub extensions_size : length (all_extensions h) < 2 ^ 16
  pub others : All IsOther h.before
  pub other_kinds : All IsOther h.other_names
  pub some_name : 1 ≤ length h.name
  pub short_name : length h.name ≤ max_server_name
  pub utf8 : from_utf8 h.name ≡ some h.name

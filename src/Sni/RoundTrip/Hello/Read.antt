-- ===== src/Sni/RoundTrip/Hello/Read.antt =====
-- The readers of a ClientHello in crates/sleepytale/src/sni.rs on one that is laid out by the parent.
use sleepytale.Base.{
  ℕ, zero, suc, ◌+◌, ◌≤◌, ◌<◌, ◌^◌, ◌≡◌, refl, sym, List, [], ◌∷◌, ◌++◌, length, arith,
  length-append, some, All,
}
use sleepytale.Base.Bytes.{Bytes}
use sleepytale.Base.Outcome.{done}
use sleepytale.Sni.Reader.{Reader, take, skip, u8, u16, u24, new}
use sleepytale.Sni.Utf8.{from_utf8}
use sleepytale.Sni.Hello.{
  find_host_name, find_server_name, server_name_list, skip_to_extensions, client_hello_server_name,
  max_server_name,
}
use sleepytale.Sni.RoundTrip.{
  take-Gives_all, Ahead, Moves, Gives-bind, Moves-bind, u8-Gives, take-Gives, skip-Moves, new-Ahead,
}
use sleepytale.Sni.RoundTrip.Numbers.{two_bytes, u16-Gives_bytes, u24-Gives_bytes}
use sleepytale.Sni.RoundTrip.Hello.{
  Hello, IsHello, IsOther, all_extensions, entries, entry, extension, extensions, hello_body,
  hello_bytes, name_list,
}

module _ (name : Bytes) (more : Bytes) (one : 1 ≤ length name)
    (short : length name ≤ max_server_name) (utf8 : from_utf8 name ≡ some name) where
  find_host_name-entries :
      (fuel : ℕ) (os : List (ℕ × Bytes)) (r : Reader)
      → All IsOther os
      → length (entries os (entry 0 name more)) < 2 ^ 16
      → length (entries os (entry 0 name more)) < fuel
      → Ahead r (entries os (entry 0 name more))
      → find_host_name fuel r ≡ done name
  unfolding find_host_name
  find_host_name-entries zero os r kinds small enough h = absurd (omega arith)
  find_host_name-entries (suc fuel) [] r kinds small enough h =
      let (r1, e1, h1) = u8-Gives r 0 _ h in
      rw (e1, find_host_name)
        (Gives-bind (λ o. o ≡ done name) (u16 r1) _ (length name) (name ++ more)
          (u16-Gives_bytes r1 (length name) _ (omega arith) h1)
          λ r2 h2.
            Gives-bind (λ o. o ≡ done name) (take r2 (length name)) _ name more
              (take-Gives r2 name more h2) λ r3 h3. ground arith)
  find_host_name-entries (suc fuel) ((kind, other) ∷ os) r (ok, kinds) small enough h =
      let rest = entries os (entry 0 name more) in
      let size = length-append other rest in
      let (r1, e1, h1) = u8-Gives r kind _ h in
      rw (e1, find_host_name)
        (Gives-bind (λ o. o ≡ done name) (u16 r1) _ (length other) (other ++ rest)
          (u16-Gives_bytes r1 (length other) _ (omega arith) h1)
          λ r2 h2.
            Gives-bind (λ o. o ≡ done name) (take r2 (length other)) _ other rest
              (take-Gives r2 other rest h2)
              λ r3 h3.
                ground
                  (arith, find_host_name-entries fuel os r3 kinds (omega arith) (omega arith) h3))

extensions_size_le :
    (es : List (ℕ × Bytes)) (rest : Bytes) → length rest ≤ length (extensions es rest)
extensions_size_le [] rest = omega arith
extensions_size_le ((kind, body) ∷ es) rest =
    omega (arith, length-append body (extensions es rest), extensions_size_le es rest)

module _ (h : Hello) (ok : IsHello h) where
  list_size : length (name_list h) + 6 ≤ length (all_extensions h)
  list_size =
      let own = two_bytes (length (name_list h)) ++ name_list h in
      omega (
        arith,
        length-append (name_list h) h.after,
        extensions_size_le h.before (extension 0 own h.after),
      )

  server_name_list-name_list :
      server_name_list (two_bytes (length (name_list h)) ++ name_list h) ≡ done h.name
  unfolding server_name_list
  server_name_list-name_list =
      let list = name_list h in
      let small : length list < 2 ^ 16 = omega (arith, list_size, ok.extensions_size) in
      Gives-bind (λ o. o ≡ done h.name) (u16 (new (two_bytes (length list) ++ list))) _
        (length list) list (u16-Gives_bytes _ (length list) list small (new-Ahead _ (omega arith)))
        λ r1 h1.
          Gives-bind (λ o. o ≡ done h.name) (take r1 (length list)) _ list []
            (take-Gives_all r1 list h1)
            λ r2 h2.
              find_host_name-entries h.name h.more_names ok.some_name ok.short_name ok.utf8
                (suc (length list)) h.other_names (new list) ok.other_kinds small (omega arith)
                (new-Ahead list (omega arith))

  find_server_name-extensions :
      (fuel : ℕ) (es : List (ℕ × Bytes)) (r : Reader)
      → All IsOther es
      → length
          (extensions es (extension 0 (two_bytes (length (name_list h)) ++ name_list h) h.after))
        < 2 ^ 16
      → length
          (extensions es (extension 0 (two_bytes (length (name_list h)) ++ name_list h) h.after))
        < fuel
      → Ahead r
          (extensions es (extension 0 (two_bytes (length (name_list h)) ++ name_list h) h.after))
      → find_server_name fuel r ≡ done h.name
  unfolding find_server_name
  find_server_name-extensions zero es r kinds small enough k = absurd (omega arith)
  find_server_name-extensions (suc fuel) [] r kinds small enough k =
      let body = two_bytes (length (name_list h)) ++ name_list h in
      let size = length-append body h.after in
      let (r1, e1, h1) = u16-Gives_bytes r 0 _ (omega arith) k in
      rw (e1, find_server_name)
        (Gives-bind (λ o. o ≡ done h.name) (u16 r1) _ (length body) (body ++ h.after)
          (u16-Gives_bytes r1 (length body) _ (omega arith) h1)
          λ r2 h2.
            Gives-bind (λ o. o ≡ done h.name) (take r2 (length body)) _ body h.after
              (take-Gives r2 body h.after h2) λ r3 h3. server_name_list-name_list)
  find_server_name-extensions (suc fuel) ((kind, other) ∷ es) r (o, kinds) small enough k =
      let rest =
        extensions es (extension 0 (two_bytes (length (name_list h)) ++ name_list h) h.after) in
      let size = length-append other rest in
      let (r1, e1, h1) = u16-Gives_bytes r kind _ (omega arith) k in
      rw (e1, find_server_name)
        (Gives-bind (λ o. o ≡ done h.name) (u16 r1) _ (length other) (other ++ rest)
          (u16-Gives_bytes r1 (length other) _ (omega arith) h1)
          λ r2 h2.
            Gives-bind (λ o. o ≡ done h.name) (take r2 (length other)) _ other rest
              (take-Gives r2 other rest h2)
              λ r3 h3. ground (
                arith,
                find_server_name-extensions fuel es r3 kinds (omega arith) (omega arith) h3,
              ))

  skip_to_extensions-hello_body :
      (r : Reader)
      → Ahead r (hello_body h)
      → (r' : Reader) × (skip_to_extensions r ≡ done r')
        × Ahead r' (two_bytes (length (all_extensions h)) ++ all_extensions h)
  unfolding skip_to_extensions
  skip_to_extensions-hello_body r k =
      let exts = two_bytes (length (all_extensions h)) ++ all_extensions h in
      let after_suites = length h.compression ∷ (h.compression ++ exts) in
      let after_session = two_bytes (length h.cipher_suites) ++ (h.cipher_suites ++ after_suites) in
      Moves-bind (λ o. Moves o exts) (skip r (2 + 32)) _
        (length h.session_id ∷ (h.session_id ++ after_session))
        (skip-Moves r 34 h.version _ (sym ok.version_size) k)
        λ r1 k1.
          Gives-bind (λ o. Moves o exts) (u8 r1) _ (length h.session_id)
            (h.session_id ++ after_session) (u8-Gives r1 _ _ k1)
            λ r2 k2.
              Moves-bind (λ o. Moves o exts) (skip r2 (length h.session_id)) _ after_session
                (skip-Moves r2 _ h.session_id after_session refl k2)
                λ r3 k3.
                  Gives-bind (λ o. Moves o exts) (u16 r3) _ (length h.cipher_suites)
                    (h.cipher_suites ++ after_suites) (u16-Gives_bytes r3 _ _ ok.suites_size k3)
                    λ r4 k4.
                      Moves-bind (λ o. Moves o exts) (skip r4 (length h.cipher_suites)) _
                        after_suites (skip-Moves r4 _ h.cipher_suites after_suites refl k4)
                        λ r5 k5.
                          Gives-bind (λ o. Moves o exts) (u8 r5) _ (length h.compression)
                            (h.compression ++ exts) (u8-Gives r5 _ _ k5)
                            λ r6 k6. skip-Moves r6 _ h.compression exts refl k6

  body_size : length (hello_body h) < 2 ^ 18
  body_size =
      let exts = two_bytes (length (all_extensions h)) ++ all_extensions h in
      let after_suites = length h.compression ∷ (h.compression ++ exts) in
      let after_session = two_bytes (length h.cipher_suites) ++ (h.cipher_suites ++ after_suites) in
      omega (
        arith,
        ok.version_size,
        ok.session_size,
        ok.suites_size,
        ok.compression_size,
        ok.extensions_size,
        length-append h.version (length h.session_id ∷ (h.session_id ++ after_session)),
        length-append h.session_id after_session,
        length-append h.cipher_suites after_suites,
        length-append h.compression exts,
      )

  -- A ClientHello gives its host name.
  pub client_hello_server_name-hello_bytes :
      (rest : Bytes)
      → length (hello_bytes h rest) < 2 ^ 64
      → client_hello_server_name (hello_bytes h rest) ≡ done h.name
  unfolding client_hello_server_name
  client_hello_server_name-hello_bytes rest small =
      let body = hello_body h in
      let exts = all_extensions h in
      Gives-bind (λ o. o ≡ done h.name) (u8 (new (hello_bytes h rest))) _ 0x01 _
        (u8-Gives _ 0x01 _ (new-Ahead _ small))
        λ r1 k1.
          Gives-bind (λ o. o ≡ done h.name) (u24 r1) _ (length body) (body ++ rest)
            (u24-Gives_bytes r1 _ _ (omega (arith, body_size)) k1)
            λ r2 k2.
              Gives-bind (λ o. o ≡ done h.name) (take r2 (length body)) _ body rest
                (take-Gives r2 body rest k2)
                λ r3 k3.
                  Moves-bind (λ o. o ≡ done h.name) (skip_to_extensions (new body)) _
                    (two_bytes (length exts) ++ exts)
                    (skip_to_extensions-hello_body (new body)
                      (new-Ahead body (omega (arith, body_size))))
                    λ r4 k4.
                      Gives-bind (λ o. o ≡ done h.name) (u16 r4) _ (length exts) exts
                        (u16-Gives_bytes r4 _ _ ok.extensions_size k4)
                        λ r5 k5.
                          Gives-bind (λ o. o ≡ done h.name) (take r5 (length exts)) _ exts []
                            (take-Gives_all r5 exts k5)
                            λ r6 k6.
                              find_server_name-extensions (suc (length exts)) h.before (new exts)
                                ok.others ok.extensions_size (omega arith)
                                (new-Ahead exts (omega (arith, ok.extensions_size)))

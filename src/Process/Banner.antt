-- ===== src/Process/Banner.antt =====
-- The scan of crates/sleepytale/src/infra/process.rs and the whole of the output.
use sleepytale.Base.{
  ℕ, suc, ◌-◌, ◌≤◌, ◌<◌, ◌≡◌, ◌↔◌, ◌⊎◌, inl, inr, refl, sym, ap, ◌∙◌, Bool, true, false, ◌||◌, List,
  [], ◌∷◌, ◌++◌, leb, length, take, drop, arith, length-append, take-append, Bool-cases,
}
use sleepytale.Base.Bytes.{Bytes, bytes_eqb, bytes_eqb_sound, bytes_eqb_refl}
use sleepytale.Process.Scan.{contains, Scan, start_scan, drain, scan_chunk, scan}
use sleepytale.Process.Drain.{
  append_assoc, append_nil, take-append_drop, take_within, drain-drop, length-drain, drained,
}

-- What of the output has been mirrored: the chunks before the end and before the first failed write.
abbrev pub mirrored : List (Bytes × Bool) → Bytes
mirrored [] = []
mirrored (([], written) ∷ rest) = []
mirrored ((b ∷ bs, false) ∷ rest) = []
mirrored ((b ∷ bs, true) ∷ rest) = (b ∷ bs) ++ mirrored rest

-- Somewhere in the bytes stands the marker.
abbrev pub Occurs : Bytes → Bytes → Type 0
Occurs marker bytes = (before : Bytes) × (after : Bytes) × (bytes ≡ before ++ (marker ++ after))

module _ (marker : Bytes) where
  contains_short : (bytes : Bytes) → length bytes < length marker → contains marker bytes ≡ false
  unfolding contains
  contains_short [] h = refl
  contains_short (b ∷ bs) h = ground arith

  contains_cons :
      (b : ℕ) (bs : Bytes)
      → length marker ≤ length (b ∷ bs)
      → contains marker (b ∷ bs)
        ≡ (bytes_eqb (take (length marker) (b ∷ bs)) marker || contains marker bs)
  unfolding contains
  contains_cons b bs h = ground (arith, h)

  -- A window that begins before the last bytes lies in what was there.
  contains-append :
      (front tail chunk : Bytes)
      → length tail < length marker
      → (front ≡ []) ⊎ (length marker ≡ suc (length tail))
      → contains marker (front ++ (tail ++ chunk))
        ≡ (contains marker (front ++ tail) || contains marker (tail ++ chunk))
  contains-append [] tail chunk short h = rw (contains_short tail short) refl
  contains-append (b ∷ bs) tail chunk short h =
      let long : length marker ≡ suc (length tail) = ground (arith, h) in
      let sizes = length-append bs tail in
      let all_sizes = length-append bs (tail ++ chunk) in
      let chunk_sizes = length-append tail chunk in
      let before = contains_cons b (bs ++ tail) (omega (arith, long, sizes)) in
      let after =
        contains_cons b (bs ++ (tail ++ chunk)) (omega (arith, long, all_sizes, chunk_sizes)) in
      let same =
        take_within (length marker) (b ∷ (bs ++ tail)) chunk (omega (arith, long, sizes)) in
      let assoc = append_assoc bs tail chunk in
      ground
        (arith, before, after, rw assoc at same, contains-append bs tail chunk short (inr long))

  -- What the scan knows once it has read the bytes.
  record Knows (bytes : Bytes) (s : Scan) : Type 0 where
    shown : s.terminal ≡ bytes
    front : Bytes
    split : bytes ≡ front ++ s.tail
    short : length s.tail < length marker
    full : (front ≡ []) ⊎ (length marker ≡ suc (length s.tail))
    flag : s.booted ≡ contains marker bytes

  scan_chunk-Knows :
      (bytes chunk : Bytes) (s : Scan)
      → 1 ≤ length marker
      → Knows bytes s
      → Knows (bytes ++ chunk) (scan_chunk marker s chunk)
  unfolding scan_chunk
  scan_chunk-Knows bytes chunk s some_marker k =
      let keep = length marker - 1 in
      let whole = s.tail ++ chunk in
      let n = length whole - keep in
      let sizes = length-append s.tail chunk in
      let split : bytes ++ chunk ≡ k.front ++ whole =
        rw k.split (append_assoc k.front s.tail chunk) in
      let parts : take n whole ++ drain keep whole ≡ whole =
        rw (drain-drop keep whole) (take-append_drop n whole) in
      let full : (k.front ≡ []) ⊎ (keep ≤ length whole) = ground (arith, k.full, sizes) in
      record {
        shown = ap (λ xs. xs ++ chunk) k.shown;
        front = k.front ++ take n whole;
        split =
            split
            ∙ sym (
                append_assoc k.front (take n whole) (drain keep whole)
                ∙ ap (λ xs. k.front ++ xs) parts);
        short = omega (arith, length-drain keep whole, some_marker);
        full = ground (arith, drained keep k.front whole full, some_marker);
        flag =
            ap (λ b. b || contains marker whole) (k.flag ∙ ap (contains marker) k.split)
            ∙ sym
                (ap (contains marker) split ∙ contains-append k.front s.tail chunk k.short k.full);
      }

  scan-Knows :
      (bytes : Bytes) (chunks : List (Bytes × Bool)) (s : Scan)
      → 1 ≤ length marker
      → Knows bytes s
      → Knows (bytes ++ mirrored chunks) (scan marker s chunks)
  unfolding scan
  scan-Knows bytes [] s some_marker k = rw (append_nil bytes) k
  scan-Knows bytes (([], written) ∷ rest) s some_marker k = rw (append_nil bytes) k
  scan-Knows bytes ((b ∷ bs, false) ∷ rest) s some_marker k = rw (append_nil bytes) k
  scan-Knows bytes ((b ∷ bs, true) ∷ rest) s some_marker k =
      rw (sym (append_assoc bytes (b ∷ bs) (mirrored rest))) (
        scan-Knows (bytes ++ (b ∷ bs)) rest _ some_marker
          (scan_chunk-Knows bytes (b ∷ bs) s some_marker k))

  starts_iff :
      (bytes : Bytes)
      → (bytes_eqb (take (length marker) bytes) marker ≡ true)
        ↔ ((after : Bytes) × (bytes ≡ marker ++ after))
  starts_iff bytes = (
    λ h.
        let e = bytes_eqb_sound (take (length marker) bytes) marker h in
        (drop (length marker) bytes, sym (rw e at (take-append_drop (length marker) bytes))),
    λ (after, e). rw (e, take-append marker after) (bytes_eqb_refl marker),
  )

  length-Occurs : (bytes : Bytes) → Occurs marker bytes → length marker ≤ length bytes
  length-Occurs bytes (before, after, e) =
      omega (arith, ap length e, length-append before (marker ++ after), length-append marker after)

  contains_long : (bytes : Bytes) → contains marker bytes ≡ true → length marker ≤ length bytes
  contains_long bytes h = elim (Bool-cases (leb (length marker) (length bytes))) [
    | inl e ↦ ground (arith, e)
    | inr e ↦ absurd (ground (arith, h, contains_short bytes (ground (arith, e))))
  ]

  contains_sound :
      (bytes : Bytes) → 1 ≤ length marker → contains marker bytes ≡ true → Occurs marker bytes
  contains_sound [] some_marker h = absurd (omega (arith, contains_long [] h))
  contains_sound (b ∷ bs) some_marker h =
      let cons = contains_cons b bs (contains_long (b ∷ bs) h) in
      elim (Bool-cases (bytes_eqb (take (length marker) (b ∷ bs)) marker)) [
        | inl e ↦ let (after, eq) = (starts_iff (b ∷ bs)).0 e in ([], after, eq)
        | inr e ↦
            let (before, after, eq) = contains_sound bs some_marker (ground (arith, cons, e, h)) in
            (b ∷ before, after, ap (◌∷◌ b) eq)
      ]

  contains_complete :
      (before after : Bytes)
      → 1 ≤ length marker
      → contains marker (before ++ (marker ++ after)) ≡ true
  contains_complete [] after some_marker =
      found (marker ++ after) (after, refl) (omega (arith, length-append marker after))
    where
      found :
          (bytes : Bytes)
          → ((rest : Bytes) × (bytes ≡ marker ++ rest))
          → 1 ≤ length bytes
          → contains marker bytes ≡ true
      found [] h le = absurd (omega arith)
      found (b ∷ bs) h le = ground (
        arith,
        contains_cons b bs (length-Occurs (b ∷ bs) ([], h.0, h.1)),
        (starts_iff (b ∷ bs)).1 h,
      )
  contains_complete (b ∷ before) after some_marker = ground (
    arith,
    contains_cons b (before ++ (marker ++ after)) (length-Occurs _ (b ∷ before, after, refl)),
    contains_complete before after some_marker,
  )

  -- However the output is cut into chunks, the scan ends with the flag set exactly if the marker,
  -- which is not empty, occurs in what was mirrored: the output before the first chunk that could not
  -- be written to the terminal. It keeps less than a marker's length of it, and the terminal has
  -- taken just what was mirrored, byte for byte.
  pub scan_finds :
      (chunks : List (Bytes × Bool))
      → 1 ≤ length marker
      → (((scan marker start_scan chunks).booted ≡ true) ↔ Occurs marker (mirrored chunks))
        × (length (scan marker start_scan chunks).tail < length marker)
        × ((scan marker start_scan chunks).terminal ≡ mirrored chunks)
  scan_finds chunks some_marker =
      let k = scan-Knows [] chunks start_scan some_marker nothing_known in
      (
        (
          λ h. contains_sound (mirrored chunks) some_marker (sym k.flag ∙ h),
          λ (before, after, e).
              k.flag ∙ (ap (contains marker) e ∙ contains_complete before after some_marker),
        ),
        k.short,
        k.shown,
      )
    where
      nothing_known : Knows [] start_scan
      nothing_known = record {
        shown = refl;
        front = [];
        split = refl;
        short = omega arith;
        full = inl refl;
        flag = sym (contains_short [] (omega arith));
      }

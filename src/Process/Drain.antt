-- ===== src/Process/Drain.antt =====
-- What `drain` of crates/sleepytale/src/infra/process.rs leaves, and how bytes fall into parts.
use sleepytale.Base.{
  ℕ, zero, suc, ◌-◌, ◌≤◌, ◌≡◌, ◌⊎◌, inl, inr, refl, ap, [], ◌∷◌, ◌++◌, leb, ltb, length, take, drop,
  arith, length-drop, Bool-cases,
}
use sleepytale.Base.Bytes.{Bytes}
use sleepytale.Process.Scan.{drain}

pub append_assoc : (xs ys zs : Bytes) → (xs ++ ys) ++ zs ≡ xs ++ (ys ++ zs)
append_assoc [] ys zs = refl
append_assoc (x ∷ xs) ys zs = ap (◌∷◌ x) (append_assoc xs ys zs)

pub append_nil : (xs : Bytes) → xs ++ [] ≡ xs
append_nil [] = refl
append_nil (x ∷ xs) = ap (◌∷◌ x) (append_nil xs)

pub take-append_drop : (n : ℕ) (xs : Bytes) → take n xs ++ drop n xs ≡ xs
take-append_drop zero xs = refl
take-append_drop (suc n) [] = refl
take-append_drop (suc n) (x ∷ xs) = ap (◌∷◌ x) (take-append_drop n xs)

pub take_within : (n : ℕ) (xs ys : Bytes) → n ≤ length xs → take n (xs ++ ys) ≡ take n xs
take_within zero xs ys h = refl
take_within (suc n) [] ys h = absurd (omega arith)
take_within (suc n) (x ∷ xs) ys h = ap (◌∷◌ x) (take_within n xs ys (omega arith))

pub drain-drop : (keep : ℕ) (xs : Bytes) → drain keep xs ≡ drop (length xs - keep) xs
unfolding drain
drain-drop keep xs = elim (Bool-cases (ltb keep (length xs))) [
  | inl e ↦ rw e refl
  | inr e ↦ let none : length xs - keep ≡ 0 = ground (arith, e) in rw (e, none) refl
]

pub length-drain : (keep : ℕ) (xs : Bytes) → length (drain keep xs) ≡ length xs - (length xs - keep)
length-drain keep xs = rw (drain-drop keep xs) (length-drop (length xs - keep) xs)

-- What is drained is nothing, or what is left is full.
pub drained :
    (keep : ℕ) (front xs : Bytes)
    → (front ≡ []) ⊎ (keep ≤ length xs)
    → (front ++ take (length xs - keep) xs ≡ []) ⊎ (length (drain keep xs) ≡ keep)
drained keep front xs (inr h) = inr (omega (arith, length-drain keep xs, h))
drained keep front xs (inl e) = elim (Bool-cases (leb keep (length xs))) [
  | inl h ↦ inr (ground (arith, length-drain keep xs, h))
  | inr h ↦ let none : length xs - keep ≡ 0 = ground (arith, h) in inl (rw (e, none) refl)
]

-- ===== src/Console/Keeping.antt =====
-- Where the pipe is while writes succeed, in crates/sleepytale/src/infra/console.rs.
use sleepytale.Base.{
  ℕ, suc, ◌+◌, ◌^◌, ◌≤◌, ◌<◌, ◌≡◌, ◌≢◌, refl, sym, Bool, true, false, Option, none, some, List, [],
  ◌∷◌, All, length, arith, ◌==◌, if◌then◌else◌,
}
use sleepytale.Base.Bytes.{Bytes}
use sleepytale.Console.{
  Attached, Forwarding, idle, writing, Console, Lock, attach, detach, chunk, written, start_console,
  replace, take_pipe, forward, lock, locks,
}
use sleepytale.Console.Lending.{lent_by, lent}

-- Not the end of a write that failed.
abbrev pub Succeeds : Lock → Type 0
Succeeds (written false) = ⊥
Succeeds (written true) = Unit
Succeeds (attach pipe) = Unit
Succeeds detach = Unit
Succeeds (chunk bytes) = Unit

-- Between two chunks the mutex holds what is lent; in a current write, the task holds it.
abbrev Keeps : Option ℕ → Attached → Forwarding → Type 0
Keeps to a idle = a.stdin ≡ to
Keeps to a (writing pipe taken bytes) =
    (taken ≤ a.generation)
    × (taken ≡ a.generation → to ≡ some pipe)
    × (taken ≢ a.generation → a.stdin ≡ to)

-- The generation has not wrapped around after so many locks.
record Kept (n : ℕ) (to : Option ℕ) (c : Console) : Type 0 where
  counted : c.current.generation ≤ n
  keeps : Keeps to c.current c.forwarding

replaced :
    (n taken pipe : ℕ) (bytes : Bytes) (a : Attached) (to : Option ℕ)
    → suc n < 2 ^ 64
    → a.generation ≤ n
    → taken ≤ a.generation
    → Keeps to (replace to a) (writing pipe taken bytes)
unfolding replace
replaced n taken pipe bytes a to small counted old =
    (ground arith, λ e. absurd (ground arith), λ e. refl)

forward-Kept :
    (n : ℕ) (to : Option ℕ) (a : Attached) (l : Lock) (f : Forwarding)
    → suc n < 2 ^ 64
    → Succeeds l
    → Kept n to (record { current = a; forwarding = f })
    → Kept (suc n) (lent_by to l) (forward (record { current = a; forwarding = f }) l f)
unfolding replace
forward-Kept n to a (attach pipe) idle small s v = record {
  counted = ground (arith, v.counted);
  keeps = refl;
}
forward-Kept n to a (attach pipe) (writing p taken bytes) small s v = record {
  counted = ground (arith, v.counted);
  keeps = replaced n taken p bytes a (some pipe) small v.counted v.keeps.0;
}
forward-Kept n to a detach idle small s v = record {
  counted = ground (arith, v.counted);
  keeps = refl;
}
forward-Kept n to a detach (writing p taken bytes) small s v = record {
  counted = ground (arith, v.counted);
  keeps = replaced n taken p bytes a none small v.counted v.keeps.0;
}
forward-Kept n to a (chunk bytes) idle small s v = took a.stdin v.keeps
  where
    took : (o : Option ℕ) → o ≡ to → Kept (suc n) to (take_pipe bytes a o)
    took none h = record { counted = omega (arith, v.counted); keeps = v.keeps }
    took (some pipe) h = record {
      counted = omega (arith, v.counted);
      keeps = (omega arith, λ e. sym h, λ e. absurd (e refl));
    }
forward-Kept n to a (chunk bytes) (writing p taken rest) small s v = record {
  counted = omega (arith, v.counted);
  keeps = v.keeps;
}
forward-Kept n to a (written success) idle small s v = record {
  counted = omega (arith, v.counted);
  keeps = v.keeps;
}
forward-Kept n to a (written false) (writing p taken bytes) small s v = absurd s
forward-Kept n to a (written true) (writing p taken bytes) small s v = record {
  counted = ground (arith, v.counted);
  keeps = put (a.generation == taken) refl;
}
  where
    put :
        (b : Bool)
        → (a.generation == taken) ≡ b
        → (if b then record a { stdin = some p } else a).stdin ≡ to
    put true e = sym (v.keeps.1 (ground (arith, e)))
    put false e = v.keeps.2 λ h. ground (arith, e, h)

locks-Kept :
    (n : ℕ) (to : Option ℕ) (c : Console) (ls : List Lock)
    → n + length ls < 2 ^ 64
    → All Succeeds ls
    → Kept n to c
    → (k : ℕ) × Kept k (lent to ls) (locks c ls)
unfolding locks lock lent
locks-Kept n to c [] small s v = (n, v)
locks-Kept n to c (l ∷ ls) small s v =
    locks-Kept (suc n) (lent_by to l) (lock c l) ls (omega arith) s.1
      (forward-Kept n to c.current l c.forwarding (omega arith) s.0 v)

-- After fewer than 2 to the 64 locks without a failed write, a console that writes nothing has just
-- the pipe of the last attach, or none if a detach followed it.
pub locks_keep :
    (ls : List Lock)
    → length ls < 2 ^ 64
    → All Succeeds ls
    → (locks start_console ls).forwarding ≡ idle
    → (locks start_console ls).current.stdin ≡ lent none ls
locks_keep ls small s e =
    let (k, v) =
      locks-Kept 0 none start_console ls (omega arith) s
        (record { counted = omega arith; keeps = refl }) in
    rw e at v.keeps

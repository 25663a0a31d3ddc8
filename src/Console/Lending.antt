-- ===== src/Console/Lending.antt =====
-- Who gets what is typed, in crates/sleepytale/src/infra/console.rs.
use sleepytale.Base.{
  ℕ, suc, ◌+◌, ◌^◌, ◌≤◌, ◌<◌, ◌≡◌, refl, Bool, true, false, Option, none, some, List, [], ◌∷◌,
  length, arith, ◌==◌, if◌then◌else◌,
}
use sleepytale.Base.Bytes.{Bytes}
use sleepytale.Console.{
  Attached, Forwarding, idle, writing, Console, Lock, attach, detach, chunk, written, start_console,
  replace, take_pipe, forward, lock, locks,
}

-- The pipe of the last attach, unless a detach followed: what `attach` and `detach` promise.
abbrev pub lent_by : Option ℕ → Lock → Option ℕ
lent_by lent (attach pipe) = some pipe
lent_by lent detach = none
lent_by lent (chunk bytes) = lent
lent_by lent (written success) = lent

unfoldable pub lent : Option ℕ → List Lock → Option ℕ
lent to [] = to
lent to (l ∷ ls) = lent (lent_by to l) ls

-- A write goes on to the pipe that is lent, or is known to be stale.
abbrev pub WritesTo : Option ℕ → ℕ → Forwarding → Type 0
WritesTo to generation idle = Unit
WritesTo to generation (writing pipe taken bytes) =
    (taken ≤ generation) × (taken ≡ generation → to ≡ some pipe)

abbrev pub HasPipe : Option ℕ → Option ℕ → Type 0
HasPipe to none = Unit
HasPipe to (some pipe) = to ≡ some pipe

-- After at most so many locks: the pipe in the mutex, and one in a current write, are the one lent.
record Lends (n : ℕ) (to : Option ℕ) (c : Console) : Type 0 where
  counted : c.current.generation ≤ n
  pipe : HasPipe to c.current.stdin
  writes : WritesTo to c.current.generation c.forwarding

-- The next generation is a new one.
replaced :
    (n taken : ℕ) (pipe : ℕ) (bytes : Bytes) (to : Option ℕ) (a : Attached) (stdin : Option ℕ)
    → suc n < 2 ^ 64
    → a.generation ≤ n
    → taken ≤ a.generation
    → WritesTo to (replace stdin a).generation (writing pipe taken bytes)
unfolding replace
replaced n taken pipe bytes to a stdin small counted old =
    (ground arith, λ e. absurd (ground arith))

forward-Lends :
    (n : ℕ) (to : Option ℕ) (a : Attached) (l : Lock) (f : Forwarding)
    → suc n < 2 ^ 64
    → Lends n to (record { current = a; forwarding = f })
    → Lends (suc n) (lent_by to l) (forward (record { current = a; forwarding = f }) l f)
unfolding replace
forward-Lends n to a (attach pipe) idle small v = record {
  counted = ground (arith, v.counted);
  pipe = refl;
  writes = tt;
}
forward-Lends n to a (attach pipe) (writing p taken bytes) small v = record {
  counted = ground (arith, v.counted);
  pipe = refl;
  writes = replaced n taken p bytes (some pipe) a (some pipe) small v.counted v.writes.0;
}
forward-Lends n to a detach idle small v = record {
  counted = ground (arith, v.counted);
  pipe = tt;
  writes = tt;
}
forward-Lends n to a detach (writing p taken bytes) small v = record {
  counted = ground (arith, v.counted);
  pipe = tt;
  writes = replaced n taken p bytes none a none small v.counted v.writes.0;
}
forward-Lends n to a (chunk bytes) idle small v = took a.stdin v.pipe
  where
    took : (o : Option ℕ) → HasPipe to o → Lends (suc n) to (take_pipe bytes a o)
    took none h = record { counted = omega (arith, v.counted); pipe = v.pipe; writes = tt }
    took (some pipe) h = record {
      counted = omega (arith, v.counted);
      pipe = tt;
      writes = (omega arith, λ e. h);
    }
forward-Lends n to a (chunk bytes) (writing p taken rest) small v = record {
  counted = omega (arith, v.counted);
  pipe = v.pipe;
  writes = v.writes;
}
forward-Lends n to a (written success) idle small v = record {
  counted = omega (arith, v.counted);
  pipe = v.pipe;
  writes = tt;
}
forward-Lends n to a (written success) (writing p taken bytes) small v = record {
  counted = ground (arith, v.counted);
  pipe = put success (a.generation == taken) refl;
  writes = tt;
}
  where
    put :
        (success b : Bool)
        → (a.generation == taken) ≡ b
        → HasPipe to (if b then (if success then record a { stdin = some p } else a) else a).stdin
    put success false e = v.pipe
    put false true e = v.pipe
    put true true e = v.writes.1 (ground (arith, e))

lock-Lends :
    (n : ℕ) (to : Option ℕ) (c : Console) (l : Lock)
    → suc n < 2 ^ 64
    → Lends n to c
    → Lends (suc n) (lent_by to l) (lock c l)
unfolding lock
lock-Lends n to c l small v = forward-Lends n to c.current l c.forwarding small v

locks-Lends :
    (n : ℕ) (to : Option ℕ) (c : Console) (ls : List Lock)
    → n + length ls < 2 ^ 64
    → Lends n to c
    → (k : ℕ) × Lends k (lent to ls) (locks c ls)
unfolding locks lent
locks-Lends n to c [] small v = (n, v)
locks-Lends n to c (l ∷ ls) small v =
    locks-Lends (suc n) (lent_by to l) (lock c l) ls (omega arith)
      (lock-Lends n to c l (omega arith) v)

-- After any locks, fewer than 2 to the 64: if there is a pipe in the mutex, it is the one of the
-- last attach, and no detach followed; and so is the pipe of a write under way, unless the write
-- is of an earlier generation, after which its pipe is dropped.
pub locks_lend :
    (ls : List Lock)
    → length ls < 2 ^ 64
    → let c = locks start_console ls in
      HasPipe (lent none ls) c.current.stdin
      × WritesTo (lent none ls) c.current.generation c.forwarding
locks_lend ls small =
    let (k, v) =
      locks-Lends 0 none start_console ls (omega arith)
        (record { counted = omega arith; pipe = tt; writes = tt }) in
    (v.pipe, v.writes)

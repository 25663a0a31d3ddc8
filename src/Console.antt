-- ===== src/Console.antt =====
-- crates/sleepytale/src/infra/console.rs: standard input, lent to one backend at a time. The task
-- that forwards takes the pipe out of the mutex for a write, so an attach and a detach may come
-- between: each lock of the mutex is one event. The thread that reads the terminal is a function.
pub mod Lending
pub mod Keeping
use sleepytale.Base.{
  ℕ, ◌+◌, ◌%◌, ◌^◌, Bool, true, false, Option, none, some, List, [], ◌∷◌, ◌==◌, if◌then◌else◌,
}
use sleepytale.Base.Bytes.{Bytes}

-- A pipe is a number.
pub record Attached : Type 0 where
  pub stdin : Option ℕ
  pub generation : ℕ

-- Between two chunks, or in the write of one to a pipe that was taken at a generation.
pub data Forwarding : Type 0 where
  idle : Forwarding
  writing : ℕ → ℕ → Bytes → Forwarding

pub record Console : Type 0 where
  pub current : Attached
  pub forwarding : Forwarding

-- The locks: of `attach` and `detach`, of the task on a chunk, and of the task after its write,
-- with whether the write succeeded.
pub data Lock : Type 0 where
  attach : ℕ → Lock
  detach : Lock
  chunk : Bytes → Lock
  written : Bool → Lock

abbrev pub start_console : Console
start_console = record { current = record { stdin = none; generation = 0 }; forwarding = idle }

-- `wrapping_add` on a `u64`.
unfoldable pub replace : Option ℕ → Attached → Attached
replace stdin a = record { stdin = stdin; generation = (a.generation + 1) % 2 ^ 64 }

-- A chunk is thrown away if no pipe is there.
abbrev pub take_pipe : Bytes → Attached → Option ℕ → Console
take_pipe bytes a none = record { current = a; forwarding = idle }
take_pipe bytes a (some pipe) = record {
  current = record a { stdin = none };
  forwarding = writing pipe a.generation bytes;
}

-- The pipe goes back unless it is stale, or the write failed.
abbrev pub put_back : Bool → Attached → ℕ → ℕ → Attached
put_back success a pipe generation =
    if a.generation == generation
    then (if success then record a { stdin = some pipe } else a)
    else a

-- The task comes to a chunk only when it is idle, and to the end of a write only in one.
abbrev pub forward : Console → Lock → Forwarding → Console
forward c (attach pipe) f = record c { current = replace (some pipe) c.current }
forward c detach f = record c { current = replace none c.current }
forward c (chunk bytes) idle = take_pipe bytes c.current c.current.stdin
forward c (chunk bytes) (writing pipe generation rest) = c
forward c (written success) idle = c
forward c (written success) (writing pipe generation rest) = record {
  current = put_back success c.current pipe generation;
  forwarding = idle;
}

unfoldable pub lock : Console → Lock → Console
unfolding replace
lock c l = forward c l c.forwarding

unfoldable pub locks : Console → List Lock → Console
unfolding lock
locks c [] = c
locks c (l ∷ ls) = locks (lock c l) ls

-- The thread that reads the terminal: the chunks that it sends to the task, one after each read, until
-- the input ends (an empty read), a read fails (none) or the task is gone.
unfoldable pub read_terminal : (ℕ → Bool) → ℕ → List (Option Bytes) → List Bytes
read_terminal listens n [] = []
read_terminal listens n (none ∷ reads) = []
read_terminal listens n (some [] ∷ reads) = []
read_terminal listens n (some (b ∷ bytes) ∷ reads) =
    let more = (b ∷ bytes) ∷ read_terminal listens (n + 1) reads in if listens n then more else []

-- ===== src/Tests/Consoles.antt =====
-- Tests of the console: a backend is detached, and another attached, while a chunk is written.
use sleepytale.Base.{All, ◌≡◌, refl, true, some, none, List, [], ◌∷◌, arith}
use sleepytale.Base.Bytes.{ascii}
use sleepytale.Console.{Lock, attach, detach, chunk, written, start_console, locks}
use sleepytale.Console.Keeping.{Succeeds, locks_keep}
use sleepytale.Console.Lending.{HasPipe, WritesTo, lent, locks_lend}

abbrev swapped : List Lock
swapped = attach 1 ∷ chunk (ascii "stop") ∷ detach ∷ attach 2 ∷ written true ∷ []

second_kept : (locks start_console swapped).current.stdin ≡ some 2
unfolding locks
second_kept = refl

locks_lend_example :
    let c = locks start_console swapped in
    HasPipe (lent none swapped) c.current.stdin
    × WritesTo (lent none swapped) c.current.generation c.forwarding
locks_lend_example = locks_lend swapped (omega arith)

swapped-Succeeds : All Succeeds swapped
swapped-Succeeds = (tt, (tt, (tt, (tt, (tt, tt)))))

locks_keep_example : (locks start_console swapped).current.stdin ≡ lent none swapped
unfolding locks
locks_keep_example = locks_keep swapped (omega arith) swapped-Succeeds refl

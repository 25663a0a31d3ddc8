-- ===== src/Process/Scan.antt =====
-- `mirror_stdout` of crates/sleepytale/src/infra/process.rs: the scan for the boot banner, over the
-- chunks that the reads return, each of which is first written to the terminal. The notification of
-- the waiters is the change of `booted`.
use sleepytale.Base.{
  ℕ, ◌-◌, Bool, true, false, ◌||◌, List, [], ◌∷◌, ◌++◌, leb, ltb, if◌then◌else◌, length, take, drop,
  any,
}
use sleepytale.Base.Bytes.{Bytes, ascii, bytes_eqb}

abbrev pub boot_marker : Bytes
boot_marker = ascii "Hytale Server Booted!"

-- `windows`, for a size that is not 0.
unfoldable pub windows : ℕ → Bytes → List Bytes
windows size [] = []
windows size (b ∷ bs) =
    let rest = windows size bs in
    if leb size (length (b ∷ bs)) then take size (b ∷ bs) ∷ rest else []

unfoldable pub contains : Bytes → Bytes → Bool
unfolding windows
contains marker bytes = any (λ window. bytes_eqb window marker) (windows (length marker) bytes)

-- The loop's variables: what the terminal has taken, what is kept of the output, and the flag.
pub record Scan : Type 0 where
  pub terminal : Bytes
  pub tail : Bytes
  pub booted : Bool

abbrev pub start_scan : Scan
start_scan = record { terminal = []; tail = []; booted = false }

-- `tail.drain(..tail.len() - keep)`
unfoldable pub drain : ℕ → Bytes → Bytes
drain keep tail = if ltb keep (length tail) then drop (length tail - keep) tail else tail

-- One round, on a chunk that was read and written to the terminal.
unfoldable pub scan_chunk : Bytes → Scan → Bytes → Scan
unfolding contains drain
scan_chunk marker s chunk = record {
  terminal = s.terminal ++ chunk;
  tail = drain (length marker - 1) (s.tail ++ chunk);
  booted = s.booted || contains marker (s.tail ++ chunk);
}

-- The loop, over what each read gave and whether the write of it to the terminal succeeded. It ends
-- at a read of nothing, which is the end of the output, and at a failed write, before that chunk is
-- scanned. The list ends at an error of a read.
unfoldable pub scan : Bytes → Scan → List (Bytes × Bool) → Scan
unfolding scan_chunk
scan marker s [] = s
scan marker s (([], written) ∷ rest) = s
scan marker s ((b ∷ bs, false) ∷ rest) = s
scan marker s ((b ∷ bs, true) ∷ rest) = scan marker (scan_chunk marker s (b ∷ bs)) rest

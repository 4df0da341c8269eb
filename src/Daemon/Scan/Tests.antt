-- ===== src/Daemon/Scan/Tests.antt =====
-- A scan of a /proc with two processes.
use capstone_monitor.Prelude.{
  ℕ, List, [], ◌∷◌, ◌++◌, true, Option, some, length, if◌then◌else◌, ◌==◌,
}
use capstone_monitor.BpfMap.Assoc.{assoc_maps}
use capstone_monitor.Perf.{opened}
use capstone_monitor.Perf.Small.{small_kernel}
use capstone_monitor.Scanner.Table.{ProcScanner, Proc}
use capstone_monitor.Daemon.{System}
use capstone_monitor.Daemon.Small.{small_system}

-- It opens whatever it is asked for.
abbrev opening_system : System assoc_maps (small_kernel 9)
opening_system = record small_system {
  open_proc = λ f pid s. (opened (length s), s ++ true ∷ []);
  open_dir = λ s. (opened (length s), s ++ true ∷ []);
}

-- 7 (a) S, ten more fields, 20 and 3
abbrev line : List ℕ
line =
    b'7' ∷ b' ' ∷ b'(' ∷ b'a' ∷ b')' ∷ b' ' ∷ b'S' ∷ b' ' ∷ b'1' ∷ b' ' ∷ b'1' ∷ b' ' ∷ b'1' ∷ b' '
    ∷ b'1' ∷ b' ' ∷ b'1' ∷ b' ' ∷ b'1' ∷ b' ' ∷ b'1' ∷ b' ' ∷ b'1' ∷ b' ' ∷ b'1' ∷ b' ' ∷ b'1'
    ∷ b' ' ∷ b'2' ∷ b'0' ∷ b' ' ∷ b'3' ∷ []

-- The file of process 8 is empty.
abbrev texts : Proc
texts = record {
  stat_file = λ p. if p == 7 then some line else some [];
  status_file = λ p. some (b'U' ∷ b'i' ∷ b'd' ∷ b':' ∷ b'5' ∷ []);
}

abbrev listed : Option (List (List ℕ))
listed = some ((b'.' ∷ []) ∷ (b'7' ∷ []) ∷ (b'8' ∷ []) ∷ [])

abbrev empty : ProcScanner
empty = record { entries = []; scan_count = 0 }

-- ===== src/ProcIo.antt =====
-- The bytes that a process has read and written (src/schedmon.c: read_proc_io_fd). The text is what
-- the read of the file gives; strtoull is the library's strtoul, both being 64 bits wide here.
pub mod Lines
pub mod File
mod Tests
use capstone_monitor.Prelude.{
  ℕ, ◌+◌, ◌-◌, ◌%◌, ◌^◌, List, [], ◌∷◌, Bool, true, false, Option, none, some, if◌then◌else◌, ◌==◌,
  leb, drop, take,
}
use capstone_monitor.CString.{starts_with, strtoul}

pub record IoCounters : Type 0 where
  pub rchar : ℕ
  pub wchar : ℕ
  pub read_bytes : ℕ
  pub write_bytes : ℕ
  pub cancelled : ℕ

abbrev pub no_io : IoCounters
no_io = record { rchar = 0; wchar = 0; read_bytes = 0; write_bytes = 0; cancelled = 0 }

-- PROC_IO_READ_FAIL
abbrev pub proc_io_read_fail : ℕ
proc_io_read_fail = 2 ^ 64 - 1

abbrev pub number_after : (n : ℕ) → List ℕ → ℕ
number_after n p = (strtoul (drop n p)).0

-- The words at the start of the lines.
abbrev pub rchar_key : List ℕ
rchar_key = b'r' ∷ b'c' ∷ b'h' ∷ b'a' ∷ b'r' ∷ b':' ∷ []

abbrev pub wchar_key : List ℕ
wchar_key = b'w' ∷ b'c' ∷ b'h' ∷ b'a' ∷ b'r' ∷ b':' ∷ []

abbrev pub read_bytes_key : List ℕ
read_bytes_key = b'r' ∷ b'e' ∷ b'a' ∷ b'd' ∷ b'_' ∷ b'b' ∷ b'y' ∷ b't' ∷ b'e' ∷ b's' ∷ b':' ∷ []

abbrev pub write_bytes_key : List ℕ
write_bytes_key =
    b'w' ∷ b'r' ∷ b'i' ∷ b't' ∷ b'e' ∷ b'_' ∷ b'b' ∷ b'y' ∷ b't' ∷ b'e' ∷ b's' ∷ b':' ∷ []

abbrev pub cancelled_key : List ℕ
cancelled_key =
    b'c' ∷ b'a' ∷ b'n' ∷ b'c' ∷ b'e' ∷ b'l' ∷ b'l' ∷ b'e' ∷ b'd' ∷ b'_' ∷ b'w' ∷ b'r' ∷ b'i' ∷ b't'
    ∷ b'e' ∷ b'_' ∷ b'b' ∷ b'y' ∷ b't' ∷ b'e' ∷ b's' ∷ b':' ∷ []

-- The tests at the start of a line.
unfoldable pub read_io_line : List ℕ → IoCounters → IoCounters
read_io_line p io =
    if starts_with rchar_key p
    then record io { rchar = number_after 6 p }
    else if starts_with wchar_key p
    then record io { wchar = number_after 6 p }
    else if starts_with read_bytes_key p
    then record io { read_bytes = number_after 11 p }
    else if starts_with write_bytes_key p
    then record io { write_bytes = number_after 12 p }
    else if starts_with cancelled_key p
    then record io { cancelled = number_after 22 p }
    else io

-- The two loops: `at_start` tells whether `p` is at the start of a line, where the outer loop tests it.
unfoldable pub read_io_lines : (at_start : Bool) → List ℕ → IoCounters → IoCounters
unfolding read_io_line
read_io_lines at_start [] io = io
read_io_lines at_start (c ∷ p) io =
    let rest = read_io_lines (c == b'\n') p (if at_start then read_io_line (c ∷ p) io else io) in
    if c == 0 then io else rest

-- What the caller gets: the physical bytes, and the bytes of the system calls.
unfoldable pub io_totals : IoCounters → ℕ × ℕ
io_totals io =
    let total = (io.read_bytes + io.write_bytes) % 2 ^ 64 in
    (if leb io.cancelled total then total - io.cancelled else 0, (io.rchar + io.wchar) % 2 ^ 64)

-- `file` is `none` when the descriptor is -1, or the seek or the read fails; `old` is what
-- *out_syscall_bytes holds before. Of the file, 511 bytes are read.
unfoldable pub read_proc_io_fd : (file : Option (List ℕ)) → (old : ℕ) → ℕ × ℕ
unfolding read_io_lines io_totals
read_proc_io_fd none old = (proc_io_read_fail, old)
read_proc_io_fd (some []) old = (proc_io_read_fail, old)
read_proc_io_fd (some (c ∷ text)) old = io_totals (read_io_lines true (take 511 (c ∷ text)) no_io)

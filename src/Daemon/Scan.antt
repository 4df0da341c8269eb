-- ===== src/Daemon/Scan.antt =====
-- The scans of /proc with every file that they open and close (src/proc_scanner.c: read_proc_stat,
-- read_proc_uid, proc_scanner_scan_pids, proc_scanner_scan). `proc` and `names` say what a file, or the
-- directory, holds at the time that it is read; Scanner has what is made of the texts.
pub mod Agreement
pub mod Descriptors
mod Tests
use capstone_monitor.Prelude.{
  ℕ, zero, suc, ◌+◌, ◌-◌, List, [], ◌∷◌, map, Bool, true, false, Option, none, some, if◌then◌else◌,
  ◌==◌, leb, length,
}
use capstone_monitor.Prelude.Int.{ℤ, pos, negsuc, eq_ℤ}
use capstone_monitor.CString.{fgets}
use capstone_monitor.BpfMap.{BpfMaps}
use capstone_monitor.Perf.{Kernel, Opened, opened, refused}
use capstone_monitor.Scanner.Stat.{StatResult, failed, overrun, parsed, parse_line, uid_line}
use capstone_monitor.Scanner.Table.{
  ProcEntry, ProcScanner, Proc, proc_max_tracked, new_entry, refreshed, clear_active, compact,
  pid_of_name,
}
use capstone_monitor.Daemon.{System, ProcFile}

-- What is read of an open file; a file that cannot be read is empty.
abbrev pub text_of : Option (List ℕ) → List ℕ
text_of none = []
text_of (some text) = text

abbrev pub names_of : Option (List (List ℕ)) → List (List ℕ)
names_of none = []
names_of (some names) = names

-- The entries that are left, and the count of the scans.
abbrev pub finished : ProcScanner → List ProcEntry → ProcScanner
finished ps es = record { entries = compact es; scan_count = ps.scan_count + 1 }

module _ (b : BpfMaps) (k : Kernel) (sys : System b k) (proc : k.State → Proc) where
  open k use {State, close}

  -- From `fgets` on: the line is empty when fgets gives NULL, and then the file is closed too.
  unfoldable pub stat_line_read :
      (fd : ℕ) → (fetch_comm : Bool) → (line : List ℕ) → State → StatResult × State
  unfolding parse_line
  stat_line_read fd fetch_comm [] s = (failed, close (pos fd) s)
  stat_line_read fd fetch_comm (c ∷ line) s = (parse_line fetch_comm (c ∷ line), close (pos fd) s)

  unfoldable pub stat_opened : (pid : ℕ) → (fetch_comm : Bool) → Opened × State → StatResult × State
  unfolding stat_line_read fgets
  stat_opened pid fetch_comm (refused e, s) = (failed, s)
  stat_opened pid fetch_comm (opened fd, s) =
      stat_line_read fd fetch_comm (fgets 511 (text_of ((proc s).stat_file pid))).0 s

  unfoldable pub read_stat : (pid : ℕ) → (fetch_comm : Bool) → State → StatResult × State
  unfolding stat_opened
  read_stat pid fetch_comm s = stat_opened pid fetch_comm (sys.open_proc ProcFile.stat pid s)

  -- The return inside the loop over the lines, and the one behind it.
  unfoldable pub uid_returned : (fd : ℕ) → Option ℤ → State → ℤ × State
  uid_returned fd (some uid) s = (uid, close (pos fd) s)
  uid_returned fd none s = (negsuc 0, close (pos fd) s)

  unfoldable pub status_opened : (pid : ℕ) → Opened × State → ℤ × State
  unfolding uid_returned uid_line
  status_opened pid (refused e, s) = (negsuc 0, s)
  status_opened pid (opened fd, s) =
      uid_returned fd (uid_line (text_of ((proc s).status_file pid))) s

  unfoldable pub read_uid : (pid : ℕ) → State → ℤ × State
  unfolding status_opened
  read_uid pid s = status_opened pid (sys.open_proc ProcFile.status pid s)

  -- `if (e->uid == -1)`
  unfoldable pub uid_if_unknown : ProcEntry → State → ℤ × State
  unfolding read_uid
  uid_if_unknown e s = if eq_ℤ e.uid (negsuc 0) then read_uid e.pid s else (e.uid, s)

  -- The body of the scan for an entry, from the return of read_proc_stat on.
  unfoldable pub stat_was_read :
      (is_new : Bool) → ProcEntry → StatResult → State → ProcEntry × State
  unfolding uid_if_unknown
  stat_was_read is_new e failed s = (e, s)
  stat_was_read is_new e overrun s = (e, s)
  stat_was_read is_new e (parsed comm utime stime) s =
      let (uid, s') = uid_if_unknown e s in (refreshed is_new comm utime stime uid e, s')

  unfoldable pub update_entry : (is_new : Bool) → ProcEntry → State → ProcEntry × State
  unfolding read_stat stat_was_read
  update_entry is_new e s = let (r, s') = read_stat e.pid is_new s in stat_was_read is_new e r s'

  -- find_or_alloc, and what the scan does with the entry that it points to; `room` is the number of
  -- entries that the array still has behind the list.
  unfoldable pub update_at : (pid room : ℕ) → List ProcEntry → State → List ProcEntry × State
  unfolding update_entry
  update_at pid zero [] s = ([], s)
  update_at pid (suc room) [] s = let (e, s') = update_entry true (new_entry pid) s in (e ∷ [], s')
  update_at pid room (e ∷ es) s =
      let (rest, t) = update_at pid room es s in
      let (e', s') = update_entry false e s in if e.pid == pid then (e' ∷ es, s') else (e ∷ rest, t)

  unfoldable pub update_pid : (pid : ℕ) → List ProcEntry → State → List ProcEntry × State
  unfolding update_at
  update_pid pid es s =
      if leb pid 1 then (es, s) else update_at pid (proc_max_tracked - length es) es s

  unfoldable pub update_all : (pids : List ℕ) → List ProcEntry → State → List ProcEntry × State
  unfolding update_pid
  update_all [] es s = (es, s)
  update_all (pid ∷ pids) es s = let (es', s') = update_pid pid es s in update_all pids es' s'

  unfoldable pub scan_named : (pids : List ℕ) → ProcScanner → State → ProcScanner × State
  unfolding update_all
  scan_named pids ps s =
      let (es, s') = update_all pids (map clear_active ps.entries) s in (finished ps es, s')

  module _ (names : State → Option (List (List ℕ))) where
    -- From opendir on, with closedir behind the loop.
    unfoldable pub dir_opened : ProcScanner → Opened × State → ProcScanner × State
    unfolding update_all pid_of_name
    dir_opened ps (refused e, s) = (record ps { entries = map clear_active ps.entries }, s)
    dir_opened ps (opened fd, s) =
        let pids = map pid_of_name (names_of (names s)) in
        let (es, s') = update_all pids (map clear_active ps.entries) s in
        (finished ps es, close (pos fd) s')

    unfoldable pub scan_dir : ProcScanner → State → ProcScanner × State
    unfolding dir_opened
    scan_dir ps s = dir_opened ps (sys.open_dir s)

    -- The scan that sync_pids asks for, with `pids` those of the command line.
    unfoldable pub scan : (pids : List ℕ) → ProcScanner → State → ProcScanner × State
    unfolding scan_dir scan_named
    scan pids ps s =
        let (ps', s') = if length pids == 0 then scan_dir ps s else scan_named pids ps s in
        (ps', sys.later s')

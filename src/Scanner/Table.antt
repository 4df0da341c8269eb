-- ===== src/Scanner/Table.antt =====
-- The table of processes and its update (src/proc_scanner.c: find_or_alloc, proc_scanner_init,
-- proc_scanner_scan_pids, proc_scanner_scan). The list holds `entries[0 .. n_entries)`; what the array
-- has behind it is never read before `find_or_alloc` clears it. /proc is a parameter: the names in the
-- directory and the texts of the two files of each process.
pub mod Find
pub mod Tracked
use capstone_monitor.Prelude.{
  ℕ, zero, suc, ◌+◌, ◌-◌, ◌%◌, ◌^◌, List, [], ◌∷◌, ◌++◌, map, Bool, true, false, Option, none, some,
  if◌then◌else◌, ◌==◌, ltb, leb, length,
}
use capstone_monitor.Prelude.Int.{ℤ, pos, negsuc, eq_ℤ}
use capstone_monitor.CString.{atoi, is_digit}
use capstone_monitor.Scanner.Stat.{
  StatResult, failed, overrun, parsed, read_proc_stat, read_proc_uid,
}

abbrev pub proc_max_tracked : ℕ
proc_max_tracked = 1024

pub record ProcEntry : Type 0 where
  pub pid : ℕ
  pub comm : List ℕ
  pub uid : ℤ
  pub utime : ℕ
  pub stime : ℕ
  pub total_ticks : ℕ
  pub prev_ticks : ℕ
  pub delta_ticks : ℕ
  pub active : Bool

pub record ProcScanner : Type 0 where
  pub entries : List ProcEntry
  pub scan_count : ℕ

-- The files of a process: `none` is a file that cannot be opened.
pub record Proc : Type 0 where
  pub stat_file : ℕ → Option (List ℕ)
  pub status_file : ℕ → Option (List ℕ)

unfoldable pub proc_scanner_init : ProcScanner
proc_scanner_init = record { entries = []; scan_count = 0 }

-- The entry that `find_or_alloc` clears for a new process; the uid -1 is one not yet read.
abbrev pub new_entry : ℕ → ProcEntry
new_entry pid = record {
  pid = pid;
  comm = [];
  uid = negsuc 0;
  utime = 0;
  stime = 0;
  total_ticks = 0;
  prev_ticks = 0;
  delta_ticks = 0;
  active = false;
}

-- The body of the scan for an entry, once its counters and its uid are read.
abbrev pub refreshed :
    (is_new : Bool) → (comm : List ℕ) → (utime stime : ℕ) → (uid : ℤ) → ProcEntry → ProcEntry
refreshed is_new comm utime stime uid e =
    let total = (utime + stime) % 2 ^ 64 in
    let prev = if is_new then total else e.total_ticks in
    record e {
      comm = if is_new then comm else e.comm;
      prev_ticks = prev;
      utime = utime;
      stime = stime;
      total_ticks = total;
      delta_ticks = if ltb prev total then total - prev else 0;
      active = true;
      uid = uid;
    }

-- The same with the file of the status, which is read for an entry without uid.
unfoldable pub refresh :
    Proc → (is_new : Bool) → (comm : List ℕ) → (utime stime : ℕ) → ProcEntry → ProcEntry
refresh proc is_new comm utime stime e =
    let uid = if eq_ℤ e.uid (negsuc 0) then read_proc_uid (proc.status_file e.pid) else e.uid in
    refreshed is_new comm utime stime uid e

-- An entry whose counters cannot be read stays as it is. (A line that makes the code overrun the
-- name's buffer, which the kernel never writes, is treated alike.)
unfoldable pub read_entry : Proc → (is_new : Bool) → ProcEntry → ProcEntry
unfolding refresh
read_entry proc is_new e = elim (read_proc_stat (proc.stat_file e.pid) is_new) [
  | parsed comm utime stime ↦ refresh proc is_new comm utime stime e
  | _ ↦ e
]

-- `find_or_alloc` and what the scan does with the entry that it points to. `room` is the number of
-- entries that the array still has behind the list.
unfoldable pub scan_entry : Proc → (pid room : ℕ) → List ProcEntry → List ProcEntry
unfolding read_entry
scan_entry proc pid zero [] = []
scan_entry proc pid (suc room) [] = read_entry proc true (new_entry pid) ∷ []
scan_entry proc pid room (e ∷ es) =
    if e.pid == pid then read_entry proc false e ∷ es else e ∷ scan_entry proc pid room es

unfoldable pub scan_pid : Proc → (pid : ℕ) → List ProcEntry → List ProcEntry
unfolding scan_entry
scan_pid proc pid es =
    if leb pid 1 then es else scan_entry proc pid (proc_max_tracked - length es) es

unfoldable pub scan_all : Proc → (pids : List ℕ) → List ProcEntry → List ProcEntry
unfolding scan_pid
scan_all proc [] es = es
scan_all proc (pid ∷ pids) es = scan_all proc pids (scan_pid proc pid es)

abbrev pub clear_active : ProcEntry → ProcEntry
clear_active e = record e { active = false }

-- the loop that moves the active entries to the front
pub compact : List ProcEntry → List ProcEntry
compact [] = []
compact (e ∷ es) = if e.active then e ∷ compact es else compact es

unfoldable pub proc_scanner_scan_pids : Proc → (pids : List ℕ) → ProcScanner → ProcScanner
unfolding scan_all compact
proc_scanner_scan_pids proc pids ps = record {
  entries = compact (scan_all proc pids (map clear_active ps.entries));
  scan_count = ps.scan_count + 1;
}

-- The process number that a name in /proc stands for; 0 is none.
unfoldable pub pid_of_name : List ℕ → ℕ
pid_of_name [] = 0
pid_of_name (c ∷ name) =
    if is_digit c then elim (atoi (c ∷ name)) [ pos pid ↦ pid | negsuc n ↦ 0 ] else 0

-- `names` are the entries of /proc, or `none` if it cannot be opened.
unfoldable pub proc_scanner_scan :
    Proc → (names : Option (List (List ℕ))) → ProcScanner → ProcScanner
unfolding pid_of_name scan_all compact
proc_scanner_scan proc none ps = record ps { entries = map clear_active ps.entries }
proc_scanner_scan proc (some names) ps = record {
  entries = compact (scan_all proc (map pid_of_name names) (map clear_active ps.entries));
  scan_count = ps.scan_count + 1;
}

-- ===== src/Scanner/Tests.antt =====
-- The scanner at concrete files and tables.
use capstone_monitor.Prelude.{
  ℕ, ◌≡◌, refl, List, [], ◌∷◌, ◌++◌, map, min, true, false, some, none, arith, length,
  if◌then◌else◌, ◌==◌,
}
use mathlib.Core.List.{Perm}
use capstone_monitor.Prelude.Int.{pos}
use capstone_monitor.CString.{strchr, strrchr, strtoul, fgets, atoi, starts_with}
use capstone_monitor.Scanner.Stat.{parsed, skip_fields, parse_stat, read_proc_stat, read_proc_uid}
use capstone_monitor.Scanner.Stat.Parse.{stat_tail, parse_stat_reads_counters}
use capstone_monitor.Scanner.Table.{
  ProcEntry, ProcScanner, Proc, new_entry, pid_of_name, proc_scanner_scan_pids, proc_scanner_scan,
}
use capstone_monitor.Scanner.Table.Tracked.{
  IsTable, Updated, scan_pids-IsTable, known_process_delta,
}
use capstone_monitor.Scanner.TopN.{
  proc_scanner_top_n, eligible, cmp_delta_desc, AllAtLeast, pid_of, top_n_selects_busiest,
}
use capstone_monitor.Scanner.TopN.Insertion.{by_insertion, insertion_sort}

-- "a) b", a name with a parenthesis and a space
abbrev odd_name : List ℕ
odd_name = b'a' ∷ b')' ∷ b' ' ∷ b'b' ∷ []

abbrev fields : List (List ℕ)
fields =
    (b'S' ∷ [])
    ∷ (b'1' ∷ [])
    ∷ (b'2' ∷ [])
    ∷ (b'3' ∷ [])
    ∷ (b'0' ∷ [])
    ∷ (b'-' ∷ b'1' ∷ [])
    ∷ (b'6' ∷ [])
    ∷ (b'7' ∷ [])
    ∷ (b'8' ∷ [])
    ∷ (b'9' ∷ [])
    ∷ (b'0' ∷ [])
    ∷ []

-- the counters 120 and 35
abbrev counters : List ℕ
counters = stat_tail fields b'1' (b'2' ∷ b'0' ∷ []) b'3' (b'5' ∷ []) (b' ' ∷ b'0' ∷ [])

abbrev stat_line : List ℕ
stat_line = (b'4' ∷ b'0' ∷ b' ' ∷ []) ++ (b'(' ∷ (odd_name ++ b')' ∷ counters))

parse_stat_reads_counters_example : parse_stat true stat_line ≡ parsed odd_name 120 35
parse_stat_reads_counters_example =
    parse_stat_reads_counters fields b'1' (b'2' ∷ b'0' ∷ []) b'3' (b'5' ∷ []) (b' ' ∷ b'0' ∷ [])
      refl (omega arith) refl (refl, (refl, tt)) refl (refl, tt) refl true (b'4' ∷ b'0' ∷ b' ' ∷ [])
      odd_name (omega arith) (omega arith)

-- Process 40 has the line above, and "Uid: 33"; no other process can be read.
abbrev proc : Proc
proc = record {
  stat_file = λ p. if p == 40 then some stat_line else none;
  status_file = λ p. some (b'U' ∷ b'i' ∷ b'd' ∷ b':' ∷ b' ' ∷ b'3' ∷ b'3' ∷ b'\n' ∷ []);
}

abbrev busy : ℕ → ℕ → ProcEntry
busy pid ticks = record (new_entry pid) {
  total_ticks = 100;
  delta_ticks = ticks;
  active = true;
  uid = pos 0;
}

abbrev three_processes : ProcScanner
three_processes = record { entries = busy 30 5 ∷ busy 40 7 ∷ busy 50 9 ∷ []; scan_count = 1 }

three_processes-IsTable : IsTable (three_processes.entries)
three_processes-IsTable = record { distinct = (refl, (refl, (refl, tt))); fits = omega arith }

-- Of the three processes only 40 can be read, and 60 is new but cannot.
scan_pids-IsTable_example :
    IsTable (proc_scanner_scan_pids proc (40 ∷ 60 ∷ 40 ∷ []) three_processes).entries
scan_pids-IsTable_example =
    scan_pids-IsTable proc (40 ∷ 60 ∷ 40 ∷ []) three_processes three_processes-IsTable

known_process_delta_example :
    Updated proc 40
      (busy 40 7)
      120
      35
      (proc_scanner_scan_pids proc (60 ∷ 40 ∷ 61 ∷ []) three_processes)
    × Updated proc 40 (busy 40 7) 120 35 (
        proc_scanner_scan proc
          (some ((b'6' ∷ b'0' ∷ []) ∷ (b'4' ∷ b'0' ∷ []) ∷ (b'6' ∷ b'1' ∷ []) ∷ []))
          three_processes)
unfolding pid_of_name atoi
known_process_delta_example =
    known_process_delta proc 40 (60 ∷ []) (61 ∷ [])
      ((b'6' ∷ b'0' ∷ []) ∷ (b'4' ∷ b'0' ∷ []) ∷ (b'6' ∷ b'1' ∷ []) ∷ []) three_processes
      {e = busy 40 7} {comm = []} {utime = 120} {stime = 35} three_processes-IsTable (omega arith)
      (omega arith) (omega arith) refl refl read
  where
    read : read_proc_stat (some stat_line) false ≡ parsed [] 120 35
    read = unfold read_proc_stat skip_fields strchr strrchr strtoul fgets in refl

top_n_selects_busiest_example :
    (chosen : List ProcEntry) × (rest : List ProcEntry) × (proc_scanner_top_n by_insertion
        three_processes 2
        (pos 0)
      ≡ map pid_of chosen)
    × Perm (chosen ++ rest) (eligible (pos 0) three_processes.entries)
    × (length chosen ≡ min 2 (length (eligible (pos 0) three_processes.entries)))
    × AllAtLeast chosen rest
top_n_selects_busiest_example = top_n_selects_busiest by_insertion three_processes 2 (pos 0)

busiest_two : proc_scanner_top_n by_insertion three_processes 2 (pos 0) ≡ 50 ∷ 40 ∷ []
unfolding proc_scanner_top_n insertion_sort cmp_delta_desc
busiest_two = refl

uid_of_status :
    read_proc_uid (some (b'N' ∷ b'\n' ∷ b'U' ∷ b'i' ∷ b'd' ∷ b':' ∷ 9 ∷ b'3' ∷ b'3' ∷ b'\n' ∷ []))
    ≡ pos 33
unfolding read_proc_uid fgets starts_with atoi
uid_of_status = refl

-- ===== src/Scanner/Table/Tracked.antt =====
-- Which processes the table has after a scan, and with which counters.
use mathlib.Core.Option
use capstone_monitor.Prelude.{
  ℕ, zero, suc, ◌+◌, ◌-◌, ◌%◌, ◌^◌, ◌≤◌, ◌<◌, ◌≡◌, ◌≢◌, ◌∙◌, refl, sym, subst, ap, List, [], ◌∷◌,
  ◌++◌, map, Bool, true, false, Option, none, some, leb, length, arith, Bool-cases, inl, inr,
  length-map, Absent,
}
use capstone_monitor.Scanner.Stat.{failed, parsed, read_proc_stat}
use capstone_monitor.Scanner.Table.{
  ProcEntry, ProcScanner, Proc, proc_max_tracked, new_entry, refresh, read_entry, scan_pid,
  scan_all, clear_active, compact, pid_of_name, proc_scanner_scan_pids, proc_scanner_scan,
}
use capstone_monitor.Scanner.Table.Find.{
  find, Distinct, active_only, scanned, find-scan_entry_self, find-scan_entry_other,
  scan_entry-Distinct, length-scan_entry, find-clear_active, find-compact, find-pid,
  read_entry_parsed, read_entry_failed,
}

-- No process has two entries, and they fit the array.
pub record IsTable (es : List ProcEntry) : Type 0 where
  pub distinct : Distinct es
  pub fits : length es ≤ proc_max_tracked

module _ (proc : Proc) where
  scan_pid-IsTable : (p : ℕ) (es : List ProcEntry) → IsTable es → IsTable (scan_pid proc p es)
  unfolding scan_pid
  scan_pid-IsTable p es t = elim (Bool-cases (leb p 1)) [
    | inl skip ↦ rw skip t
    | inr user ↦ rw user (record {
      distinct = scan_entry-Distinct proc p (proc_max_tracked - length es) es t.distinct;
      fits = omega (arith, t.fits, length-scan_entry proc p (proc_max_tracked - length es) es);
    })
  ]

  length-scan_pid-le : (p : ℕ) (es : List ProcEntry) → length (scan_pid proc p es) ≤ length es + 1
  unfolding scan_pid
  length-scan_pid-le p es = elim (Bool-cases (leb p 1)) [
    | inl skip ↦ rw skip (omega arith)
    | inr user ↦ rw user (length-scan_entry proc p (proc_max_tracked - length es) es).1
  ]

  find-scan_pid_other :
      (q p : ℕ) (es : List ProcEntry) → q ≢ p → find p (scan_pid proc q es) ≡ find p es
  unfolding scan_pid
  find-scan_pid_other q p es ne = elim (Bool-cases (leb q 1)) [
    | inl skip ↦ rw skip
    | inr user ↦ rw user (find-scan_entry_other proc q (proc_max_tracked - length es) p es ne)
  ]

  -- One free slot is enough.
  scanned-room :
      (p room : ℕ) (o : Option ProcEntry) → 0 < room → scanned proc p room o ≡ scanned proc p 1 o
  scanned-room p zero o h = absurd (omega arith)
  scanned-room p (suc room) none h = refl
  scanned-room p (suc room) (some e) h = refl

  find-scan_pid_self :
      (p : ℕ) (es : List ProcEntry)
      → 1 < p
      → length es < proc_max_tracked
      → find p (scan_pid proc p es) ≡ scanned proc p 1 (find p es)
  unfolding scan_pid
  find-scan_pid_self p es h room =
      let user : leb p 1 ≡ false = ground arith in
      rw user (
        find-scan_entry_self proc p (proc_max_tracked - length es) es
        ∙ scanned-room p (proc_max_tracked - length es) (find p es) (omega arith))

  scan_all-IsTable :
      (ps : List ℕ) (es : List ProcEntry) → IsTable es → IsTable (scan_all proc ps es)
  unfolding scan_all
  scan_all-IsTable [] es t = t
  scan_all-IsTable (p ∷ ps) es t =
      scan_all-IsTable ps (scan_pid proc p es) (scan_pid-IsTable p es t)

  length-scan_all-le :
      (ps : List ℕ) (es : List ProcEntry) → length (scan_all proc ps es) ≤ length es + length ps
  unfolding scan_all
  length-scan_all-le [] es = omega arith
  length-scan_all-le (p ∷ ps) es =
      omega (arith, length-scan_all-le ps (scan_pid proc p es), length-scan_pid-le p es)

  find-scan_all-Absent :
      (ps : List ℕ) (p : ℕ) (es : List ProcEntry)
      → Absent p ps
      → find p (scan_all proc ps es) ≡ find p es
  unfolding scan_all
  find-scan_all-Absent [] p es h = refl
  find-scan_all-Absent (q ∷ ps) p es h =
      find-scan_all-Absent ps p (scan_pid proc q es) h.1 ∙ find-scan_pid_other q p es h.0

  scan_all-append :
      (ps qs : List ℕ) (es : List ProcEntry)
      → scan_all proc (ps ++ qs) es ≡ scan_all proc qs (scan_all proc ps es)
  unfolding scan_all
  scan_all-append [] qs es = refl
  scan_all-append (p ∷ ps) qs es = scan_all-append ps qs (scan_pid proc p es)

clear_active-IsTable : (es : List ProcEntry) → IsTable es → IsTable (map clear_active es)
clear_active-IsTable es t = record {
  distinct = cleared es t.distinct;
  fits = omega (arith, t.fits, length-map clear_active es);
}
  where
    cleared : (es : List ProcEntry) → Distinct es → Distinct (map clear_active es)
    cleared [] d = tt
    cleared (e ∷ es) d =
        (find-clear_active e.pid es ∙ ap (Option.map clear_active) d.0, cleared es d.1)

compact-Distinct : (es : List ProcEntry) → Distinct es → Distinct (compact es)
unfolding compact
compact-Distinct [] d = tt
compact-Distinct (e ∷ es) d = elim (Bool-cases e.active) [
  | inl kept ↦ rw kept (find-compact e.pid es d.1 ∙ ap active_only d.0, compact-Distinct es d.1)
  | inr dropped ↦ rw dropped (compact-Distinct es d.1)
]

length-compact-le : (es : List ProcEntry) → length (compact es) ≤ length es
unfolding compact
length-compact-le [] = omega arith
length-compact-le (e ∷ es) = ground (arith, length-compact-le es)

compact-IsTable : (es : List ProcEntry) → IsTable es → IsTable (compact es)
compact-IsTable es t = record {
  distinct = compact-Distinct es t.distinct;
  fits = omega (arith, t.fits, length-compact-le es);
}

module _ (proc : Proc) where
  -- A scan of any process numbers, repeated ones too, keeps at most one entry for each process and at
  -- most `proc_max_tracked` entries.
  pub scan_pids-IsTable :
      (pids : List ℕ) (ps : ProcScanner)
      → IsTable ps.entries
      → IsTable (proc_scanner_scan_pids proc pids ps).entries
  unfolding proc_scanner_scan_pids
  scan_pids-IsTable pids ps t =
      compact-IsTable (scan_all proc pids (map clear_active ps.entries)) (
        scan_all-IsTable proc pids (map clear_active ps.entries)
          (clear_active-IsTable ps.entries t))

  -- What the scan has for a process that is listed once and finds a free slot.
  find_listed :
      (p : ℕ) (before after : List ℕ) (ps : ProcScanner)
      → IsTable ps.entries
      → 1 < p
      → Absent p before
      → Absent p after
      → length ps.entries + length before < proc_max_tracked
      → find p (proc_scanner_scan_pids proc (before ++ p ∷ after) ps).entries
        ≡ active_only (scanned proc p 1 (Option.map clear_active (find p ps.entries)))
  unfolding proc_scanner_scan_pids scan_all
  find_listed p before after ps t user nb na room =
      let start : List ProcEntry = map clear_active ps.entries in
      let mid : List ProcEntry = scan_all proc before start in
      find-compact p (scan_all proc (before ++ p ∷ after) start)
        (scan_all-IsTable proc (before ++ p ∷ after) start
          (clear_active-IsTable ps.entries t)).distinct
      ∙ ap active_only (
          ap (find p) (scan_all-append proc before (p ∷ after) start)
          ∙ find-scan_all-Absent proc after p (scan_pid proc p mid) na
          ∙ find-scan_pid_self proc p mid user (
              omega (
                arith,
                room,
                length-scan_all-le proc before start,
                length-map clear_active ps.entries,
              ))
          ∙ ap (scanned proc p 1)
              (find-scan_all-Absent proc before p start nb ∙ find-clear_active p ps.entries))

  -- From a valid table, a process that the scan does not list is dropped.
  unlisted_is_dropped :
      (p : ℕ) (pids : List ℕ) (ps : ProcScanner)
      → IsTable ps.entries
      → Absent p pids
      → find p (proc_scanner_scan_pids proc pids ps).entries ≡ none
  unfolding proc_scanner_scan_pids
  unlisted_is_dropped p pids ps t absent =
      let start : List ProcEntry = map clear_active ps.entries in
      find-compact p (scan_all proc pids start)
        (scan_all-IsTable proc pids start (clear_active-IsTable ps.entries t)).distinct
      ∙ ap active_only
          (find-scan_all-Absent proc pids p start absent ∙ find-clear_active p ps.entries)
      ∙ inactive (find p ps.entries)
    where
      inactive : (o : Option ProcEntry) → active_only (Option.map clear_active o) ≡ none
      inactive none = refl
      inactive (some e) = refl

  -- A known process needs no free slot.
  find_known :
      (p : ℕ) (before after : List ℕ) (ps : ProcScanner) {e : ProcEntry}
      → IsTable ps.entries
      → 1 < p
      → Absent p before
      → Absent p after
      → find p ps.entries ≡ some e
      → find p (proc_scanner_scan_pids proc (before ++ p ∷ after) ps).entries
        ≡ active_only (some (read_entry proc false (clear_active e)))
  unfolding proc_scanner_scan_pids scan_all scan_pid
  find_known p before after ps {e} t user nb na known =
      let start : List ProcEntry = map clear_active ps.entries in
      let mid : List ProcEntry = scan_all proc before start in
      let user : leb p 1 ≡ false = ground arith in
      let there : find p mid ≡ some (clear_active e) =
        find-scan_all-Absent proc before p start nb
        ∙ find-clear_active p ps.entries
        ∙ ap (Option.map clear_active) known in
      let updated : find p (scan_pid proc p mid) ≡ some (read_entry proc false (clear_active e)) =
        rw user (
          find-scan_entry_self proc p (proc_max_tracked - length mid) mid
          ∙ ap (scanned proc p (proc_max_tracked - length mid)) there) in
      find-compact p (scan_all proc (before ++ p ∷ after) start)
        (scan_all-IsTable proc (before ++ p ∷ after) start
          (clear_active-IsTable ps.entries t)).distinct
      ∙ ap active_only (
          ap (find p) (scan_all-append proc before (p ∷ after) start)
          ∙ find-scan_all-Absent proc after p (scan_pid proc p mid) na
          ∙ updated)

  -- The entry of `p` after a scan that has read `utime` and `stime` for it, `e` being its last one.
  abbrev pub Updated : (p : ℕ) → ProcEntry → (utime stime : ℕ) → ProcScanner → Type 0
  Updated p e utime stime ps =
      (e' : ProcEntry) × (find p ps.entries ≡ some e')
      × (e'.total_ticks ≡ (utime + stime) % 2 ^ 64)
      × (e'.delta_ticks ≡ (utime + stime) % 2 ^ 64 - e.total_ticks)
      × (e'.comm ≡ e.comm)

  listed-Updated :
      (p : ℕ) (before after : List ℕ) (ps : ProcScanner) {e : ProcEntry} {comm : List ℕ}
      {utime stime : ℕ}
      → IsTable ps.entries
      → 1 < p
      → Absent p before
      → Absent p after
      → find p ps.entries ≡ some e
      → read_proc_stat (proc.stat_file p) false ≡ parsed comm utime stime
      → Updated p e utime stime (proc_scanner_scan_pids proc (before ++ p ∷ after) ps)
  listed-Updated p before after ps {e} {comm} {utime} {stime} t user nb na known read =
      let same = find-pid p ps.entries known in
      (
        refresh proc false comm utime stime (clear_active e),
        find_known p before after ps t user nb na known
            ∙ read_entry_parsed proc false (clear_active e) (rw same read),
        unfold refresh in refl,
        unfold refresh in ground arith,
        unfold refresh in refl,
      )

  -- A process other than the first two is in a valid table, is listed once, and its counters can be
  -- read. Then both proc_scanner_scan_pids on the list and proc_scanner_scan on a /proc with the names
  -- of the list leave an entry for it whose `delta_ticks` are the ticks since its last scan, 0 if the
  -- count went back. Its name stays.
  pub known_process_delta :
      (p : ℕ) (before after : List ℕ) (names : List (List ℕ)) (ps : ProcScanner) {e : ProcEntry}
      {comm : List ℕ} {utime stime : ℕ}
      → IsTable ps.entries
      → 1 < p
      → Absent p before
      → Absent p after
      → map pid_of_name names ≡ before ++ p ∷ after
      → find p ps.entries ≡ some e
      → read_proc_stat (proc.stat_file p) false ≡ parsed comm utime stime
      → Updated p e utime stime (proc_scanner_scan_pids proc (before ++ p ∷ after) ps)
        × Updated p e utime stime (proc_scanner_scan proc (some names) ps)
  known_process_delta p before after names ps {e} {comm} {utime} {stime} t user nb na same known
        read =
      let by_list = listed-Updated p before after ps t user nb na known read in
      (
        by_list,
        unfold proc_scanner_scan proc_scanner_scan_pids in
            subst (λ pids. Updated p e utime stime (proc_scanner_scan_pids proc pids ps)) (sym same)
              by_list,
      )

  module _ (p : ℕ) (before after : List ℕ) (ps : ProcScanner) (t : IsTable ps.entries)
      (user : 1 < p) (nb : Absent p before) (na : Absent p after)
      (room : length ps.entries + length before < proc_max_tracked) where
    -- A process that is listed once and was not in the table gets an entry with its name, and the ticks
    -- that it has used before do not count as used in this interval, if its counters can be read.
    new_process_delta :
        {comm : List ℕ} {utime stime : ℕ}
        → find p ps.entries ≡ none
        → read_proc_stat (proc.stat_file p) true ≡ parsed comm utime stime
        → (e' : ProcEntry) × (find p (proc_scanner_scan_pids proc (before ++ p ∷ after) ps).entries
            ≡ some e')
          × (e'.total_ticks ≡ (utime + stime) % 2 ^ 64)
          × (e'.delta_ticks ≡ 0)
          × (e'.comm ≡ comm)
    new_process_delta {comm} {utime} {stime} unknown read = (
      refresh proc true comm utime stime (new_entry p),
      find_listed p before after ps t user nb na room
          ∙ ap (λ o. active_only (scanned proc p 1 (Option.map clear_active o))) unknown
          ∙ read_entry_parsed proc true (new_entry p) read,
      unfold refresh in refl,
      unfold refresh in ground arith,
      unfold refresh in refl,
    )

    -- A process whose counters cannot be read is dropped from the table.
    unreadable_is_dropped :
        ((is_new : Bool) → read_proc_stat (proc.stat_file p) is_new ≡ failed)
        → find p (proc_scanner_scan_pids proc (before ++ p ∷ after) ps).entries ≡ none
    unreadable_is_dropped gone =
        find_listed p before after ps t user nb na room ∙ unread (find p ps.entries) refl
      where
        unread :
            (o : Option ProcEntry)
            → find p ps.entries ≡ o
            → active_only (scanned proc p 1 (Option.map clear_active o)) ≡ none
        unread none e =
            ap (λ x. active_only (some x)) (read_entry_failed proc true (new_entry p) (gone true))
        unread (some x) e =
            ap (λ y. active_only (some y))
              (read_entry_failed proc false (clear_active x)
                (rw (find-pid p ps.entries e) (gone false)))

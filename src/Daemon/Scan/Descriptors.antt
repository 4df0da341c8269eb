-- ===== src/Daemon/Scan/Descriptors.antt =====
-- The descriptors that a scan opens and closes (src/proc_scanner.c).
use capstone_monitor.Prelude.{
  ℕ, zero, suc, ◌-◌, ◌≡◌, ◌∙◌, ap, sym, refl, List, [], ◌∷◌, map, Bool, true, false, Option, none,
  some, if◌then◌else◌, ◌==◌, ==_iff, leb, length, Bool-cases, inl, inr,
}
use capstone_monitor.Prelude.Int.{ℤ, pos, negsuc, eq_ℤ}
use capstone_monitor.CString.{fgets}
use capstone_monitor.BpfMap.{BpfMaps}
use capstone_monitor.Perf.{Kernel, Opened, opened, refused}
use capstone_monitor.Perf.Descriptors.{KernelLaws}
use capstone_monitor.Scanner.Stat.{StatResult, failed, overrun, parsed, uid_line}
use capstone_monitor.Scanner.Table.{
  ProcEntry, ProcScanner, Proc, proc_max_tracked, new_entry, clear_active, pid_of_name,
}
use capstone_monitor.Daemon.{System, ProcFile}
use capstone_monitor.Daemon.Slots.Descriptors.{SystemLaws, closed_again}
use capstone_monitor.Daemon.Scan.{
  text_of, names_of, stat_line_read, stat_opened, read_stat, uid_returned, status_opened, read_uid,
  uid_if_unknown, stat_was_read, update_entry, update_at, update_pid, update_all, scan_named,
  dir_opened, scan_dir, scan,
}

module _ (b : BpfMaps) (k : Kernel) (laws : KernelLaws k) (sys : System b k)
    (more : SystemLaws laws sys) where
  open k use {State}
  open laws use {is_open}

  abbrev pub SameOpen : State → State → Type 0
  SameOpen s s' = (j : ℕ) → is_open s' j ≡ is_open s j

  -- A descriptor that is taken, and closed when the others are as they were.
  taken_and_closed :
      (s s' s'' : State) (fd : ℕ)
      → (is_open s fd ≡ false) × ((j : ℕ) → is_open s' j ≡ (if fd == j then true else is_open s j))
      → SameOpen s' s''
      → SameOpen s (k.close (pos fd) s'')
  taken_and_closed s s' s'' fd (fresh, opens) kept j =
      closed_again (is_open s j) (is_open s'' j) (is_open (k.close (pos fd) s'') j) (fd == j)
        (kept j ∙ opens j) (λ e. ap (is_open s) (sym ((==_iff fd j).0 e)) ∙ fresh)
        (laws.close_ends fd s'' j)

  -- A file of a process that is opened and closed.
  pub file_closed :
      (f : ProcFile) (pid : ℕ) (s : State) {fd : ℕ} {s' : State}
      → sys.open_proc f pid s ≡ (opened fd, s')
      → SameOpen s (k.close (pos fd) s')
  file_closed f pid s {fd} {s'} h =
      taken_and_closed s s' s' fd (more.open_proc_takes f pid s h) (λ j. refl)

  pub dir_closed :
      (s : State) {fd : ℕ} {s' : State} (s'' : State)
      → sys.open_dir s ≡ (opened fd, s')
      → SameOpen s' s''
      → SameOpen s (k.close (pos fd) s'')
  dir_closed s {fd} {s'} s'' h kept = taken_and_closed s s' s'' fd (more.open_dir_takes s h) kept

  module _ (proc : State → Proc) where
    stat_line_end :
        (fd : ℕ) (fetch_comm : Bool) (line : List ℕ) (s : State)
        → (stat_line_read b k sys proc fd fetch_comm line s).1 ≡ k.close (pos fd) s
    unfolding stat_line_read
    stat_line_end fd fetch_comm [] s = refl
    stat_line_end fd fetch_comm (c ∷ line) s = refl

    read_stat_keeps :
        (pid : ℕ) (fetch_comm : Bool) (s : State)
        → SameOpen s (read_stat b k sys proc pid fetch_comm s).1
    unfolding read_stat stat_opened
    read_stat_keeps pid fetch_comm s = tried (sys.open_proc ProcFile.stat pid s) refl
      where
        tried :
            (r : Opened × State)
            → sys.open_proc ProcFile.stat pid s ≡ r
            → SameOpen s (stat_opened b k sys proc pid fetch_comm r).1
        tried (refused e, s') h j = more.open_proc_refusal ProcFile.stat pid s h j
        tried (opened fd, s') h j =
            ap (λ t. is_open t j)
              (stat_line_end fd fetch_comm (fgets 511 (text_of ((proc s').stat_file pid))).0 s')
            ∙ file_closed ProcFile.stat pid s h j

    uid_returned_end :
        (fd : ℕ) (uid : Option ℤ) (s : State)
        → (uid_returned b k sys proc fd uid s).1 ≡ k.close (pos fd) s
    unfolding uid_returned
    uid_returned_end fd none s = refl
    uid_returned_end fd (some uid) s = refl

    pub read_uid_keeps : (pid : ℕ) (s : State) → SameOpen s (read_uid b k sys proc pid s).1
    unfolding read_uid status_opened
    read_uid_keeps pid s = tried (sys.open_proc ProcFile.status pid s) refl
      where
        tried :
            (r : Opened × State)
            → sys.open_proc ProcFile.status pid s ≡ r
            → SameOpen s (status_opened b k sys proc pid r).1
        tried (refused e, s') h j = more.open_proc_refusal ProcFile.status pid s h j
        tried (opened fd, s') h j =
            ap (λ t. is_open t j)
              (uid_returned_end fd (uid_line (text_of ((proc s').status_file pid))) s')
            ∙ file_closed ProcFile.status pid s h j

    uid_if_unknown_keeps :
        (e : ProcEntry) (s : State) → SameOpen s (uid_if_unknown b k sys proc e s).1
    unfolding uid_if_unknown
    uid_if_unknown_keeps e s j = elim (Bool-cases (eq_ℤ e.uid (negsuc 0))) [
      | inl unknown ↦ rw unknown (read_uid_keeps e.pid s j)
      | inr known ↦ rw known refl
    ]

    stat_was_read_keeps :
        (is_new : Bool) (e : ProcEntry) (r : StatResult) (s : State)
        → SameOpen s (stat_was_read b k sys proc is_new e r s).1
    unfolding stat_was_read
    stat_was_read_keeps is_new e failed s j = refl
    stat_was_read_keeps is_new e overrun s j = refl
    stat_was_read_keeps is_new e (parsed comm utime stime) s j = uid_if_unknown_keeps e s j

    update_entry_keeps :
        (is_new : Bool) (e : ProcEntry) (s : State)
        → SameOpen s (update_entry b k sys proc is_new e s).1
    unfolding update_entry
    update_entry_keeps is_new e s j =
        stat_was_read_keeps is_new e _ _ j ∙ read_stat_keeps e.pid is_new s j

    update_at_keeps :
        (pid room : ℕ) (es : List ProcEntry) (s : State)
        → SameOpen s (update_at b k sys proc pid room es s).1
    unfolding update_at
    update_at_keeps pid zero [] s j = refl
    update_at_keeps pid (suc room) [] s j = update_entry_keeps true (new_entry pid) s j
    update_at_keeps pid zero (e ∷ es) s j = elim (Bool-cases (e.pid == pid)) [
      | inl here ↦ rw here (update_entry_keeps false e s j)
      | inr there ↦ rw there (update_at_keeps pid zero es s j)
    ]
    update_at_keeps pid (suc room) (e ∷ es) s j = elim (Bool-cases (e.pid == pid)) [
      | inl here ↦ rw here (update_entry_keeps false e s j)
      | inr there ↦ rw there (update_at_keeps pid (suc room) es s j)
    ]

    update_pid_keeps :
        (pid : ℕ) (es : List ProcEntry) (s : State)
        → SameOpen s (update_pid b k sys proc pid es s).1
    unfolding update_pid
    update_pid_keeps pid es s j = elim (Bool-cases (leb pid 1)) [
      | inl low ↦ rw low refl
      | inr user ↦ rw user (update_at_keeps pid (proc_max_tracked - length es) es s j)
    ]

    update_all_keeps :
        (pids : List ℕ) (es : List ProcEntry) (s : State)
        → SameOpen s (update_all b k sys proc pids es s).1
    unfolding update_all
    update_all_keeps [] es s j = refl
    update_all_keeps (pid ∷ pids) es s j = update_all_keeps pids _ _ j ∙ update_pid_keeps pid es s j

    module _ (names : State → Option (List (List ℕ))) where
      scan_dir_keeps :
          (ps : ProcScanner) (s : State) → SameOpen s (scan_dir b k sys proc names ps s).1
      unfolding scan_dir dir_opened
      scan_dir_keeps ps s = tried (sys.open_dir s) refl
        where
          tried :
              (r : Opened × State)
              → sys.open_dir s ≡ r
              → SameOpen s (dir_opened b k sys proc names ps r).1
          tried (refused e, s') h = more.open_dir_refusal s h
          tried (opened fd, s') h =
              let pids = map pid_of_name (names_of (names s')) in
              dir_closed s _ h (update_all_keeps pids (map clear_active ps.entries) s')

      pub scan_keeps :
          (pids : List ℕ) (ps : ProcScanner) (s : State)
          → SameOpen s (scan b k sys proc names pids ps s).1
      unfolding scan scan_named
      scan_keeps pids ps s j = elim (Bool-cases (length pids == 0)) [
        | inl all ↦ rw all (more.later_keeps _ j ∙ scan_dir_keeps ps s j)
        | inr named ↦
            rw named
              (more.later_keeps _ j ∙ update_all_keeps pids (map clear_active ps.entries) s j)
      ]

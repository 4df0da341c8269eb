-- ===== src/Scanner/Table/Find.antt =====
-- What the table has for a process after each step of a scan.
use mathlib.Core.Option
use capstone_monitor.Prelude.{
  ℕ, zero, suc, ◌+◌, ◌≤◌, ◌≡◌, ◌≢◌, ◌∙◌, refl, ap, List, [], ◌∷◌, map, Bool, true, false, Option,
  none, some, if◌then◌else◌, ◌==◌, length, arith, Bool-cases, inl, inr,
}
use capstone_monitor.Scanner.Stat.{failed, parsed, read_proc_stat}
use capstone_monitor.Scanner.Table.{
  ProcEntry, Proc, new_entry, refresh, read_entry, scan_entry, clear_active, compact,
}

-- The first entry of process `p`.
abbrev pub find : ℕ → List ProcEntry → Option ProcEntry
find p [] = none
find p (e ∷ es) = if e.pid == p then some e else find p es

-- No process has two entries.
abbrev pub Distinct : List ProcEntry → Type 0
Distinct [] = Unit
Distinct (e ∷ es) = (find e.pid es ≡ none) × Distinct es

abbrev pub active_only : Option ProcEntry → Option ProcEntry
active_only none = none
active_only (some e) = if e.active then some e else none

-- What the step for process `p` makes of what the table had.
abbrev pub scanned : Proc → (p room : ℕ) → Option ProcEntry → Option ProcEntry
scanned proc p room (some e) = some (read_entry proc false e)
scanned proc p zero none = none
scanned proc p (suc room) none = some (read_entry proc true (new_entry p))

pub read_entry-pid :
    (proc : Proc) (is_new : Bool) (e : ProcEntry) → (read_entry proc is_new e).pid ≡ e.pid
unfolding read_entry
read_entry-pid proc is_new e = ground arith

pub read_entry_parsed :
    (proc : Proc) (is_new : Bool) (e : ProcEntry) {comm : List ℕ} {utime stime : ℕ}
    → read_proc_stat (proc.stat_file e.pid) is_new ≡ parsed comm utime stime
    → active_only (some (read_entry proc is_new e)) ≡ some (refresh proc is_new comm utime stime e)
unfolding read_entry refresh
read_entry_parsed proc is_new e read = rw (read, read_entry)

pub read_entry_failed :
    (proc : Proc) (is_new : Bool) (e : ProcEntry)
    → read_proc_stat (proc.stat_file e.pid) is_new ≡ failed
    → read_entry proc is_new e ≡ e
unfolding read_entry
read_entry_failed proc is_new e read = rw (read, read_entry)

pub find-pid : (p : ℕ) (es : List ProcEntry) {e : ProcEntry} → find p es ≡ some e → e.pid ≡ p
find-pid p [] h = cc
find-pid p (x ∷ es) {e} h = elim (Bool-cases (x.pid == p)) [
  | inl here ↦ let same : some x ≡ some e = rw here at h in ground arith
  | inr later ↦ find-pid p es (rw later at h)
]

pub find-scan_entry_self :
    (proc : Proc) (p room : ℕ) (es : List ProcEntry)
    → find p (scan_entry proc p room es) ≡ scanned proc p room (find p es)
unfolding scan_entry
find-scan_entry_self proc p zero [] = refl
find-scan_entry_self proc p (suc room) [] = ground (arith, read_entry-pid proc true (new_entry p))
find-scan_entry_self proc p zero (e ∷ es) =
    ground (arith, read_entry-pid proc false e, find-scan_entry_self proc p zero es)
find-scan_entry_self proc p (suc room) (e ∷ es) =
    ground (arith, read_entry-pid proc false e, find-scan_entry_self proc p (suc room) es)

pub find-scan_entry_other :
    (proc : Proc) (q room p : ℕ) (es : List ProcEntry)
    → q ≢ p
    → find p (scan_entry proc q room es) ≡ find p es
unfolding scan_entry
find-scan_entry_other proc q zero p [] ne = refl
find-scan_entry_other proc q (suc room) p [] ne =
    ground (arith, read_entry-pid proc true (new_entry q))
find-scan_entry_other proc q zero p (e ∷ es) ne =
    ground (arith, read_entry-pid proc false e, find-scan_entry_other proc q zero p es ne)
find-scan_entry_other proc q (suc room) p (e ∷ es) ne =
    ground (arith, read_entry-pid proc false e, find-scan_entry_other proc q (suc room) p es ne)

step-Distinct :
    (proc : Proc) (q room : ℕ) (e : ProcEntry) (es : List ProcEntry)
    → Distinct (e ∷ es)
    → Distinct (scan_entry proc q room es)
    → Distinct (if e.pid == q then read_entry proc false e ∷ es else e ∷ scan_entry proc q room es)
step-Distinct proc q room e es d ih = elim (Bool-cases (e.pid == q)) [
  | inl same ↦ rw same (ap (λ k. find k es) (read_entry-pid proc false e) ∙ d.0, d.1)
  | inr ne ↦ rw ne (find-scan_entry_other proc q room e.pid es (ground arith) ∙ d.0, ih)
]

pub scan_entry-Distinct :
    (proc : Proc) (q room : ℕ) (es : List ProcEntry)
    → Distinct es
    → Distinct (scan_entry proc q room es)
unfolding scan_entry
scan_entry-Distinct proc q zero [] d = tt
scan_entry-Distinct proc q (suc room) [] d = (refl, tt)
scan_entry-Distinct proc q zero (e ∷ es) d =
    step-Distinct proc q zero e es d (scan_entry-Distinct proc q zero es d.1)
scan_entry-Distinct proc q (suc room) (e ∷ es) d =
    step-Distinct proc q (suc room) e es d (scan_entry-Distinct proc q (suc room) es d.1)

pub length-scan_entry :
    (proc : Proc) (q room : ℕ) (es : List ProcEntry)
    → (length es ≤ length (scan_entry proc q room es))
      × (length (scan_entry proc q room es) ≤ length es + 1)
      × (length (scan_entry proc q room es) ≤ length es + room)
unfolding scan_entry
length-scan_entry proc q zero [] = omega arith
length-scan_entry proc q (suc room) [] = omega arith
length-scan_entry proc q zero (e ∷ es) = ground (arith, length-scan_entry proc q zero es)
length-scan_entry proc q (suc room) (e ∷ es) =
    ground (arith, length-scan_entry proc q (suc room) es)

pub find-clear_active :
    (p : ℕ) (es : List ProcEntry)
    → find p (map clear_active es) ≡ Option.map clear_active (find p es)
find-clear_active p [] = refl
find-clear_active p (e ∷ es) = ground (arith, find-clear_active p es)

pub find-compact :
    (p : ℕ) (es : List ProcEntry) → Distinct es → find p (compact es) ≡ active_only (find p es)
unfolding compact
find-compact p [] d = refl
find-compact p (e ∷ es) d = elim (Bool-cases (e.pid == p)) [
  | inl same ↦
      let gone : find p es ≡ none = ap (λ k. find k es) (ground arith) ∙ d.0 in
      ground (arith, find-compact p es d.1, gone)
  | inr ne ↦ ground (arith, find-compact p es d.1)
]

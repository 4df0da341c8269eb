-- ===== src/Daemon/Scan/Agreement.antt =====
-- The scans with their files against the scans of given texts (src/proc_scanner.c).
use capstone_monitor.Prelude.{ℕ, ◌≡◌, List, Option, none, some}
use capstone_monitor.BpfMap.{BpfMaps}
use capstone_monitor.Perf.{Kernel, opened, refused, Errno}
use capstone_monitor.Scanner.Table.{Proc}
use capstone_monitor.Daemon.{System, ProcFile}
use capstone_monitor.Daemon.Scan.{names_of}

-- /proc holds `texts` and `listed` while the scan runs, and what cannot be opened has none.
pub record Stays (b : BpfMaps) (k : Kernel) (sys : System b k) (proc : k.State → Proc)
    (names : k.State → Option (List (List ℕ))) (texts : Proc) (listed : Option (List (List ℕ)))
    : Type 0 where
  pub same_texts : (s : k.State) → proc s ≡ texts
  pub same_names : (s : k.State) → names s ≡ listed
  pub stat_refused :
      (pid : ℕ) (s : k.State) {e : Errno} {s' : k.State}
      → sys.open_proc ProcFile.stat pid s ≡ (refused e, s')
      → texts.stat_file pid ≡ none
  pub status_refused :
      (pid : ℕ) (s : k.State) {e : Errno} {s' : k.State}
      → sys.open_proc ProcFile.status pid s ≡ (refused e, s')
      → texts.status_file pid ≡ none
  pub dir_refused :
      (s : k.State) {e : Errno} {s' : k.State} → sys.open_dir s ≡ (refused e, s') → listed ≡ none
  pub dir_listed :
      (s : k.State) {fd : ℕ} {s' : k.State}
      → sys.open_dir s ≡ (opened fd, s')
      → listed ≡ some (names_of listed)

-- ===== src/Daemon/Main/Laws.antt =====
-- What main asks of the system's files (src/schedmon.c: main).
use capstone_monitor.Prelude.{ℕ, ◌≡◌, List, true, false, some, if◌then◌else◌, ◌==◌}
use capstone_monitor.BpfMap.{BpfMaps}
use capstone_monitor.Perf.{Kernel}
use capstone_monitor.Perf.Descriptors.{KernelLaws}
use capstone_monitor.Daemon.Main.{Host}

-- What the calls of main do to descriptors: fopen hands out one that was not open, fclose ends it, and
-- setrlimit leaves all alone.
pub record HostLaws {b : BpfMaps} {k : Kernel} (laws : KernelLaws k) (host : Host b k)
    : Type 0 where
  pub setrlimit_keeps :
      (soft : ℕ) (s : k.State) (j : ℕ) → laws.is_open (host.setrlimit soft s) j ≡ laws.is_open s j
  pub fopen_takes :
      (path : List ℕ) (s : k.State) {fd : ℕ} {s' : k.State}
      → host.fopen path s ≡ (some fd, s')
      → (laws.is_open s fd ≡ false)
        × ((j : ℕ) → laws.is_open s' j ≡ (if fd == j then true else laws.is_open s j))
  pub fclose_ends :
      (fd : ℕ) (s : k.State) (j : ℕ)
      → laws.is_open (host.fclose fd s) j ≡ (if fd == j then false else laws.is_open s j)

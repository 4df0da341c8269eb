-- ===== src/Daemon/Main/Returning.antt =====
-- When the daemon gets to its return (src/schedmon.c: main).
use capstone_monitor.Prelude.{ℕ, ◌≡◌, ◌≢◌, refl, List, ◌∷◌, Option, none, some}
use capstone_monitor.Double.{Double}
use capstone_monitor.BpfMap.{BpfMaps}
use capstone_monitor.Perf.{Kernel}
use capstone_monitor.Tracer.Loading.{Libbpf, Handle, init_ebpf}
use capstone_monitor.Ring.Shared.{SharedMemory}
use capstone_monitor.Daemon.Sync.{DaemonConfig, Timespec}
use capstone_monitor.Daemon.Options.{parse_args}
use capstone_monitor.Daemon.Start.{init_shm}
use capstone_monitor.Daemon.Main.{
  Host, Machine, returned, sample_and_clean, csv_opened, open_csv, rings_ready, tracer_ready, main,
}

module _ (b : BpfMaps) (k : Kernel) (host : Host b k) (lib : Libbpf) (d : Double)
    (mem : SharedMemory d.F) where
  -- The CSV file opens, if there is one.
  abbrev pub CsvOpens : Option (List ℕ) → k.State → Type 0
  CsvOpens none s = Unit {0}
  CsvOpens (some path) s = (host.fopen path s).0 ≢ none

  csv_returns :
      (cfg : DaemonConfig) (now : Timespec) (times : List (Timespec × Timespec))
      (path : Option (List ℕ)) (tracer : Handle) (rb dash : ℕ) (m : Machine k lib mem)
      → CsvOpens path m.kernel
      → (open_csv b k host lib d mem cfg now times path tracer rb dash m).0 ≡ returned
  unfolding open_csv sample_and_clean
  csv_returns cfg now times none tracer rb dash m h = refl
  csv_returns cfg now times (some path) tracer rb dash m h = from (host.fopen path m.kernel) h
    where
      from :
          (r : Option ℕ × k.State)
          → r.0 ≢ none
          → (csv_opened b k host lib d mem cfg now times tracer rb dash r.0
              (record m { kernel = r.1 })).0
            ≡ returned
      from (none, s) n = absurd (n refl)
      from (some fd, s) n = unfold csv_opened in refl

  -- The branch of main that does not call exit(1).
  pub main_returns :
      (path : List ℕ) (argv : List (List ℕ)) (now : Timespec) (times : List (Timespec × Timespec))
      (m : Machine k lib mem) {tracer : Handle} {l : lib.State} {rings : ℕ × ℕ} {t : mem.State}
      → init_ebpf lib path m.bpf ≡ (some tracer, l)
      → init_shm mem (d.of_nat 0) m.memory ≡ (some rings, t)
      → ((s : k.State) → CsvOpens (parse_args argv).csv_path s)
      → (main b k host lib d mem (path ∷ argv) now times m).0 ≡ returned
  unfolding main tracer_ready rings_ready
  main_returns path argv now times m {tracer} {l} {rings} {t} e h csv =
      rw (e, tracer_ready, h)
        (csv_returns (parse_args argv) now times (parse_args argv).csv_path tracer (rings.0)
          (rings.1) _ (csv _))

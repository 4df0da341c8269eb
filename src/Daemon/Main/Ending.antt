-- ===== src/Daemon/Main/Ending.antt =====
-- What is left when the daemon has returned (src/schedmon.c: main, cleanup).
use capstone_monitor.Prelude.{
  ℕ, ◌≡◌, ◌∙◌, ap, sym, refl, List, [], ◌∷◌, Option, none, some, ◌==◌, ==_iff,
}
use capstone_monitor.Double.{Double}
use capstone_monitor.BpfMap.{BpfMaps}
use capstone_monitor.Perf.{Kernel}
use capstone_monitor.Perf.Descriptors.{KernelLaws}
use capstone_monitor.Tracer.Loading.{Libbpf, Handle, init_ebpf, ebpf_tracer_destroy}
use capstone_monitor.Tracer.Loading.Handles.{Thing, LibbpfLaws}
use capstone_monitor.Tracer.Loading.Ownership.{init_ebpf-destroy}
use capstone_monitor.Ring.Shared.{ShmName, SharedMemory}
use capstone_monitor.Ring.Shared.Laws.{SharedLaws}
use capstone_monitor.Ring.Shared.Ownership.{SameTables}
use capstone_monitor.Daemon.Sync.{DaemonConfig, Timespec}
use capstone_monitor.Daemon.Slots.Descriptors.{SystemLaws, closed_again}
use capstone_monitor.Daemon.Options.{parse_args, raise_fd_limit}
use capstone_monitor.Daemon.Start.{init_shm, check_proc_io_access}
use capstone_monitor.Daemon.Start.Files.{check_keeps_descriptors}
use capstone_monitor.Daemon.Start.Rings.{Ready, init_shm-Ready}
use capstone_monitor.Daemon.Ticks.{run_sampling_loop, close_slots}
use capstone_monitor.Daemon.Ticks.Ownership.{no_descriptor_leaks}
use capstone_monitor.Daemon.Main.{
  Host, Machine, Exit, exited, returned, set_limit, cleanup, initial_loop, sample_and_clean,
  csv_opened, open_csv, rings_ready, tracer_ready, main,
}
use capstone_monitor.Daemon.Main.Laws.{HostLaws}
use capstone_monitor.Daemon.Main.Memory.{rings_are_given_back}

module _ (b : BpfMaps) (k : Kernel) (laws : KernelLaws k) (host : Host b k)
    (files : SystemLaws laws host.sys) (more : HostLaws laws host) (lib : Libbpf)
    (bpf_laws : LibbpfLaws lib) (d : Double) (mem : SharedMemory d.F)
    (shared : SharedLaws mem) where
  open laws use {is_open}
  open bpf_laws use {is_live}
  open shared use {view}

  abbrev Result : Type 0
  Result = Exit × Machine k lib mem

  abbrev SameDescriptors : k.State → k.State → Type 0
  SameDescriptors s s' = (j : ℕ) → is_open s' j ≡ is_open s j

  -- The same descriptors, things of libbpf's and mappings as at the start, and no name of a segment; a
  -- daemon that calls exit(1) leaves them to the system.
  abbrev pub Clean : Machine k lib mem → Machine k lib mem → Type 0
  Clean m m' =
      SameDescriptors m.kernel m'.kernel
      × ((t : Thing) → is_live m'.bpf t ≡ is_live m.bpf t)
      × SameTables (view m.memory) (view m'.memory)
      × ((n : ShmName) → (view m'.memory).named n ≡ none)

  abbrev Ends : Machine k lib mem → Result → Type 0
  Ends m (exited, m') = Unit {0}
  Ends m (returned, m') = Clean m m'

  module _ (m : Machine k lib mem) (cfg : DaemonConfig) (now : Timespec)
      (times : List (Timespec × Timespec)) (tracer : Handle) (rb dash : ℕ) where
    -- What the rest of main starts from: a tracer that gives all back, and two ring buffers.
    abbrev Prepared : Machine k lib mem → Type 0
    Prepared m' =
        ((t : Thing) → is_live (ebpf_tracer_destroy lib tracer m'.bpf).1 t ≡ is_live m.bpf t)
        × Ready mem shared (d.of_nat 0) m.memory rb dash m'.memory

    slots_are_closed :
        (s : k.State)
        → let (l, s') =
            run_sampling_loop b k host.sys d tracer.fds host.qsort host.proc host.names cfg times
              (initial_loop b k host lib d mem now)
              s in
          SameDescriptors s (close_slots k l.syncing.slots s')
    slots_are_closed s =
        no_descriptor_leaks b k laws host.sys files d tracer.fds host.qsort host.proc host.names cfg
          times (initial_loop b k host lib d mem now) s refl

    without_csv :
        (m' : Machine k lib mem)
        → SameDescriptors m.kernel m'.kernel
        → Prepared m'
        → Ends m (sample_and_clean b k host lib d mem cfg now times tracer rb dash none m')
    unfolding sample_and_clean cleanup
    without_csv m' same (bpf, ready) =
        let (l, s) =
          run_sampling_loop b k host.sys d tracer.fds host.qsort host.proc host.names cfg times
            (initial_loop b k host lib d mem now) m'.kernel in
        let (tables, names) =
          rings_are_given_back mem shared (d.of_nat 0) m.memory m'.memory rb dash l.sent ready in
        (λ j. slots_are_closed m'.kernel j ∙ same j, bpf, tables, names)

    with_csv :
        (path : List ℕ) (m' : Machine k lib mem)
        → SameDescriptors m.kernel m'.kernel
        → Prepared m'
        → (r : Option ℕ × k.State) → host.fopen path m'.kernel ≡ r
        → Ends m (
            csv_opened b k host lib d mem cfg now times tracer rb dash r.0
              (record m' { kernel = r.1 }))
    unfolding csv_opened sample_and_clean cleanup
    with_csv path m' same (bpf, ready) (none, s) e = tt
    with_csv path m' same (bpf, ready) (some fd, s) e =
        let (l, s') =
          run_sampling_loop b k host.sys d tracer.fds host.qsort host.proc host.names cfg times
            (initial_loop b k host lib d mem now) s in
        let (fresh, opens) = more.fopen_takes path m'.kernel e in
        let (tables, names) =
          rings_are_given_back mem shared (d.of_nat 0) m.memory m'.memory rb dash l.sent ready in
        let t = close_slots k l.syncing.slots s' in
        (
          λ j.
              closed_again (is_open m'.kernel j) (is_open t j) (is_open (host.fclose fd t) j)
                (fd == j) (slots_are_closed s j ∙ opens j)
                (λ h. ap (is_open m'.kernel) (sym ((==_iff fd j).0 h)) ∙ fresh)
                (more.fclose_ends fd t j)
              ∙ same j,
          bpf,
          tables,
          names,
        )

    after_start :
        (m' : Machine k lib mem)
        → SameDescriptors m.kernel m'.kernel
        → Prepared m'
        → Ends m (rings_ready b k host lib d mem cfg now times tracer (some (rb, dash)) m')
    unfolding rings_ready open_csv
    after_start m' same p = with_path cfg.csv_path
      where
        s : k.State
        s = (check_proc_io_access b k host.sys host.self host.proc host.names m'.kernel).1

        checked : SameDescriptors m.kernel s
        checked j =
            check_keeps_descriptors b k laws host.sys files host.proc host.names host.self m'.kernel
              j
            ∙ same j

        with_path :
            (path : Option (List ℕ))
            → Ends m (
                open_csv b k host lib d mem cfg now times path tracer rb dash
                  (record m' { kernel = s }))
        with_path none = without_csv (record m' { kernel = s }) checked p
        with_path (some path) =
            with_csv path (record m' { kernel = s }) checked p (host.fopen path s) refl

  main-Ends :
      (argv : List (List ℕ)) (now : Timespec) (times : List (Timespec × Timespec))
      (m : Machine k lib mem)
      → Ends m (main b k host lib d mem argv now times m)
  unfolding main tracer_ready rings_ready set_limit
  main-Ends [] now times m = tt
  main-Ends (path ∷ argv) now times m = started (init_ebpf lib path m.bpf) refl
    where
      cfg : DaemonConfig
      cfg = parse_args argv

      wanted : Option ℕ
      wanted = raise_fd_limit cfg (host.getrlimit m.kernel)

      limited :
          (soft : Option ℕ) → SameDescriptors m.kernel (set_limit b k host lib d mem soft m.kernel)
      limited none j = refl
      limited (some soft) j = more.setrlimit_keeps soft m.kernel j

      s : k.State
      s = set_limit b k host lib d mem wanted m.kernel

      rings :
          (tracer : Handle) (l : lib.State)
          → init_ebpf lib path m.bpf ≡ (some tracer, l)
          → (r : Option (ℕ × ℕ) × mem.State) → init_shm mem (d.of_nat 0) m.memory ≡ r
          → Ends m (
              rings_ready b k host lib d mem cfg now times tracer r.0
                (record { kernel = s; bpf = l; memory = r.1 }))
      rings tracer l e (none, t) h = tt
      rings tracer l e (some (rb, dash), t) h =
          let back : (x : Thing)
              → is_live (ebpf_tracer_destroy lib tracer l).1 x ≡ is_live m.bpf x =
            rw e at (init_ebpf-destroy lib bpf_laws path m.bpf) in
          after_start m cfg now times tracer rb dash (record { kernel = s; bpf = l; memory = t })
            (limited wanted) (back, init_shm-Ready mem shared (d.of_nat 0) m.memory h)

      started :
          (r : Option Handle × lib.State)
          → init_ebpf lib path m.bpf ≡ r
          → Ends m (
              tracer_ready b k host lib d mem cfg now times r.0
                (record { kernel = s; bpf = r.1; memory = m.memory }))
      started (none, l) e = tt
      started (some tracer, l) e = rings tracer l e (init_shm mem (d.of_nat 0) m.memory) refl

  -- When the daemon returns, whatever its options and whatever happened in its ticks, the same
  -- descriptors are open as before it started, the same objects and links of libbpf's are alive,
  -- the same addresses are mapped, and neither segment has a name any more. It holds of a system, a
  -- libbpf and a shared memory that hand out and end what their documentation says.
  pub returned_leaves_nothing :
      (argv : List (List ℕ)) (now : Timespec) (times : List (Timespec × Timespec))
      (m : Machine k lib mem) {m' : Machine k lib mem}
      → main b k host lib d mem argv now times m ≡ (returned, m')
      → Clean m m'
  returned_leaves_nothing argv now times m e = rw e at (main-Ends argv now times m)

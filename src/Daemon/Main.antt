-- ===== src/Daemon/Main.antt =====
-- The daemon from its start to its end (src/schedmon.c: main, cleanup). The parts of the system that
-- the daemon deals with are three states: the kernel's files and counters, libbpf's, and the shared
-- memory. The messages, the signal handlers and the lines of the CSV file are left out.
pub mod Laws
pub mod Memory
pub mod Ending
pub mod Returning
mod Tests
use capstone_monitor.Prelude.{ℕ, List, [], ◌∷◌, Option, none, some, true}
use capstone_monitor.Double.{Double}
use capstone_monitor.BpfMap.{BpfMaps}
use capstone_monitor.Perf.{Kernel}
use capstone_monitor.Tracer.Loading.{Libbpf, Handle, init_ebpf, ebpf_tracer_destroy}
use capstone_monitor.Scanner.Table.{Proc, proc_scanner_init}
use capstone_monitor.Scanner.TopN.{Qsort}
use capstone_monitor.Ring.Shared.{SharedMemory, push_at, rb_destroy, rb_destroy_dash}
use capstone_monitor.Daemon.{Slot, System}
use capstone_monitor.Daemon.Sync.{DaemonConfig, Timespec}
use capstone_monitor.Daemon.Options.{parse_args, raise_fd_limit}
use capstone_monitor.Daemon.Start.{init_shm, check_proc_io_access}
use capstone_monitor.Daemon.Ticks.{Push, to_rb, to_rb_dash, Loop, run_sampling_loop, close_slots}

-- What main asks of the system beside: /proc, the limit of open files, and the CSV file. `self` is the
-- daemon's own number; fopen gives the descriptor of the stream, or none.
pub record Host (b : BpfMaps) (k : Kernel) : Type 0 where
  pub sys : System b k
  pub qsort : Qsort
  pub proc : k.State → Proc
  pub names : k.State → Option (List (List ℕ))
  pub self : ℕ
  pub getrlimit : k.State → Option (ℕ × ℕ)
  pub setrlimit : (soft : ℕ) → k.State → k.State
  pub fopen : (path : List ℕ) → k.State → Option ℕ × k.State
  pub fclose : (stream : ℕ) → k.State → k.State

pub record Machine (k : Kernel) (lib : Libbpf) {F : Type 0} (mem : SharedMemory F) : Type 0 where
  pub kernel : k.State
  pub bpf : lib.State
  pub memory : mem.State

-- How main ends: by exit(1), or by its return.
pub data Exit : Type 0 where
  exited : Exit
  returned : Exit

-- The calls of rb_push that the loop makes, at the addresses of the two ring buffers.
unfoldable pub send :
    {F : Type 0} (mem : SharedMemory F) → (rb dash : ℕ) → List (Push F) → mem.State → mem.State
send mem rb dash [] s = s
send mem rb dash (to_rb m ∷ sent) s = send mem rb dash sent (push_at mem rb m s).1
send mem rb dash (to_rb_dash m ∷ sent) s = send mem rb dash sent (push_at mem dash m s).1

-- A call on a pointer or a stream that is not NULL.
abbrev pub unless_null : {A : Type 0} → (ℕ → A → A) → Option ℕ → A → A
unless_null f none s = s
unless_null f (some n) s = f n s

module _ (b : BpfMaps) (k : Kernel) (host : Host b k) (lib : Libbpf) (d : Double)
    (mem : SharedMemory d.F) where
  open host use {sys, qsort, proc, names, self, getrlimit, setrlimit, fopen, fclose}
  open d use {F}

  unfoldable pub set_limit : Option ℕ → k.State → k.State
  set_limit none s = s
  set_limit (some soft) s = setrlimit soft s

  unfoldable pub cleanup :
      Handle → (rb dash csv : Option ℕ) → List (Slot F) → Machine k lib mem → Machine k lib mem
  unfolding close_slots ebpf_tracer_destroy rb_destroy rb_destroy_dash
  cleanup tracer rb dash csv slots m = record {
    kernel = unless_null fclose csv (close_slots k slots m.kernel);
    bpf = (ebpf_tracer_destroy lib tracer m.bpf).1;
    memory = unless_null (rb_destroy_dash mem) dash (unless_null (rb_destroy mem) rb m.memory);
  }

  -- What the globals and the static variables hold at first; `now` is last_slow.
  abbrev pub initial_loop : (now : Timespec) → Loop F
  initial_loop now = record {
    syncing = record {
      slots = [];
      scanner = proc_scanner_init;
      first_run = true;
      last_sync = record { tv_sec = 0; tv_nsec = 0 };
    };
    sample_num = 0;
    first_slow = true;
    last_slow = now;
    sent = [];
  }

  module _ (cfg : DaemonConfig) (now : Timespec) (times : List (Timespec × Timespec)) where
    -- From the call of run_sampling_loop on.
    unfoldable pub sample_and_clean :
        Handle → (rb dash : ℕ) → (csv : Option ℕ) → Machine k lib mem → Exit × Machine k lib mem
    unfolding run_sampling_loop send cleanup
    sample_and_clean tracer rb dash csv m =
        let (l, s) =
          run_sampling_loop b k sys d tracer.fds qsort proc names cfg times (initial_loop now)
            m.kernel in
        let sent = send mem rb dash l.sent m.memory in
        (
          returned,
          cleanup tracer (some rb) (some dash) csv l.syncing.slots
              (record { kernel = s; bpf = m.bpf; memory = sent }),
        )

    unfoldable pub csv_opened :
        Handle → (rb dash : ℕ) → Option ℕ → Machine k lib mem → Exit × Machine k lib mem
    unfolding sample_and_clean
    csv_opened tracer rb dash none m = (exited, m)
    csv_opened tracer rb dash (some csv) m = sample_and_clean tracer rb dash (some csv) m

    unfoldable pub open_csv :
        Option (List ℕ) → Handle → (rb dash : ℕ) → Machine k lib mem → Exit × Machine k lib mem
    unfolding csv_opened sample_and_clean
    open_csv none tracer rb dash m = sample_and_clean tracer rb dash none m
    open_csv (some path) tracer rb dash m =
        let (csv, s) = fopen path m.kernel in
        csv_opened tracer rb dash csv (record m { kernel = s })

    -- From the return of init_shm on.
    unfoldable pub rings_ready :
        Handle → Option (ℕ × ℕ) → Machine k lib mem → Exit × Machine k lib mem
    unfolding open_csv check_proc_io_access
    rings_ready tracer none m = (exited, m)
    rings_ready tracer (some (rb, dash)) m =
        let (access, s) = check_proc_io_access b k sys self proc names m.kernel in
        open_csv cfg.csv_path tracer rb dash (record m { kernel = s })

    -- From the return of init_ebpf on.
    unfoldable pub tracer_ready : Option Handle → Machine k lib mem → Exit × Machine k lib mem
    unfolding rings_ready init_shm
    tracer_ready none m = (exited, m)
    tracer_ready (some tracer) m =
        let (rings, s) = init_shm mem (d.of_nat 0) m.memory in
        rings_ready tracer rings (record m { memory = s })

  -- `argv` is without the name of the program, `now` the time at which the loop begins, and `times` the
  -- ticks until a signal ends it.
  unfoldable pub main :
      (argv : List (List ℕ))
      → (now : Timespec) → (times : List (Timespec × Timespec)) → Machine k lib mem
      → Exit × Machine k lib mem
  unfolding tracer_ready init_ebpf set_limit raise_fd_limit parse_args
  main [] now times m = (exited, m)
  main (bpf_path ∷ argv) now times m =
      let cfg = parse_args argv in
      let s = set_limit (raise_fd_limit cfg (getrlimit m.kernel)) m.kernel in
      let (tracer, l) = init_ebpf lib bpf_path m.bpf in
      tracer_ready cfg now times tracer (record m { kernel = s; bpf = l })

-- ===== src/Daemon/Small.antt =====
-- A small system under the daemon, a value of the parameter, with a table of two
-- slots and three ticks.
use capstone_monitor.Prelude.{
  Bool, ◌*◌, ℕ, ◌∙◌, ap, sym, refl, List, [], ◌∷◌, true, false, none, arith, if◌then◌else◌, ◌==◌,
}
use capstone_monitor.Prelude.Int.{pos, negsuc}
use capstone_monitor.Window.{sw_init}
use capstone_monitor.Window.Whole.{whole}
use capstone_monitor.Metrics.{zero_metrics}
use capstone_monitor.BpfMap.Assoc.{assoc_maps}
use capstone_monitor.Bpf.{Maps}
use capstone_monitor.Perf.{closed_counter}
use capstone_monitor.Perf.Small.{
  table_open, table_take, table_open_fresh, table_open-append, take_opened, take_refused,
  small_kernel, small_kernel_laws,
}
use capstone_monitor.Tracer.{EbpfTracer}
use capstone_monitor.Daemon.{PidState, Slot, System}
use capstone_monitor.Scanner.Table.{Proc}
use capstone_monitor.Daemon.Sync.{DaemonConfig, Timespec}
use capstone_monitor.Daemon.Ticks.{Loop}
use capstone_monitor.Daemon.Slots.Valid.{IsTable}
use capstone_monitor.Daemon.Slots.Descriptors.{SystemLaws}

abbrev pub tracer : EbpfTracer
tracer = record {
  map_fd_switches = pos 40;
  map_fd_pids = pos 41;
  map_fd_io = pos 42;
  map_fd_io_wait = pos 43;
  map_fd_rq_wait = pos 44;
  map_fd_last_cpu = pos 45;
  map_fd_exec = pos 46;
}

abbrev pub quiet : Maps assoc_maps
quiet = record {
  vol_ctx_switch = (40, 6) ∷ [];
  active_pids = [];
  io_counts = [];
  io_wait_ns = [];
  rq_enqueue_ts = [];
  rq_wait_ns = [];
  exec_comms = [];
  pid_last_cpu = [];
  bio_inflight = [];
}

-- The descriptors of small_kernel, with files that are empty and maps that stay as they are.
abbrev pub small_system : System assoc_maps (small_kernel 9)
small_system = record {
  maps = λ s. quiet;
  put_maps = λ ms s. s;
  later = λ s. s;
  open_proc = λ f pid s. table_take 9 s;
  open_dir = table_take 9;
  read_proc = λ fd size s. (none, s);
  is_gone = λ pid s. false;
  stack = λ s. [];
}

abbrev pub small_system_laws : SystemLaws (small_kernel_laws 9) small_system
small_system_laws = record {
  put_maps_keeps = λ ms s j. refl;
  later_keeps = λ s j. refl;
  read_keeps = λ fd size s j. refl;
  read_proc_keeps = λ fd size s j. refl;
  open_proc_takes = λ f pid s e.
      let (n, t) = take_opened 9 s e in
      (
        ap (table_open s) (sym n) ∙ table_open_fresh s,
        λ j.
            ap (λ q. table_open q j) (sym t)
            ∙ table_open-append s j
            ∙ ap (λ q. if q == j then true else table_open s j) n,
      );
  open_proc_refusal = λ f pid s e j. ap (λ q. table_open q j) (sym (take_refused 9 s e));
  open_dir_takes = λ s e.
      let (n, t) = take_opened 9 s e in
      (
        ap (table_open s) (sym n) ∙ table_open_fresh s,
        λ j.
            ap (λ q. table_open q j) (sym t)
            ∙ table_open-append s j
            ∙ ap (λ q. if q == j then true else table_open s j) n,
      );
  open_dir_refusal = λ s e j. ap (λ q. table_open q j) (sym (take_refused 9 s e));
}

abbrev pub state_of : ℕ → PidState
state_of p = record {
  pid = p;
  active = 1;
  io_fd = negsuc 0;
  prev_cpu_id = negsuc 0;
  migration_count = 0;
  prev_cycles = 900;
  prev_instructions = 700;
  prev_llc = 5;
  prev_ctx = 4;
  prev_io_proc = 0;
  prev_io_syscall = 0;
  prev_io = 0;
  prev_io_wait_ns = 0;
  prev_rq_wait_ns = 0;
  prev_io_count = 0;
}

abbrev pub slot_of : ℕ → Slot ℕ
slot_of p = record {
  state = state_of p;
  win_ipc = sw_init whole;
  win_llc = sw_init whole;
  win_ctx = sw_init whole;
  win_io = sw_init whole;
  win_io_wait = sw_init whole;
  win_rq_wait = sw_init whole;
  win_migration = sw_init whole;
  win_io_syscall = sw_init whole;
  perf = closed_counter;
  last_sm = zero_metrics 0;
  last_sm_updated_ns = 5000;
  last_sm_valid = true;
  comm = [];
}

abbrev pub two_slots : List (Slot ℕ)
two_slots = slot_of 50 ∷ slot_of 40 ∷ []

pub two_slots-IsTable : IsTable two_slots
two_slots-IsTable = record { distinct = λ p. ground arith; within = omega arith }

-- Two processes are named; the system has room for the descriptors of both.
abbrev pub config : DaemonConfig
config = record {
  pids = 40 ∷ 41 ∷ [];
  top_n = 0;
  min_uid = pos 0;
  interval_ms = 50;
  csv_path = none;
  label = none;
  terminal_mode = false;
  show_zero = false;
}

abbrev pub unreadable : List Bool → Proc
unreadable s = record { stat_file = λ p. none; status_file = λ p. none }

abbrev pub at_ms : ℕ → Timespec
at_ms n = record { tv_sec = 3; tv_nsec = n * 1000000 }

abbrev pub three_ticks : List (Timespec × Timespec)
three_ticks = (at_ms 0, at_ms 1) ∷ (at_ms 50, at_ms 50) ∷ (at_ms 100, at_ms 100) ∷ []

abbrev pub start : Loop ℕ
start = record {
  syncing = record {
    slots = [];
    scanner = record { entries = []; scan_count = 0 };
    first_run = true;
    last_sync = record { tv_sec = 0; tv_nsec = 0 };
  };
  sample_num = 0;
  first_slow = true;
  last_slow = at_ms 0;
  sent = [];
}

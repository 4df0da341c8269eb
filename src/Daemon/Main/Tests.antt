-- ===== src/Daemon/Main/Tests.antt =====
-- The daemon from its start to its end, over small values of its parameters.
use capstone_monitor.Prelude.{
  ℕ, ◌≡◌, ◌≢◌, ◌∙◌, ap, sym, refl, List, [], ◌∷◌, ◌++◌, Bool, true, Option, none, some, arith,
  if◌then◌else◌, ◌==◌, length,
}
use capstone_monitor.Window.Whole.{whole}
use capstone_monitor.BpfMap.Assoc.{assoc_maps}
use capstone_monitor.Perf.Small.{
  table_open, table_close, table_open_fresh, table_open-append, table_open-close, small_kernel,
  small_kernel_laws,
}
use capstone_monitor.Tracer.Loading.{init_ebpf}
use capstone_monitor.Tracer.Loading.Small.{small_libbpf, small_libbpf_laws}
use capstone_monitor.Scanner.TopN.Insertion.{by_insertion}
use capstone_monitor.Ring.Shared.Small.{blank, small_memory}
use capstone_monitor.Ring.Shared.Small.Laws.{small_memory_laws}
use capstone_monitor.Daemon.Options.{parse_args, csv_option}
use capstone_monitor.Daemon.Start.{init_shm}
use capstone_monitor.Daemon.Main.{Host, Machine, Exit, main}
use capstone_monitor.Daemon.Main.Ending.{Clean, returned_leaves_nothing}
use capstone_monitor.Daemon.Main.Laws.{HostLaws}
use capstone_monitor.Daemon.Main.Returning.{main_returns}
use capstone_monitor.Daemon.Small.{small_system, small_system_laws, unreadable, three_ticks, at_ms}

abbrev small_host : Host assoc_maps (small_kernel 9)
small_host = record {
  sys = small_system;
  qsort = by_insertion;
  proc = unreadable;
  names = λ s. none;
  self = 900;
  getrlimit = λ s. some (1024, 4096);
  setrlimit = λ soft s. s;
  fopen = λ path s. (some (length s), s ++ true ∷ []);
  fclose = table_close;
}

same_pair :
    {n fd : ℕ} {s s' : List Bool}
    → ◌≡◌ {A = Option ℕ × List Bool} (some n, s) (some fd, s')
    → (n ≡ fd) × (s ≡ s')
same_pair e = (ground arith, ground arith)

abbrev small_host_laws : HostLaws (small_kernel_laws 9) small_host
small_host_laws = record {
  setrlimit_keeps = λ soft s j. refl;
  fopen_takes = λ path s e.
      let (n, t) = same_pair e in
      (
        ap (table_open s) (sym n) ∙ table_open_fresh s,
        λ j.
            ap (λ q. table_open q j) (sym t)
            ∙ table_open-append s j
            ∙ ap (λ q. if q == j then true else table_open s j) n,
      );
  fclose_ends = table_open-close;
}

-- Nothing but the standard streams at first.
abbrev machine : Machine (small_kernel 9) (small_libbpf 9) small_memory
machine = record {
  kernel = true ∷ true ∷ true ∷ [];
  bpf = ([], []);
  memory = record {
    name = some 7;
    name_dash = none;
    fds = [];
    addresses = [];
    content = λ o. blank;
  };
}

-- "x.o --csv o"
abbrev command_line : List (List ℕ)
command_line = csv_option ∷ (b'o' ∷ []) ∷ []

abbrev object_path : List ℕ
object_path = b'x' ∷ b'.' ∷ b'o' ∷ []

abbrev run : Exit × Machine (small_kernel 9) (small_libbpf 9) small_memory
run =
    main assoc_maps (small_kernel 9) small_host (small_libbpf 9) whole small_memory
      (object_path ∷ command_line) (at_ms 0) three_ticks machine

some_stream : (s : List Bool) → (small_host.fopen (b'o' ∷ []) s).0 ≢ none
some_stream s e = absurd (ground arith)

returned_leaves_nothing_example :
    Clean assoc_maps
      (small_kernel 9)
      (small_kernel_laws 9)
      small_host
      small_system_laws
      small_host_laws
      (small_libbpf 9)
      (small_libbpf_laws 9)
      whole
      small_memory
      small_memory_laws
      machine
      (run.1)
unfolding init_ebpf init_shm parse_args
returned_leaves_nothing_example =
    returned_leaves_nothing assoc_maps (small_kernel 9) (small_kernel_laws 9) small_host
      small_system_laws small_host_laws (small_libbpf 9) (small_libbpf_laws 9) whole small_memory
      small_memory_laws (object_path ∷ command_line) (at_ms 0) three_ticks machine
      (ap (λ e. (e, run.1))
        (main_returns assoc_maps (small_kernel 9) small_host (small_libbpf 9) whole small_memory
          object_path command_line (at_ms 0) three_ticks machine refl refl some_stream))

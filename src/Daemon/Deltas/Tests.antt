-- ===== src/Daemon/Deltas/Tests.antt =====
-- The switches of a process in an interval.
use capstone_monitor.Prelude.{◌≡◌, refl, List, [], ◌∷◌, arith, false, none, some, if◌then◌else◌}
use capstone_monitor.Prelude.Int.{pos}
use capstone_monitor.BpfMap.Assoc.{assoc_maps, assoc_maps-MapLaws, lookup}
use capstone_monitor.Bpf.{Event, sched_switch, fork, handle_all}
use capstone_monitor.Tracer.{ebpf_tracer_read_switches}
use capstone_monitor.Daemon.{PidState}
use capstone_monitor.Daemon.Deltas.{Reading, went_back, IoReading, deltas}
use capstone_monitor.Daemon.Deltas.Switches.{interval_counts_switches}
use capstone_monitor.Daemon.Small.{tracer, quiet, state_of}

abbrev gives_up_twice : List Event
gives_up_twice =
    sched_switch 5 0 (record { prev_pid = 40; prev_state = 1; next_pid = 50 })
    ∷ fork 41
    ∷ sched_switch 6 0 (record { prev_pid = 40; prev_state = 0; next_pid = 50 })
    ∷ sched_switch 7 0 (record { prev_pid = 40; prev_state = 2; next_pid = 0 })
    ∷ []

abbrev st : PidState
st = record (state_of 40) { prev_ctx = 6 }

abbrev reading : Reading
reading = record {
  hw = record { cycles = 1000; instr = 800; llc_misses = 7 };
  ctx = ebpf_tracer_read_switches assoc_maps tracer 40 (handle_all assoc_maps gives_up_twice quiet);
  io_wait_ns = 100;
  rq_wait_ns = 0;
}

abbrev io_reading : IoReading
io_reading = record { fd = pos 3; proc = 4096; syscall_bytes = 8192; fresh = false }

interval_counts_switches_example :
    (if went_back st reading then none else some (deltas st reading io_reading 2).ctx) ≡ some 2
unfolding ebpf_tracer_read_switches lookup
interval_counts_switches_example =
    interval_counts_switches assoc_maps assoc_maps-MapLaws tracer 40 gives_up_twice quiet st reading
      io_reading 2 {v = 6} refl (omega arith) refl (omega arith) (omega arith) refl refl
      (omega arith) (omega arith) (omega arith)

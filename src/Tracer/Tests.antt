-- ===== src/Tracer/Tests.antt =====
-- The tracer's functions at concrete maps.
use capstone_monitor.Prelude.{ℕ, ◌≡◌, refl, List, [], ◌∷◌, some, none, arith, ◌≤◌, length}
use capstone_monitor.Prelude.Int.{pos, negsuc}
use capstone_monitor.BpfMap.Assoc.{assoc_maps, assoc_maps-MapLaws, lookup, update, insert_absent}
use capstone_monitor.Bpf.{
  Maps, Event, sched_wakeup, handle_all, handle_exec, handle_block_rq_issue,
  handle_block_rq_complete,
}
use capstone_monitor.Tracer.{
  EbpfTracer, ebpf_tracer_read_io, ebpf_tracer_read_io_wait_ns, ebpf_tracer_register_pid,
  ebpf_tracer_pop_exec_comm, start_at_zero, pop_found, copy_comm,
}
use capstone_monitor.Tracer.ExecNames.{pop_fits, exec_name_is_popped}
use capstone_monitor.Tracer.Requests.{registered_request_is_read}

-- All maps but that of the waits on the run queue were found.
abbrev tracer : EbpfTracer
tracer = record {
  map_fd_switches = pos 4;
  map_fd_pids = pos 5;
  map_fd_io = pos 6;
  map_fd_io_wait = pos 7;
  map_fd_rq_wait = negsuc 0;
  map_fd_last_cpu = pos 8;
  map_fd_exec = pos 9;
}

-- Process 40 ran before the daemon came; process 41 has a new name.
abbrev started : Maps assoc_maps
started = record {
  vol_ctx_switch = (40, 6) ∷ [];
  active_pids = (41, 1) ∷ [];
  io_counts = (41, 2) ∷ [];
  io_wait_ns = [];
  rq_enqueue_ts = [];
  rq_wait_ns = [];
  exec_comms = (41, 115 ∷ 104 ∷ 0 ∷ []) ∷ [];
  pid_last_cpu = (40, 3) ∷ [];
  bio_inflight = [];
}

abbrev wakes : List Event
wakes = sched_wakeup 120 50 ∷ []

abbrev sh : List ℕ
sh = 115 ∷ 104 ∷ 0 ∷ []

pop_fits_example :
    (length sh ≤ 17)
    × ((ebpf_tracer_pop_exec_comm assoc_maps tracer 41 17
          (ebpf_tracer_pop_exec_comm assoc_maps tracer 41 17 started).1).0
        ≡ none)
unfolding ebpf_tracer_pop_exec_comm pop_found copy_comm lookup
pop_fits_example = pop_fits assoc_maps assoc_maps-MapLaws tracer 41 17 started refl

exec_name_is_popped_example :
    (ebpf_tracer_pop_exec_comm assoc_maps tracer 40 17
      (handle_exec assoc_maps 40 (97 ∷ 98 ∷ 0 ∷ 0 ∷ []) started)).0
    ≡ some (97 ∷ 98 ∷ 0 ∷ [])
unfolding lookup update handle_exec
exec_name_is_popped_example =
    exec_name_is_popped assoc_maps assoc_maps-MapLaws tracer 40 17 (97 ∷ 98 ∷ []) (0 ∷ []) started
      refl (omega arith) (omega arith) (omega arith) (omega arith) refl

registered_request_is_read_example :
    (ebpf_tracer_read_io assoc_maps tracer 40 (
        handle_block_rq_complete assoc_maps 700 901 (
          handle_all assoc_maps wakes (
            handle_block_rq_issue assoc_maps 200 40 901
              (ebpf_tracer_register_pid assoc_maps tracer 40 started))))
      ≡ 1)
    × (ebpf_tracer_read_io_wait_ns assoc_maps tracer 40 (
          handle_block_rq_complete assoc_maps 700 901 (
            handle_all assoc_maps wakes (
              handle_block_rq_issue assoc_maps 200 40 901
                (ebpf_tracer_register_pid assoc_maps tracer 40 started))))
        ≡ 500)
unfolding lookup update insert_absent handle_block_rq_issue ebpf_tracer_register_pid start_at_zero
    ebpf_tracer_read_io ebpf_tracer_read_io_wait_ns
registered_request_is_read_example =
    registered_request_is_read assoc_maps assoc_maps-MapLaws tracer 200 700 40 901 wakes started
      {w = 0} {c = 0} refl refl refl (omega arith) (omega arith) (omega arith) (omega arith) refl
      refl refl refl (omega arith) (omega arith)

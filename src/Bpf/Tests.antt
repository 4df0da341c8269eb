-- ===== src/Bpf/Tests.antt =====
-- The handlers at concrete maps.
use capstone_monitor.Prelude.{◌≡◌, refl, List, [], ◌∷◌, some, arith}
use capstone_monitor.BpfMap.Assoc.{assoc_maps, assoc_maps-MapLaws, lookup}
use capstone_monitor.Bpf.{
  Maps, Event, sched_switch, sched_wakeup, fork, handle_all, handle_sched_switch,
  handle_sched_wakeup, handle_exit,
}
use capstone_monitor.Bpf.Frame.{SameEntries, other_processes_do_not_interfere}
use capstone_monitor.Bpf.Exit.{last_switch_brings_entry_back}
use capstone_monitor.Bpf.RunQueue.{wait_is_measured}

-- process 40 has run for a while, and request 900 of process 50 is in flight
abbrev running : Maps assoc_maps
running = record {
  vol_ctx_switch = (40, 6) ∷ [];
  active_pids = (40, 1) ∷ [];
  io_counts = (40, 2) ∷ [];
  io_wait_ns = (40, 300) ∷ [];
  rq_enqueue_ts = (40, 0) ∷ [];
  rq_wait_ns = (40, 1000) ∷ [];
  exec_comms = [];
  pid_last_cpu = (40, 3) ∷ [];
  bio_inflight = (900, record { issue_ts = 10; pid = 50 }) ∷ [];
}

abbrev others : List Event
others =
    fork 50
    ∷ sched_wakeup 120 50
    ∷ sched_switch 130 1 (record { prev_pid = 60; prev_state = 0; next_pid = 50 })
    ∷ []

other_processes_example : SameEntries assoc_maps 40 running (handle_all assoc_maps others running)
other_processes_example =
    other_processes_do_not_interfere assoc_maps assoc_maps-MapLaws 40 others running (omega arith)

last_switch_example :
    lookup
      (handle_sched_switch assoc_maps 9 3
        (record { prev_pid = 40; prev_state = 16; next_pid = 0 })
        (handle_exit assoc_maps (record { pid = 40; group_dead = 1 }) running)).vol_ctx_switch
      40
    ≡ some 1
unfolding lookup
last_switch_example =
    last_switch_brings_entry_back assoc_maps assoc_maps-MapLaws 9 3
      (record { pid = 40; group_dead = 1 })
      (record { prev_pid = 40; prev_state = 16; next_pid = 0 }) running {v = 6} (omega arith)
      (omega arith) refl (omega arith) refl

wait_is_measured_example :
    (lookup
        (handle_sched_switch assoc_maps 150 2
          (record { prev_pid = 60; prev_state = 0; next_pid = 40 })
          (handle_all assoc_maps others (handle_sched_wakeup assoc_maps 100 40 running))).rq_wait_ns
        40
      ≡ some 1050)
    × (lookup
          (handle_sched_switch assoc_maps 150 2
            (record { prev_pid = 60; prev_state = 0; next_pid = 40 })
            (handle_all assoc_maps others
              (handle_sched_wakeup assoc_maps 100 40 running))).rq_enqueue_ts
          40
        ≡ some 0)
unfolding lookup
wait_is_measured_example =
    wait_is_measured assoc_maps assoc_maps-MapLaws 100 150 2 40 others
      (record { prev_pid = 60; prev_state = 0; next_pid = 40 }) running {old = 0} {acc = 1000}
      (omega arith) (omega arith) (omega arith) (omega arith) refl refl refl (omega arith)

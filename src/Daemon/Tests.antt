-- ===== src/Daemon/Tests.antt =====
-- The daemon's theorems at concrete tables and ticks.
use capstone_monitor.Prelude.{
  ℕ, ◌+◌, ◌≡◌, ◌≢◌, refl, ◌++◌, List, [], ◌∷◌, true, none, some, arith, length, get_elem?, inl,
}
use capstone_monitor.Window.Whole.{whole}
use capstone_monitor.Metrics.{zero_metrics}
use capstone_monitor.BpfMap.Assoc.{assoc_maps}
use capstone_monitor.Perf.Small.{table_open, small_kernel, small_kernel_laws}
use capstone_monitor.Ring.{RingBuffer}
use capstone_monitor.Ring.Valid.{IsValid}
use capstone_monitor.Ring.Queue.{contents}
use capstone_monitor.Scanner.TopN.Insertion.{by_insertion}
use capstone_monitor.Daemon.Slots.Valid.{IsTable}
use capstone_monitor.Daemon.Sync.{mark, sync_top}
use capstone_monitor.Daemon.Sync.Tracked.{Listed}
use capstone_monitor.Daemon.Sync.Top.{tracked_are_chosen, chosen_stay}
use capstone_monitor.Daemon.Ticks.{Round, slow_loop, run_sampling_loop, close_slots, fast_path}
use capstone_monitor.Daemon.Ticks.Loops.{slow_loop_ends}
use capstone_monitor.Daemon.Ticks.Fresh.{Rings, push_sent, recent_entries, fast_path_feeds}
use capstone_monitor.Daemon.Ticks.Ownership.{run-IsTable, no_descriptor_leaks}
use capstone_monitor.Daemon.Options.{parse_args, pids_option, top_option}
use capstone_monitor.Daemon.Options.Valid.{IsConfig, parse_args-IsConfig}
use capstone_monitor.Daemon.Small.{
  tracer, small_system, small_system_laws, slot_of, two_slots, two_slots-IsTable, config,
  unreadable, three_ticks, start,
}

-- Process 40 is on the list and 50 is not.
chosen_stay_example :
    (n : ℕ) × (get_elem?
        (sync_top assoc_maps
          (small_kernel 9)
          small_system
          whole
          tracer
          (40 ∷ 60 ∷ [])
          two_slots
          []).0
        n
      ≡ some (mark 1 (slot_of 40)))
chosen_stay_example =
    chosen_stay assoc_maps (small_kernel 9) small_system whole tracer (40 ∷ 60 ∷ []) two_slots [] 1
      {x = slot_of 40} two_slots-IsTable refl (inl refl)

tracked_are_chosen_example : Listed 40 (40 ∷ 60 ∷ []) × ((mark 1 (slot_of 40)).state.active ≢ 0)
tracked_are_chosen_example =
    tracked_are_chosen assoc_maps (small_kernel 9) small_system whole tracer (40 ∷ 60 ∷ [])
      two_slots [] (stays.0) {y = mark 1 (slot_of 40)} two_slots-IsTable (stays.1)
  where
    stays :
        (n : ℕ) × (get_elem?
            (sync_top assoc_maps
              (small_kernel 9)
              small_system
              whole
              tracer
              (40 ∷ 60 ∷ [])
              two_slots
              []).0
            n
          ≡ some (mark 1 (slot_of 40)))
    stays =
        chosen_stay assoc_maps (small_kernel 9) small_system whole tracer (40 ∷ 60 ∷ []) two_slots
          [] 1 {x = slot_of 40} two_slots-IsTable refl (inl refl)

no_descriptor_leaks_example :
    let (l, s) =
      run_sampling_loop assoc_maps
        (small_kernel 9)
        small_system
        whole
        tracer
        by_insertion
        unreadable
        (λ s. none)
        config
        three_ticks
        start
        (true ∷ []) in
    table_open (close_slots (small_kernel 9) l.syncing.slots s) 3 ≡ table_open (true ∷ []) 3
no_descriptor_leaks_example =
    no_descriptor_leaks assoc_maps (small_kernel 9) (small_kernel_laws 9) small_system
      small_system_laws whole tracer by_insertion unreadable (λ s. none) config three_ticks start
      (true ∷ []) refl 3

run-IsTable_example :
    IsTable
      (run_sampling_loop assoc_maps
        (small_kernel 9)
        small_system
        whole
        tracer
        by_insertion
        unreadable
        (λ s. none)
        config
        three_ticks
        (record start { syncing = record start.syncing { slots = two_slots } })
        []).0.syncing.slots
run-IsTable_example =
    run-IsTable assoc_maps (small_kernel 9) small_system whole tracer by_insertion unreadable
      (λ s. none) config three_ticks
      (record start { syncing = record start.syncing { slots = two_slots } }) [] two_slots-IsTable

abbrev round : Round ℕ
round = record { slots = two_slots; displayed = 0; sent = [] }

slow_loop_ends_example :
    slow_loop assoc_maps (small_kernel 9) small_system whole tracer 1 5000 2 7 0 round []
    ≡ slow_loop assoc_maps (small_kernel 9) small_system whole tracer 1 5000 2 2 0 round []
slow_loop_ends_example =
    slow_loop_ends assoc_maps (small_kernel 9) small_system whole tracer 1 5000 2 2 7 0 round []
      (omega arith) (omega arith)

abbrev empty_ring : RingBuffer ℕ
empty_ring = record {
  slots = λ i. zero_metrics 0;
  head = 0;
  tail = 0;
  abi_version = 5;
  slot_size = 88;
}

abbrev rings : Rings ℕ
rings = record { rb = empty_ring; dash = empty_ring }

fast_path_feeds_example :
    IsValid ((push_sent rings (fast_path 9000 two_slots).1).rb)
    × (contents ((push_sent rings (fast_path 9000 two_slots).1).rb)
        ≡ contents empty_ring ++ recent_entries 9000 two_slots)
    × ((push_sent rings (fast_path 9000 two_slots).1).dash ≡ empty_ring)
fast_path_feeds_example =
    fast_path_feeds 9000 two_slots rings (omega arith) (omega arith, (omega arith, tt))
      (record { head_in = omega arith; tail_in = omega arith }) (omega arith)

-- "--pids 12,x,40 --top"
abbrev command_line : List (List ℕ)
command_line = pids_option ∷ (b'1' ∷ b'2' ∷ b',' ∷ b'x' ∷ b',' ∷ b'4' ∷ b'0' ∷ []) ∷ top_option ∷ []

parse_args-IsConfig_example :
    IsConfig (parse_args command_line)
    × (length (parse_args command_line).pids + (parse_args command_line).top_n ≢ 0)
parse_args-IsConfig_example = parse_args-IsConfig command_line

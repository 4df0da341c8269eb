-- ===== src/Daemon/Ticks/Tests.antt =====
-- The loop of ticks at concrete tables.
use capstone_monitor.Prelude.{
  ℕ, ◌+◌, ◌*◌, ◌≡◌, refl, List, true, false, none, some, [], ◌∷◌, ◌++◌, arith, length, Bool,
}
use capstone_monitor.Prelude.Int.{ℤ, pos, negsuc}
use capstone_monitor.Window.Whole.{whole}
use capstone_monitor.Window.Valid.{init-IsValid}
use capstone_monitor.Daemon.Slots.{find_slot, add_pid, seed_cycles, seed_instructions}
use capstone_monitor.Perf.{Kernel, perf_counter_open, start_group}
use capstone_monitor.Tracer.{
  ebpf_tracer_pop_exec_comm, ebpf_tracer_read_switches, ebpf_tracer_read_io_wait_ns,
  ebpf_tracer_read_rq_wait_ns,
}
use capstone_monitor.BpfMap.Assoc.{assoc_maps, lookup}
use capstone_monitor.Perf.Reading.{perf_counter_read}
use capstone_monitor.Daemon.Sample.{sample}
use capstone_monitor.ProcIo.{read_proc_io_fd}
use capstone_monitor.Window.{sw_mean, sw_push, sw_init}
use capstone_monitor.Metrics.{sm_is_active}
use capstone_monitor.Perf.Small.{small_kernel, table_take}
use capstone_monitor.Daemon.{System}
use capstone_monitor.Scanner.TopN.Insertion.{by_insertion}
use capstone_monitor.Daemon.Ticks.{visit, Loop, Push, to_rb, to_rb_dash, run_sampling_loop}
use capstone_monitor.Daemon.Ticks.Each.{Each, cons-Each}
use capstone_monitor.Daemon.Ticks.Active.{AllSent}
use capstone_monitor.Daemon.Ticks.Sent.{IsStart, only_active_sent}
use capstone_monitor.Daemon.Ticks.Windows.{WindowsValid, run-WindowsValid}
use capstone_monitor.Daemon.Small.{
  tracer, quiet, small_system, config, unreadable, three_ticks, start, two_slots, slot_of,
}

-- A kernel whose counters go on with the time, which is the length of the table of descriptors: two
-- instructions for each cycle.
abbrev group_of : (fd : ℤ) → (cycles : ℕ) → List ℕ
group_of (pos n) cycles = 3 ∷ 7 ∷ (102 + n) ∷ (2 * cycles) ∷ (101 + n) ∷ cycles ∷ (100 + n) ∷ []
group_of (negsuc n) cycles = []

abbrev counting_kernel : Kernel
counting_kernel = record (small_kernel 40) {
  read = λ fd size bs. (some (group_of fd (1000 * length bs)), bs);
}

abbrev counting_system : System assoc_maps counting_kernel
counting_system = record {
  maps = λ s. quiet;
  put_maps = λ ms s. s;
  later = λ s. s ++ false ∷ [];
  open_proc = λ f pid s. table_take 40 s;
  open_dir = table_take 40;
  read_proc = λ fd size s. (none, s);
  is_gone = λ pid s. false;
  stack = λ s. [];
}

abbrev counting_run : Loop ℕ × List Bool
counting_run =
    run_sampling_loop assoc_maps counting_kernel counting_system whole tracer by_insertion
      unreadable (λ s. none) config three_ticks start []

abbrev sent_pids : List (Push ℕ) → List ℕ
sent_pids [] = []
sent_pids (to_rb m ∷ sent) = m.pid ∷ sent_pids sent
sent_pids (to_rb_dash m ∷ sent) = m.pid ∷ sent_pids sent

-- Both processes go to both ring buffers at once, and to the first one in each of the three ticks.
pids_sent : sent_pids counting_run.0.sent ≡ 40 ∷ 40 ∷ 41 ∷ 41 ∷ 40 ∷ 41 ∷ 40 ∷ 41 ∷ 40 ∷ 41 ∷ []
unfolding run_sampling_loop find_slot add_pid perf_counter_open start_group
    ebpf_tracer_pop_exec_comm lookup perf_counter_read visit sample ebpf_tracer_read_switches
    ebpf_tracer_read_io_wait_ns ebpf_tracer_read_rq_wait_ns seed_cycles read_proc_io_fd sw_mean
    sw_push sw_init seed_instructions
pids_sent = refl

only_active_sent_example :
    AllSent whole
      (λ m. (sm_is_active whole m ≡ true) × IsStart three_ticks m.timestamp_ns)
      counting_run.0.sent
only_active_sent_example =
    only_active_sent assoc_maps counting_kernel counting_system whole tracer by_insertion unreadable
      (λ s. none) config three_ticks start [] refl refl

slot_of-WindowsValid : (p : ℕ) → WindowsValid (slot_of p)
slot_of-WindowsValid p =
    let v = init-IsValid whole in
    record {
      ipc = v;
      llc = v;
      ctx = v;
      io = v;
      io_wait = v;
      rq_wait = v;
      migration = v;
      io_syscall = v;
    }

two_slots-WindowsValid : Each WindowsValid two_slots
two_slots-WindowsValid =
    cons-Each WindowsValid (slot_of 50) (slot_of 40 ∷ []) (slot_of-WindowsValid 50) (
      cons-Each WindowsValid (slot_of 40) [] (slot_of-WindowsValid 40)
        (λ y (m, h). absurd (ground arith)))

run-WindowsValid_example :
    Each WindowsValid
      (run_sampling_loop assoc_maps
        (small_kernel 9)
        small_system
        whole
        tracer
        by_insertion
        unreadable
        (λ s. none)
        config
        three_ticks
        (record start { syncing = record start.syncing { slots = two_slots } })
        []).0.syncing.slots
run-WindowsValid_example =
    run-WindowsValid assoc_maps (small_kernel 9) small_system whole tracer by_insertion unreadable
      (λ s. none) config three_ticks
      (record start { syncing = record start.syncing { slots = two_slots } }) []
      two_slots-WindowsValid

-- ===== src/Daemon/Sample.antt =====
-- One sample of a slot, every 200 ms (src/schedmon.c: the body of the loop over the slots in
-- run_sampling_loop).
pub mod Ownership
use capstone_monitor.Prelude.{
  ℕ, ◌+◌, ◌-◌, ◌*◌, ◌%◌, ◌^◌, List, Bool, true, false, not, ◌&&◌, ◌||◌, Option, none, some,
  if◌then◌else◌, ◌==◌, ltb, leb,
}
use capstone_monitor.Prelude.Int.{ℤ, pos, negsuc, eq_ℤ}
use capstone_monitor.Double.{Double}
use capstone_monitor.Metrics.{SmoothedMetrics}
use capstone_monitor.Window.{sw_push, sw_mean}
use capstone_monitor.BpfMap.{BpfMaps}
use capstone_monitor.Bpf.{sub64, rq_wait_limit, io_wait_limit}
use capstone_monitor.Perf.{Kernel, RawCounters, is_fd}
use capstone_monitor.Tracer.{
  EbpfTracer, ebpf_tracer_read_switches, ebpf_tracer_read_io, ebpf_tracer_read_io_wait_ns,
  ebpf_tracer_read_rq_wait_ns, ebpf_tracer_read_last_cpu,
}
use capstone_monitor.ProcIo.{proc_io_read_fail}
use capstone_monitor.Daemon.{PidState, Slot, System}
use capstone_monitor.Daemon.Monad.{M, pure, ◌>>=◌, ◌>>◌, look, read_counters}
use capstone_monitor.Daemon.Deltas.{
  Reading, went_back, rebase, IoReading, Deltas, deltas, advance, count_migration, end_migration,
}
use capstone_monitor.Daemon.Slots.{open_proc_io_fd, read_io}

module _ (d : Double) where
  open d use {F, zero as fzero, div, lt, of_nat}

  -- `total / count / 1e6`, or 0 when either is 0
  unfoldable pub mean_ms : (total count : ℕ) → F
  mean_ms total count =
      if ltb 0 count && ltb 0 total
      then div (div (of_nat total) (of_nat count)) (of_nat 1000000)
      else fzero

  unfoldable pub per_second : (dt : F) → (n : ℕ) → F
  per_second dt n = if lt fzero dt then div (of_nat n) dt else fzero

  unfoldable pub ratio : (total count : ℕ) → F
  ratio total count = div (of_nat total) (of_nat count)

  -- The eight pushes.
  unfoldable pub push_sample : (dt : F) → Deltas → (migrations : ℕ) → Slot F → Slot F
  unfolding mean_ms per_second ratio
  push_sample dt x migrations slot = record slot {
    win_io = sw_push d slot.win_io (per_second dt x.io_proc);
    win_io_wait = sw_push d slot.win_io_wait (mean_ms x.io_wait_ns x.io_for_wait);
    win_io_syscall = sw_push d slot.win_io_syscall (per_second dt x.io_syscall);
    win_ipc = sw_push d slot.win_ipc (if ltb 0 x.cycles then ratio x.instr x.cycles else fzero);
    win_llc =
        sw_push d slot.win_llc
          (if ltb 0 x.cycles && ltb 0 x.instr then ratio x.llc x.instr else fzero);
    win_ctx = sw_push d slot.win_ctx (div (of_nat x.ctx) dt);
    win_rq_wait = sw_push d slot.win_rq_wait (mean_ms x.rq_wait_ns x.ctx);
    win_migration = sw_push d slot.win_migration (per_second dt migrations);
  }

  abbrev pub flag : Bool → ℕ
  flag true = 1
  flag false = 0

  -- What is written to g_last_sm[i]; the timestamp stays as it was.
  unfoldable pub smooth : Slot F → SmoothedMetrics F
  smooth slot = record slot.last_sm {
    pid = slot.state.pid;
    cpu_id = negsuc 0;
    hw_pmu_available = flag slot.perf.hw_available;
    smoothed_ipc = sw_mean d slot.win_ipc;
    smoothed_llc_miss = sw_mean d slot.win_llc;
    smoothed_ctx_freq = sw_mean d slot.win_ctx;
    smoothed_io_freq = sw_mean d slot.win_io;
    smoothed_io_wait_ms = sw_mean d slot.win_io_wait;
    smoothed_rq_wait_ms = sw_mean d slot.win_rq_wait;
    smoothed_migration_freq = sw_mean d slot.win_migration;
    smoothed_io_syscall_freq = sw_mean d slot.win_io_syscall;
  }

module _ (b : BpfMaps) (k : Kernel) (sys : System b k) where
  open k use {State}

  abbrev pub io_unread : ℤ → Bool → IoReading
  io_unread fd fresh = record { fd = fd; proc = 0; syscall_bytes = 0; fresh = fresh }

  -- After the file was opened anew; `old` is what cur_io_syscall holds.
  unfoldable pub read_again : (fd : ℤ) → (old : ℕ) → M State IoReading
  read_again fd old s =
      if is_fd fd
      then (do
        t ← read_io b k sys fd old
        pure (
            if t.0 == proc_io_read_fail
            then io_unread fd true
            else record { fd = fd; proc = t.0; syscall_bytes = t.1; fresh = true }))
          s
      else (io_unread fd true, s)

  unfoldable pub reopen : (pid : ℕ) → (fd : ℤ) → (old : ℕ) → M State IoReading
  unfolding read_again
  reopen pid fd old = do
    λ s. (tt, k.close fd s)
    fd' ← open_proc_io_fd b k sys pid
    read_again fd' old

  unfoldable pub io_was_read : (pid : ℕ) → (fd : ℤ) → (totals : ℕ × ℕ) → M State IoReading
  unfolding reopen
  io_was_read pid fd t s =
      if t.0 == proc_io_read_fail
      then reopen pid fd t.1 s
      else (record { fd = fd; proc = t.0; syscall_bytes = t.1; fresh = false }, s)

  unfoldable pub sample_io : (pid : ℕ) → (fd : ℤ) → M State IoReading
  unfolding io_was_read
  sample_io pid fd s =
      if is_fd fd
      then (do t ← read_io b k sys fd 0; io_was_read pid fd t) s
      else (io_unread fd false, s)

-- What comes of a slot in a round.
pub data Sampled (F : Type 0) : Type 0 where
  -- the counters cannot be read: the slot goes
  gone : Sampled F
  -- the baselines are set anew
  skipped : Slot F → Sampled F
  -- `last_sm` is up to date
  measured : Slot F → Sampled F

module _ (b : BpfMaps) (k : Kernel) (sys : System b k) (d : Double) (et : EbpfTracer)
    (dt : d.F) where
  open k use {State}
  open d use {F}

  -- The rest of the round, once the readings are accepted.
  unfoldable pub measure : Slot F → Reading → M State (Slot F)
  unfolding sample_io deltas advance count_migration end_migration push_sample smooth look
  measure slot r = do
    let st = slot.state
    io ← sample_io b k sys st.pid st.io_fd
    cur_io ← look b k sys (ebpf_tracer_read_io b et st.pid)
    cpu ← look b k sys (ebpf_tracer_read_last_cpu b et st.pid)
    let pushed = push_sample d dt (deltas st r io cur_io) (count_migration st cpu) slot
    let slot' = record pushed { state = end_migration (advance st r io cur_io) cpu }
    pure (record slot' { last_sm = smooth d slot' })

  unfoldable pub accept : Slot F → Reading → M State (Sampled F)
  unfolding measure went_back rebase
  accept slot r s =
      if went_back slot.state r
      then (skipped (record slot { state = rebase slot.state r }), s)
      else (do x ← measure slot r; pure (measured x)) s

  unfoldable pub counters_read : Slot F → Option RawCounters → M State (Sampled F)
  unfolding accept look
  counters_read slot none = pure gone
  counters_read slot (some hw) = do
    let pid = slot.state.pid
    ctx ← look b k sys (ebpf_tracer_read_switches b et pid)
    io_wait ← look b k sys (ebpf_tracer_read_io_wait_ns b et pid)
    rq_wait ← look b k sys (ebpf_tracer_read_rq_wait_ns b et pid)
    accept slot (record { hw = hw; ctx = ctx; io_wait_ns = io_wait; rq_wait_ns = rq_wait })

  unfoldable pub sample : Slot F → M State (Sampled F)
  unfolding counters_read read_counters
  sample slot = do hw ← read_counters b k sys slot.perf; counters_read slot hw

-- ===== src/Daemon/Deltas.antt =====
-- What a slot's readings change from one sample to the next (src/schedmon.c: the body of the loop over
-- the slots in run_sampling_loop).
pub mod Bounds
pub mod Switches
mod Tests
use capstone_monitor.Prelude.{
  ℕ, ◌+◌, ◌-◌, ◌*◌, ◌%◌, ◌^◌, List, Bool, true, false, not, ◌&&◌, ◌||◌, Option, none, some,
  if◌then◌else◌, ◌==◌, ltb, leb,
}
use capstone_monitor.Prelude.Int.{ℤ, pos, negsuc, eq_ℤ}
use capstone_monitor.Double.{Double}
use capstone_monitor.Metrics.{SmoothedMetrics}
use capstone_monitor.Window.{sw_push, sw_mean}
use capstone_monitor.BpfMap.{BpfMaps}
use capstone_monitor.Bpf.{sub64, rq_wait_limit, io_wait_limit}
use capstone_monitor.Perf.{Kernel, RawCounters, is_fd}
use capstone_monitor.Tracer.{
  EbpfTracer, ebpf_tracer_read_switches, ebpf_tracer_read_io, ebpf_tracer_read_io_wait_ns,
  ebpf_tracer_read_rq_wait_ns, ebpf_tracer_read_last_cpu,
}
use capstone_monitor.ProcIo.{proc_io_read_fail}
use capstone_monitor.Daemon.{PidState, Slot, System}
use capstone_monitor.Daemon.Monad.{M, pure, ◌>>=◌, ◌>>◌, look, read_counters}

-- The readings of one round.
pub record Reading : Type 0 where
  pub hw : RawCounters
  pub ctx : ℕ
  pub io_wait_ns : ℕ
  pub rq_wait_ns : ℕ

-- Some counter of the BPF programs or the cycle counter went backwards.
unfoldable pub went_back : PidState → Reading → Bool
went_back st r =
    (ltb r.ctx st.prev_ctx
      || ltb r.io_wait_ns st.prev_io_wait_ns
      || ltb r.rq_wait_ns st.prev_rq_wait_ns)
    || ltb r.hw.cycles st.prev_cycles

-- Then the baselines are set anew and the interval is skipped.
unfoldable pub rebase : PidState → Reading → PidState
rebase st r = record st {
  prev_ctx = r.ctx;
  prev_io_wait_ns = r.io_wait_ns;
  prev_rq_wait_ns = r.rq_wait_ns;
  prev_cycles = r.hw.cycles;
  prev_instructions = r.hw.instr;
  prev_llc = r.hw.llc_misses;
}

-- `if (d > n * limit) d = n * limit;` with the product as a uint64_t
unfoldable pub clamp : (limit n d : ℕ) → ℕ
clamp limit n d = let most = (n * limit) % 2 ^ 64 in if ltb most d then most else d

-- A difference that counts as 0 when the counter went backwards.
unfoldable pub forward : (cur prev : ℕ) → ℕ
forward cur prev = if leb prev cur then cur - prev else 0

-- What /proc/<pid>/io gives in this round: the descriptor, the two totals, and whether the baselines
-- are set to them.
pub record IoReading : Type 0 where
  pub fd : ℤ
  pub proc : ℕ
  pub syscall_bytes : ℕ
  pub fresh : Bool

-- The differences of one interval.
pub record Deltas : Type 0 where
  pub cycles : ℕ
  pub instr : ℕ
  pub llc : ℕ
  pub ctx : ℕ
  pub rq_wait_ns : ℕ
  pub io_proc : ℕ
  pub io_syscall : ℕ
  pub io_wait_ns : ℕ
  pub io_for_wait : ℕ

unfoldable pub deltas : PidState → Reading → IoReading → (cur_io : ℕ) → Deltas
unfolding clamp forward
deltas st r io cur_io =
    let ctx = sub64 r.ctx st.prev_ctx in
    let requests = sub64 cur_io st.prev_io_count in
    record {
      cycles = sub64 r.hw.cycles st.prev_cycles;
      instr = sub64 r.hw.instr st.prev_instructions;
      llc = sub64 r.hw.llc_misses st.prev_llc;
      ctx = ctx;
      rq_wait_ns = clamp rq_wait_limit ctx (sub64 r.rq_wait_ns st.prev_rq_wait_ns);
      io_proc = forward io.proc (if io.fresh then io.proc else st.prev_io_proc);
      io_syscall =
          forward io.syscall_bytes (if io.fresh then io.syscall_bytes else st.prev_io_syscall);
      io_wait_ns = clamp io_wait_limit requests (sub64 r.io_wait_ns st.prev_io_wait_ns);
      io_for_wait = requests;
    }

-- The baselines of the next interval, before the CPU is looked at.
unfoldable pub advance : PidState → Reading → IoReading → (cur_io : ℕ) → PidState
advance st r io cur_io = record st {
  io_fd = io.fd;
  prev_cycles = r.hw.cycles;
  prev_instructions = r.hw.instr;
  prev_llc = r.hw.llc_misses;
  prev_ctx = r.ctx;
  prev_io_proc = io.proc;
  prev_io_syscall = io.syscall_bytes;
  prev_io = cur_io;
  prev_io_wait_ns = r.io_wait_ns;
  prev_io_count = cur_io;
  prev_rq_wait_ns = r.rq_wait_ns;
}

-- The count of moves to another CPU, a uint32_t.
unfoldable pub count_migration : PidState → (cur_cpu_id : ℤ) → ℕ
count_migration st cur =
    if is_fd cur && is_fd st.prev_cpu_id && not (eq_ℤ cur st.prev_cpu_id)
    then (st.migration_count + 1) % 2 ^ 32
    else st.migration_count

unfoldable pub end_migration : PidState → (cur_cpu_id : ℤ) → PidState
end_migration st cur = record st { prev_cpu_id = cur; migration_count = 0 }

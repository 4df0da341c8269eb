-- ===== src/Daemon.antt =====
-- The daemon's data (src/schedmon.h, the globals of src/schedmon.c) and what it asks of the system.
-- The parallel arrays g_states, g_win_ipc, ..., g_comm are one list of slots, `[0 .. g_n_active)`: what
-- lies behind it is never read before `add_pid` clears it.
pub mod Monad
pub mod Slots
pub mod Scan
pub mod Sync
pub mod Deltas
pub mod Sample
pub mod Ticks
pub mod Options
pub mod Start
pub mod Main
pub mod Small
mod Tests
use capstone_monitor.Prelude.{ℕ, List, Bool, Option}
use capstone_monitor.Prelude.Int.{ℤ}
use capstone_monitor.Metrics.{SmoothedMetrics}
use capstone_monitor.Window.{SlidingWindow}
use capstone_monitor.BpfMap.{BpfMaps}
use capstone_monitor.Bpf.{Maps}
use capstone_monitor.Perf.{Kernel, PerfCounter, Opened}

abbrev pub max_pids : ℕ
max_pids = 256

pub record PidState : Type 0 where
  pub pid : ℕ
  pub active : ℕ
  pub io_fd : ℤ
  pub prev_cpu_id : ℤ
  pub migration_count : ℕ
  pub prev_cycles : ℕ
  pub prev_instructions : ℕ
  pub prev_llc : ℕ
  pub prev_ctx : ℕ
  pub prev_io_proc : ℕ
  pub prev_io_syscall : ℕ
  pub prev_io : ℕ
  pub prev_io_wait_ns : ℕ
  pub prev_rq_wait_ns : ℕ
  pub prev_io_count : ℕ

-- What the arrays hold at one index. `comm` is the bytes that were written to g_comm[i].
pub record Slot (F : Type 0) : Type 0 where
  pub state : PidState
  pub win_ipc : SlidingWindow F
  pub win_llc : SlidingWindow F
  pub win_ctx : SlidingWindow F
  pub win_io : SlidingWindow F
  pub win_io_wait : SlidingWindow F
  pub win_rq_wait : SlidingWindow F
  pub win_migration : SlidingWindow F
  pub win_io_syscall : SlidingWindow F
  pub perf : PerfCounter
  pub last_sm : SmoothedMetrics F
  pub last_sm_updated_ns : ℕ
  pub last_sm_valid : Bool
  pub comm : List ℕ

-- The files that the daemon opens below /proc/<pid>.
pub data ProcFile : Type 0 where
  io comm stat status : ProcFile

-- The rest of the system, beside the calls for performance counters: the BPF maps, which the handlers
-- change at any time (`later` is what happens until the next call), the files, the processes, and what
-- a local buffer holds before it is written.
pub record System (b : BpfMaps) (k : Kernel) : Type 0 where
  pub maps : k.State → Maps b
  pub put_maps : Maps b → k.State → k.State
  pub later : k.State → k.State
  pub open_proc : ProcFile → (pid : ℕ) → k.State → Opened × k.State
  -- opendir("/proc")
  pub open_dir : k.State → Opened × k.State
  -- up to `size` bytes from the start of the file, `none` on an error
  pub read_proc : (fd : ℤ) → (size : ℕ) → k.State → Option (List ℕ) × k.State
  -- whether kill(pid, 0) fails with ESRCH
  pub is_gone : (pid : ℕ) → k.State → Bool
  pub stack : k.State → List ℕ

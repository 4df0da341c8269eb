-- ===== src/Daemon/Slots.antt =====
-- The table of slots (src/schedmon.c: find_slot, add_pid, remove_slot, and the readers of /proc files
-- that they call). The counts of failed and successful opens, which only thin out a message, and the
-- messages are left out.
pub mod Table
pub mod Members
pub mod Valid
pub mod Descriptors
pub mod Ownership
use capstone_monitor.Prelude.{
  ℕ, zero, suc, ◌+◌, ◌-◌, List, [], ◌∷◌, ◌++◌, Bool, true, false, Option, none, some, if◌then◌else◌,
  ◌==◌, leb, length, take, set, get_elem?,
}
use capstone_monitor.Prelude.Int.{ℤ, pos, negsuc, eq_ℤ}
use capstone_monitor.Double.{Double}
use capstone_monitor.Metrics.{zero_metrics}
use capstone_monitor.Window.{SlidingWindow, sw_init}
use capstone_monitor.BpfMap.{BpfMaps}
use capstone_monitor.Perf.{
  Kernel, PerfCounter, RawCounters, OpenResult, Opened, opened, refused, is_fd, close_fd,
  perf_counter_open, perf_counter_close,
}
use capstone_monitor.Tracer.{
  EbpfTracer, ebpf_tracer_read_switches, ebpf_tracer_read_io, ebpf_tracer_read_io_wait_ns,
  ebpf_tracer_read_rq_wait_ns, ebpf_tracer_register_pid, ebpf_tracer_unregister_pid,
  ebpf_tracer_pop_exec_comm,
}
use capstone_monitor.ProcIo.{proc_io_read_fail, read_proc_io_fd}
use capstone_monitor.Daemon.{PidState, Slot, System, ProcFile, max_pids}
use capstone_monitor.Daemon.Monad.{M, pure, ◌>>=◌, ◌>>◌, look, change, read_counters}

-- The bytes of g_comm[i] after a read of `n` bytes: a newline at the end gives way to the NUL.
unfoldable pub end_comm : List ℕ → List ℕ
end_comm [] = 0 ∷ []
end_comm (c ∷ []) = if c == b'\n' then 0 ∷ [] else c ∷ 0 ∷ []
end_comm (c ∷ d ∷ cs) = c ∷ end_comm (d ∷ cs)

unfoldable pub comm_read : Option (List ℕ) → List ℕ
unfolding end_comm
comm_read none = 0 ∷ []
comm_read (some cs) = end_comm cs

-- What add_pid leaves at prev_cycles and its kin when the read fails, since it cleared them.
unfoldable pub seed_cycles : Option RawCounters → ℕ
seed_cycles none = 0
seed_cycles (some r) = r.cycles

unfoldable pub seed_instructions : Option RawCounters → ℕ
seed_instructions none = 0
seed_instructions (some r) = r.instr

unfoldable pub seed_llc : Option RawCounters → ℕ
seed_llc none = 0
seed_llc (some r) = r.llc_misses

-- The baselines of /proc/<pid>/io, 0 when it could not be read.
unfoldable pub seed_io : (fd : ℤ) → (total syscall_bytes : ℕ) → ℕ × ℕ
seed_io fd total syscall_bytes =
    if is_fd fd
    then (if total == proc_io_read_fail then (0, 0) else (total, syscall_bytes))
    else (0, 0)

module _ {F : Type 0} where
  -- The first slot from index `i` on whose process is `pid`; `none` is the result -1.
  unfoldable pub find_from : (i pid : ℕ) → List (Slot F) → Option ℕ
  find_from i pid [] = none
  find_from i pid (x ∷ xs) = if x.state.pid == pid then some i else find_from (i + 1) pid xs

  unfoldable pub find_slot : (pid : ℕ) → List (Slot F) → Option ℕ
  unfolding find_from
  find_slot pid slots = find_from 0 pid slots

  -- `g_states[i] = g_states[last]` and the other thirteen assignments of remove_slot.
  unfoldable pub copy_slot : Slot F → Slot F → Slot F
  copy_slot to from = record to {
    state = from.state;
    win_ipc = from.win_ipc;
    win_llc = from.win_llc;
    win_ctx = from.win_ctx;
    win_io = from.win_io;
    win_io_wait = from.win_io_wait;
    win_rq_wait = from.win_rq_wait;
    win_migration = from.win_migration;
    win_io_syscall = from.win_io_syscall;
    perf = from.perf;
    last_sm = from.last_sm;
    last_sm_valid = from.last_sm_valid;
    last_sm_updated_ns = from.last_sm_updated_ns;
    comm = from.comm;
  }

  unfoldable pub move_last :
      (i last : ℕ) → List (Slot F) → Option (Slot F) → Option (Slot F) → List (Slot F)
  unfolding copy_slot
  move_last i last slots (some to) (some from) =
      if i == last then slots else set slots i (copy_slot to from)
  move_last i last slots _ _ = slots

  -- The last slot takes the place of slot `i`, and `g_n_active` goes down by one.
  unfoldable pub swap_out : (i : ℕ) → List (Slot F) → List (Slot F)
  unfolding move_last
  swap_out i slots =
      let last = length slots - 1 in
      take last (move_last i last slots (get_elem? slots i) (get_elem? slots last))

-- The return value of open.
unfoldable pub fd_of : Opened → ℤ
fd_of (opened fd) = pos fd
fd_of (refused e) = negsuc 0

module _ (b : BpfMaps) (k : Kernel) (sys : System b k) where
  open k use {State}

  unfoldable pub open_proc_io_fd : (pid : ℕ) → M State ℤ
  unfolding fd_of
  open_proc_io_fd pid = do r ← sys.open_proc ProcFile.io pid; pure (fd_of r)

  -- read_proc_io_fd with the read that it makes; `old` is what *out_syscall_bytes holds before.
  unfoldable pub read_io : (fd : ℤ) → (old : ℕ) → M State (ℕ × ℕ)
  read_io fd old s =
      if is_fd fd
      then (do file ← sys.read_proc fd 511; pure (read_proc_io_fd file old)) s
      else (read_proc_io_fd none old, s)

  unfoldable pub comm_opened : Opened → M State (List ℕ)
  unfolding comm_read
  comm_opened (refused e) = pure (0 ∷ [])
  comm_opened (opened fd) = do
    text ← sys.read_proc (pos fd) 16
    λ s. (tt, k.close (pos fd) s)
    pure (comm_read text)

  -- read_proc_comm(pid, g_comm[i], 17)
  unfoldable pub read_proc_comm : (pid : ℕ) → M State (List ℕ)
  unfolding comm_opened
  read_proc_comm pid = do r ← sys.open_proc ProcFile.comm pid; comm_opened r

  unfoldable pub comm_popped : (pid : ℕ) → Option (List ℕ) → M State (List ℕ)
  unfolding read_proc_comm
  comm_popped pid none = read_proc_comm pid
  comm_popped pid (some bytes) = pure bytes

  unfoldable pub first_comm : EbpfTracer → (pid : ℕ) → M State (List ℕ)
  unfolding comm_popped change
  first_comm et pid = do
    popped ← change b k sys (ebpf_tracer_pop_exec_comm b et pid 17)
    comm_popped pid popped

module _ (b : BpfMaps) (k : Kernel) (sys : System b k) (d : Double) where
  open k use {State}
  open d use {F, zero as fzero}

  -- The slot that add_pid fills once the counters of the process are open.
  unfoldable pub fill_slot : EbpfTracer → (pid : ℕ) → PerfCounter → M State (Slot F)
  unfolding look change read_counters open_proc_io_fd read_io first_comm
  fill_slot et pid pc = do
    seed ← read_counters b k sys pc
    ctx ← look b k sys (ebpf_tracer_read_switches b et pid)
    io ← look b k sys (ebpf_tracer_read_io b et pid)
    io_wait ← look b k sys (ebpf_tracer_read_io_wait_ns b et pid)
    rq_wait ← look b k sys (ebpf_tracer_read_rq_wait_ns b et pid)
    fd ← open_proc_io_fd b k sys pid
    totals ← read_io b k sys fd 0
    name ← first_comm b k sys et pid
    change b k sys (λ ms. (tt, ebpf_tracer_register_pid b et pid ms))
    let seeds = seed_io fd totals.0 totals.1
    pure (record {
      state = record {
        pid = pid;
        active = 1;
        io_fd = fd;
        prev_cpu_id = negsuc 0;
        migration_count = 0;
        prev_cycles = seed_cycles seed;
        prev_instructions = seed_instructions seed;
        prev_llc = seed_llc seed;
        prev_ctx = ctx;
        prev_io_proc = seeds.0;
        prev_io_syscall = seeds.1;
        prev_io = io;
        prev_io_wait_ns = io_wait;
        prev_rq_wait_ns = rq_wait;
        prev_io_count = io;
      };
      win_ipc = sw_init d;
      win_llc = sw_init d;
      win_ctx = sw_init d;
      win_io = sw_init d;
      win_io_wait = sw_init d;
      win_rq_wait = sw_init d;
      win_migration = sw_init d;
      win_io_syscall = sw_init d;
      perf = pc;
      last_sm = zero_metrics fzero;
      last_sm_updated_ns = 0;
      last_sm_valid = false;
      comm = name;
    })

  -- After perf_counter_open. The result -1 is `none`.
  unfoldable pub counters_opened :
      EbpfTracer → (pid : ℕ) → List (Slot F) → OpenResult State → (Option ℕ × List (Slot F)) × State
  unfolding fill_slot
  counters_opened et pid slots r =
      if eq_ℤ r.ret (pos 0)
      then (do x ← fill_slot et pid r.counter; pure (some (length slots), slots ++ x ∷ [])) r.kernel
      else ((none, slots), (perf_counter_close k r.counter r.kernel).1)

  unfoldable pub add_pid :
      EbpfTracer → (pid : ℕ) → List (Slot F) → M State (Option ℕ × List (Slot F))
  unfolding counters_opened
  add_pid et pid slots s =
      if leb max_pids (length slots)
      then ((none, slots), s)
      else counters_opened et pid slots (perf_counter_open k pid (negsuc 0) s)

module _ (b : BpfMaps) (k : Kernel) (sys : System b k) {F : Type 0} where
  open k use {State}

  unfoldable pub remove_found :
      EbpfTracer → (i : ℕ) → List (Slot F) → Option (Slot F) → M State (List (Slot F))
  unfolding change close_fd swap_out
  remove_found et i slots none = pure slots
  remove_found et i slots (some x) = do
    change b k sys (λ ms. (tt, ebpf_tracer_unregister_pid b et x.state.pid ms))
    λ s. (tt, close_fd k x.state.io_fd s)
    _ ← perf_counter_close k x.perf
    pure (swap_out i slots)

  -- The index is always that of a slot; `remove_found` says what else would happen.
  unfoldable pub remove_slot : EbpfTracer → (i : ℕ) → List (Slot F) → M State (List (Slot F))
  unfolding remove_found
  remove_slot et i slots = remove_found et i slots (get_elem? slots i)

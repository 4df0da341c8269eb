-- ===== src/Bpf.antt =====
-- The BPF programs (bpf/ctx_switch.bpf.c): one function for each tracepoint handler, over the maps
-- that the file declares. What the helpers return (the time, the CPU, the current process and its
-- name) is an argument of the handler that asks for it.
pub mod MapFacts
pub mod Exit
pub mod Switches
pub mod Block
pub mod Frame
pub mod RunQueue
mod Tests
use capstone_monitor.Prelude.{
  ℕ, ◌+◌, ◌-◌, ◌%◌, ◌^◌, List, [], ◌∷◌, Bool, true, false, not, ◌&&◌, ◌||◌, Option, none, some,
  if◌then◌else◌, ◌==◌, ltb, leb,
}
use capstone_monitor.BpfMap.{BpfMaps}

-- `__u64` sums and differences
abbrev pub add64 : ℕ → ℕ → ℕ
add64 a b = (a + b) % 2 ^ 64

abbrev pub sub64 : ℕ → ℕ → ℕ
sub64 a b = (a + 2 ^ 64 - b) % 2 ^ 64

-- the longest waits that are believed, in nanoseconds
abbrev pub rq_wait_limit : ℕ
rq_wait_limit = 10000000000

abbrev pub io_wait_limit : ℕ
io_wait_limit = 30000000000

pub record BioInfo : Type 0 where
  pub issue_ts : ℕ
  pub pid : ℕ

-- The fields of the tracepoint arguments that the handlers read.
pub record SchedSwitchArgs : Type 0 where
  pub prev_pid : ℕ
  pub prev_state : ℕ
  pub next_pid : ℕ

pub record SchedExitArgs : Type 0 where
  pub pid : ℕ
  pub group_dead : ℕ

module _ (b : BpfMaps) where
  open b use {Map, lookup, update, update_noexist, delete}

  pub record Maps : Type 0 where
    pub vol_ctx_switch : Map ℕ
    pub active_pids : Map ℕ
    pub io_counts : Map ℕ
    pub io_wait_ns : Map ℕ
    pub rq_enqueue_ts : Map ℕ
    pub rq_wait_ns : Map ℕ
    pub exec_comms : Map (List ℕ)
    pub pid_last_cpu : Map ℕ
    pub bio_inflight : Map BioInfo

  -- `__atomic_fetch_add` through the pointer that a lookup found, or an insertion where it found none.
  -- A write through the pointer is an update of a key that is there.
  pub accumulate : Map ℕ → ℕ → ℕ → Map ℕ
  accumulate m k n = elim (lookup m k) [ none ↦ update m k n | some v ↦ update m k (add64 v n) ]

  -- `if (pid > 1) pid_last_cpu[pid] = cpu;`
  pub note_cpu : ℕ → ℕ → Maps → Maps
  note_cpu pid cpu ms =
      if ltb 1 pid then record ms { pid_last_cpu = update ms.pid_last_cpu pid cpu } else ms

  -- A process that leaves the CPU in a state other than runnable has given it up.
  pub count_switch : SchedSwitchArgs → Maps → Maps
  count_switch ctx ms =
      if not (ctx.prev_pid == 0) && not (ctx.prev_state == 0)
      then record ms { vol_ctx_switch = accumulate ms.vol_ctx_switch ctx.prev_pid 1 }
      else ms

  -- `found` is the time at which `next_pid` was put on the run queue; 0 is no such time.
  pub end_wait : (found : Option ℕ) → (now next_pid : ℕ) → Maps → Maps
  end_wait none now next_pid ms = ms
  end_wait (some ts) now next_pid ms =
      if ltb 0 ts
      then record ms {
        rq_wait_ns =
            if ltb (sub64 now ts) rq_wait_limit
            then accumulate ms.rq_wait_ns next_pid (sub64 now ts)
            else ms.rq_wait_ns;
        rq_enqueue_ts = update ms.rq_enqueue_ts next_pid 0;
      }
      else ms

  pub handle_sched_switch : (now cpu : ℕ) → SchedSwitchArgs → Maps → Maps
  unfolding accumulate note_cpu count_switch end_wait
  handle_sched_switch now cpu ctx ms =
      let ms' = count_switch ctx (note_cpu ctx.next_pid cpu (note_cpu ctx.prev_pid cpu ms)) in
      if ctx.next_pid == 0
      then ms'
      else end_wait (lookup ms'.rq_enqueue_ts ctx.next_pid) now ctx.next_pid ms'

  pub handle_sched_wakeup : (now pid : ℕ) → Maps → Maps
  handle_sched_wakeup now pid ms =
      if leb pid 1 then ms else record ms { rq_enqueue_ts = update ms.rq_enqueue_ts pid now }

  pub handle_fork : (child_pid : ℕ) → Maps → Maps
  handle_fork child_pid ms = if leb child_pid 1 then ms else record ms {
    active_pids = update ms.active_pids child_pid 1;
    vol_ctx_switch = update_noexist ms.vol_ctx_switch child_pid 0;
    io_counts = update_noexist ms.io_counts child_pid 0;
    io_wait_ns = update_noexist ms.io_wait_ns child_pid 0;
    rq_wait_ns = update_noexist ms.rq_wait_ns child_pid 0;
  }

  pub handle_exit : SchedExitArgs → Maps → Maps
  handle_exit ctx ms = if leb ctx.pid 1 || ctx.group_dead == 0 then ms else record ms {
    active_pids = delete ms.active_pids ctx.pid;
    vol_ctx_switch = delete ms.vol_ctx_switch ctx.pid;
    io_counts = delete ms.io_counts ctx.pid;
    io_wait_ns = delete ms.io_wait_ns ctx.pid;
    rq_enqueue_ts = delete ms.rq_enqueue_ts ctx.pid;
    rq_wait_ns = delete ms.rq_wait_ns ctx.pid;
    exec_comms = delete ms.exec_comms ctx.pid;
    pid_last_cpu = delete ms.pid_last_cpu ctx.pid;
  }

  -- `pid` and `comm` are those of the current process.
  unfoldable pub handle_exec : (pid : ℕ) → (comm : List ℕ) → Maps → Maps
  handle_exec pid comm ms = if leb pid 1 then ms else record ms {
    exec_comms = update ms.exec_comms pid comm;
    active_pids = update_noexist ms.active_pids pid 1;
  }

  unfoldable pub handle_block_rq_issue : (now pid rq_ptr : ℕ) → Maps → Maps
  handle_block_rq_issue now pid rq_ptr ms = if leb pid 1 then ms else record ms {
    bio_inflight = update ms.bio_inflight rq_ptr (record { issue_ts = now; pid = pid });
  }

  -- What a completed request adds to the counters of a process that is watched.
  charge_io : (now : ℕ) → BioInfo → Maps → Maps
  charge_io now info ms = record ms {
    io_counts = accumulate ms.io_counts info.pid 1;
    io_wait_ns =
        if ltb 0 info.issue_ts && ltb (sub64 now info.issue_ts) io_wait_limit
        then accumulate ms.io_wait_ns info.pid (sub64 now info.issue_ts)
        else ms.io_wait_ns;
  }

  finish_io : (found : Option BioInfo) → (now rq_ptr : ℕ) → Maps → Maps
  unfolding charge_io
  finish_io none now rq_ptr ms = ms
  finish_io (some info) now rq_ptr ms =
      let ms' = record ms { bio_inflight = delete ms.bio_inflight rq_ptr } in
      elim (lookup ms'.active_pids info.pid) [ none ↦ ms' | some w ↦ charge_io now info ms' ]

  pub handle_block_rq_complete : (now rq_ptr : ℕ) → Maps → Maps
  unfolding accumulate finish_io
  handle_block_rq_complete now rq_ptr ms = finish_io (lookup ms.bio_inflight rq_ptr) now rq_ptr ms

-- A tracepoint that fires, with what its handler reads.
pub data Event : Type 0 where
  sched_switch : (now cpu : ℕ) → SchedSwitchArgs → Event
  sched_wakeup : (now pid : ℕ) → Event
  fork : (child_pid : ℕ) → Event
  exit : SchedExitArgs → Event
  exec : (pid : ℕ) → (comm : List ℕ) → Event
  block_rq_issue : (now pid rq_ptr : ℕ) → Event
  block_rq_complete : (now rq_ptr : ℕ) → Event

module _ (b : BpfMaps) where
  pub handle : Event → Maps b → Maps b
  handle (sched_switch now cpu ctx) ms = handle_sched_switch b now cpu ctx ms
  handle (sched_wakeup now pid) ms = handle_sched_wakeup b now pid ms
  handle (fork child) ms = handle_fork b child ms
  handle (exit ctx) ms = handle_exit b ctx ms
  handle (exec pid comm) ms = handle_exec b pid comm ms
  handle (block_rq_issue now pid rq) ms = handle_block_rq_issue b now pid rq ms
  handle (block_rq_complete now rq) ms = handle_block_rq_complete b now rq ms

  pub handle_all : List Event → Maps b → Maps b
  handle_all [] ms = ms
  handle_all (e ∷ es) ms = handle_all es (handle e ms)

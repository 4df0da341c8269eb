-- ===== src/Bpf/Exit.antt =====
-- What the exit handler removes, and what comes back after it.
use capstone_monitor.Prelude.{ℕ, ◌≡◌, ◌≢◌, ◌<◌, ◌∙◌, refl, ap, Option, none, some, arith}
use capstone_monitor.BpfMap.{BpfMaps, MapLaws}
use capstone_monitor.Bpf.{
  Maps, SchedSwitchArgs, SchedExitArgs, handle_sched_switch, handle_exit, note_cpu, count_switch,
  end_wait,
}
use capstone_monitor.Bpf.MapFacts.{accumulate-delete}

module _ (b : BpfMaps) where
  -- No map that is keyed by process has an entry for `p`.
  pub record IsGone (p : ℕ) (ms : Maps b) : Type 0 where
    pub no_switches : b.lookup ms.vol_ctx_switch p ≡ none
    pub not_active : b.lookup ms.active_pids p ≡ none
    pub no_io : b.lookup ms.io_counts p ≡ none
    pub no_io_wait : b.lookup ms.io_wait_ns p ≡ none
    pub no_enqueue : b.lookup ms.rq_enqueue_ts p ≡ none
    pub no_rq_wait : b.lookup ms.rq_wait_ns p ≡ none
    pub no_comm : b.lookup ms.exec_comms p ≡ none
    pub no_cpu : b.lookup ms.pid_last_cpu p ≡ none

module _ (b : BpfMaps) (laws : MapLaws b) where
  -- When the last thread of a process exits, its entries are removed from all eight maps.
  exit_removes_all :
      (ctx : SchedExitArgs) (ms : Maps b)
      → 1 < ctx.pid
      → ctx.group_dead ≢ 0
      → IsGone b ctx.pid (handle_exit b ctx ms)
  unfolding handle_exit
  exit_removes_all ctx ms h g = ground (
    arith,
    laws.lookup-delete ms.active_pids ctx.pid ctx.pid,
    laws.lookup-delete ms.vol_ctx_switch ctx.pid ctx.pid,
    laws.lookup-delete ms.io_counts ctx.pid ctx.pid,
    laws.lookup-delete ms.io_wait_ns ctx.pid ctx.pid,
    laws.lookup-delete ms.rq_enqueue_ts ctx.pid ctx.pid,
    laws.lookup-delete ms.rq_wait_ns ctx.pid ctx.pid,
    laws.lookup-delete ms.exec_comms ctx.pid ctx.pid,
    laws.lookup-delete ms.pid_last_cpu ctx.pid ctx.pid,
  )

  end_wait-vol_ctx_switch :
      (found : Option ℕ) (now pid : ℕ) (ms : Maps b)
      → (end_wait b found now pid ms).vol_ctx_switch ≡ ms.vol_ctx_switch
  unfolding end_wait
  end_wait-vol_ctx_switch none now pid ms = refl
  end_wait-vol_ctx_switch (some ts) now pid ms = ground arith

  note_cpu-vol_ctx_switch :
      (pid cpu : ℕ) (ms : Maps b) → (note_cpu b pid cpu ms).vol_ctx_switch ≡ ms.vol_ctx_switch
  unfolding note_cpu
  note_cpu-vol_ctx_switch pid cpu ms = ground arith

  -- A context switch touches the map of switches by its counting step alone.
  pub sched_switch-vol_ctx_switch :
      (now cpu : ℕ) (ctx : SchedSwitchArgs) (ms : Maps b)
      → (handle_sched_switch b now cpu ctx ms).vol_ctx_switch
        ≡ (count_switch b ctx ms).vol_ctx_switch
  unfolding handle_sched_switch
  sched_switch-vol_ctx_switch now cpu ctx ms =
      let m1 = note_cpu b ctx.prev_pid cpu ms in
      let m2 = note_cpu b ctx.next_pid cpu m1 in
      let m3 = count_switch b ctx m2 in
      ground (
        arith,
        end_wait-vol_ctx_switch (b.lookup m3.rq_enqueue_ts ctx.next_pid) now ctx.next_pid m3,
        note_cpu-vol_ctx_switch ctx.prev_pid cpu ms,
        note_cpu-vol_ctx_switch ctx.next_pid cpu m1,
      )

  -- A process that had a counter of context switches when it exited has one again as soon as it is
  -- switched out for the last time in a state other than runnable: the exit handler's removal does
  -- not last.
  pub last_switch_brings_entry_back :
      (now cpu : ℕ) (gone : SchedExitArgs) (ctx : SchedSwitchArgs) (ms : Maps b) {v : ℕ}
      → 1 < gone.pid
      → gone.group_dead ≢ 0
      → ctx.prev_pid ≡ gone.pid
      → ctx.prev_state ≢ 0
      → b.lookup ms.vol_ctx_switch gone.pid ≡ some v
      → b.lookup (handle_sched_switch b now cpu ctx (handle_exit b gone ms)).vol_ctx_switch gone.pid
        ≡ some 1
  unfolding count_switch handle_exit
  last_switch_brings_entry_back now cpu gone ctx ms h g e s found =
      ap (λ m. b.lookup m gone.pid)
        (sched_switch-vol_ctx_switch now cpu ctx (handle_exit b gone ms))
      ∙ counted
    where
      counted :
          b.lookup (count_switch b ctx (handle_exit b gone ms)).vol_ctx_switch gone.pid ≡ some 1
      counted =
          rw (count_switch, e)
            (ground (arith, accumulate-delete b laws ms.vol_ctx_switch gone.pid 1 found))

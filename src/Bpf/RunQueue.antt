-- ===== src/Bpf/RunQueue.antt =====
-- The time that a process waits on the run queue.
use capstone_monitor.Prelude.{
  ℕ, ◌-◌, ◌^◌, ◌<◌, ◌≤◌, ◌≡◌, ◌≢◌, ◌∙◌, ap, ap₂, List, false, some, if◌then◌else◌, ◌==◌, arith, ltb,
}
use capstone_monitor.BpfMap.{BpfMaps, MapLaws}
use capstone_monitor.Bpf.{
  Maps, add64, sub64, rq_wait_limit, SchedSwitchArgs, Event, handle_all, handle_sched_switch,
  handle_sched_wakeup, note_cpu, count_switch, end_wait,
}
use capstone_monitor.Bpf.MapFacts.{update-present, accumulate_self}
use capstone_monitor.Bpf.Frame.{SparesAll, SameEntries, other_processes_do_not_interfere}

module _ (b : BpfMaps) (laws : MapLaws b) where
  note_cpu-waits :
      (pid cpu : ℕ) (ms : Maps b)
      → ((note_cpu b pid cpu ms).rq_wait_ns ≡ ms.rq_wait_ns)
        × ((note_cpu b pid cpu ms).rq_enqueue_ts ≡ ms.rq_enqueue_ts)
  unfolding note_cpu
  note_cpu-waits pid cpu ms = ground arith

  count_switch-waits :
      (ctx : SchedSwitchArgs) (ms : Maps b)
      → ((count_switch b ctx ms).rq_wait_ns ≡ ms.rq_wait_ns)
        × ((count_switch b ctx ms).rq_enqueue_ts ≡ ms.rq_enqueue_ts)
  unfolding count_switch
  count_switch-waits ctx ms = ground arith

  -- the state in which the handler of a context switch comes to the wait
  abbrev before_wait : ℕ → SchedSwitchArgs → Maps b → Maps b
  before_wait cpu ctx ms =
      count_switch b ctx (note_cpu b ctx.next_pid cpu (note_cpu b ctx.prev_pid cpu ms))

  before_wait-waits :
      (cpu : ℕ) (ctx : SchedSwitchArgs) (ms : Maps b)
      → ((before_wait cpu ctx ms).rq_wait_ns ≡ ms.rq_wait_ns)
        × ((before_wait cpu ctx ms).rq_enqueue_ts ≡ ms.rq_enqueue_ts)
  before_wait-waits cpu ctx ms =
      let m1 = note_cpu b ctx.prev_pid cpu ms in
      let one = note_cpu-waits ctx.prev_pid cpu ms in
      let two = note_cpu-waits ctx.next_pid cpu m1 in
      let three = count_switch-waits ctx (note_cpu b ctx.next_pid cpu m1) in
      (three.0 ∙ two.0 ∙ one.0, three.1 ∙ two.1 ∙ one.1)

  switch_in :
      (now cpu : ℕ) (ctx : SchedSwitchArgs) (ms : Maps b) {p ts : ℕ}
      → ctx.next_pid ≡ p
      → p ≢ 0
      → b.lookup (before_wait cpu ctx ms).rq_enqueue_ts p ≡ some ts
      → handle_sched_switch b now cpu ctx ms ≡ end_wait b (some ts) now p (before_wait cpu ctx ms)
  unfolding handle_sched_switch
  switch_in now cpu ctx ms {p} {ts} e ne found =
      let busy : (ctx.next_pid == 0) ≡ false = ground arith in
      rw busy (
        ap₂ (λ o q. end_wait b o now q (before_wait cpu ctx ms))
          (ap (b.lookup (before_wait cpu ctx ms).rq_enqueue_ts) e ∙ found) e)

  ended :
      (now p : ℕ) (ms : Maps b) {ts acc : ℕ}
      → 0 < ts
      → ts ≤ now
      → now < 2 ^ 64
      → b.lookup ms.rq_enqueue_ts p ≡ some ts
      → b.lookup ms.rq_wait_ns p ≡ some acc
      → (b.lookup (end_wait b (some ts) now p ms).rq_wait_ns p
          ≡ some (if ltb (now - ts) rq_wait_limit then add64 acc (now - ts) else acc))
        × (b.lookup (end_wait b (some ts) now p ms).rq_enqueue_ts p ≡ some 0)
  unfolding end_wait
  ended now p ms {ts} pos le lt queued waited =
      let d : sub64 now ts ≡ now - ts = omega arith in
      ground (
        arith,
        d,
        accumulate_self b laws ms.rq_wait_ns p (sub64 now ts) waited,
        update-present b laws ms.rq_enqueue_ts p 0 queued p,
      )

  -- A process is woken at time `t0` and switched in at `t1`, with any events of other processes in
  -- between. If its entries are there, the wait `t1 - t0` is added to its total when it is shorter
  -- than ten seconds, and the total stays when it is not; either way the time of the wakeup is
  -- cleared, so the next switch does not count it again.
  pub wait_is_measured :
      (t0 t1 cpu p : ℕ) (es : List Event) (ctx : SchedSwitchArgs) (ms : Maps b) {old acc : ℕ}
      → 1 < p
      → 0 < t0
      → t0 ≤ t1
      → t1 < 2 ^ 64
      → ctx.next_pid ≡ p
      → b.lookup ms.rq_enqueue_ts p ≡ some old
      → b.lookup ms.rq_wait_ns p ≡ some acc
      → SparesAll b p es (handle_sched_wakeup b t0 p ms)
      → let after =
          handle_sched_switch b t1 cpu ctx (handle_all b es (handle_sched_wakeup b t0 p ms)) in
        (b.lookup after.rq_wait_ns p
          ≡ some (if ltb (t1 - t0) rq_wait_limit then add64 acc (t1 - t0) else acc))
        × (b.lookup after.rq_enqueue_ts p ≡ some 0)
  wait_is_measured t0 t1 cpu p es ctx ms p_user pos le lt e queued waited spares =
      let kept = before_wait-waits cpu ctx ms' in
      let queued' = ap (λ m. b.lookup m p) kept.1 ∙ same.rq_enqueue_ts_eq ∙ woken.0 in
      let waited' = ap (λ m. b.lookup m p) kept.0 ∙ same.rq_wait_ns_eq ∙ woken.1 ∙ waited in
      rw (switch_in t1 cpu ctx ms' e (omega arith) queued')
        (ended t1 p (before_wait cpu ctx ms') pos le lt queued' waited')
    where
      ms' : Maps b
      ms' = handle_all b es (handle_sched_wakeup b t0 p ms)

      same : SameEntries b p (handle_sched_wakeup b t0 p ms) ms'
      same = other_processes_do_not_interfere b laws p es (handle_sched_wakeup b t0 p ms) spares

      woken :
          (b.lookup (handle_sched_wakeup b t0 p ms).rq_enqueue_ts p ≡ some t0)
          × (b.lookup (handle_sched_wakeup b t0 p ms).rq_wait_ns p ≡ b.lookup ms.rq_wait_ns p)
      woken =
          unfold handle_sched_wakeup in
          ground (arith, update-present b laws ms.rq_enqueue_ts p t0 queued p)

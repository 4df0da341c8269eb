-- ===== src/Bpf/Frame.antt =====
-- An event that is about other processes leaves every entry of a process alone.
use capstone_monitor.Prelude.{
  ℕ, ◌≡◌, ◌≢◌, ◌∙◌, refl, inl, inr, List, [], ◌∷◌, Option, none, some, ◌==◌, arith, Option-cases,
  Bool-cases,
}
use capstone_monitor.BpfMap.{BpfMaps, MapLaws}
use capstone_monitor.Bpf.{
  Maps, BioInfo, SchedSwitchArgs, SchedExitArgs, Event, sched_switch, sched_wakeup, fork, exit,
  exec, block_rq_issue, block_rq_complete, handle, handle_all, handle_sched_switch,
  handle_sched_wakeup, handle_fork, handle_exit, handle_exec, handle_block_rq_issue,
  handle_block_rq_complete, note_cpu, count_switch, end_wait, charge_io, finish_io, sub64,
}
use capstone_monitor.Bpf.MapFacts.{update-other, update_noexist-other, accumulate-other}

module _ (b : BpfMaps) where
  -- The event names no process `p`; a completed request was not issued by `p`.
  abbrev pub Spares : ℕ → Event → Maps b → Type 0
  Spares p (sched_switch now cpu ctx) ms = (ctx.prev_pid ≢ p) × (ctx.next_pid ≢ p)
  Spares p (sched_wakeup now pid) ms = pid ≢ p
  Spares p (fork child) ms = child ≢ p
  Spares p (exit ctx) ms = ctx.pid ≢ p
  Spares p (exec pid comm) ms = pid ≢ p
  Spares p (block_rq_issue now pid rq) ms = Unit
  Spares p (block_rq_complete now rq) ms =
      (info : BioInfo) → b.lookup ms.bio_inflight rq ≡ some info → info.pid ≢ p

  abbrev pub SparesAll : ℕ → List Event → Maps b → Type 0
  SparesAll p [] ms = Unit
  SparesAll p (e ∷ es) ms = Spares p e ms × SparesAll p es (handle b e ms)

  -- Two states of the maps have the same entries for `p`.
  pub record SameEntries (p : ℕ) (ms ms' : Maps b) : Type 0 where
    pub vol_ctx_switch_eq : b.lookup ms'.vol_ctx_switch p ≡ b.lookup ms.vol_ctx_switch p
    pub active_pids_eq : b.lookup ms'.active_pids p ≡ b.lookup ms.active_pids p
    pub io_counts_eq : b.lookup ms'.io_counts p ≡ b.lookup ms.io_counts p
    pub io_wait_ns_eq : b.lookup ms'.io_wait_ns p ≡ b.lookup ms.io_wait_ns p
    pub rq_enqueue_ts_eq : b.lookup ms'.rq_enqueue_ts p ≡ b.lookup ms.rq_enqueue_ts p
    pub rq_wait_ns_eq : b.lookup ms'.rq_wait_ns p ≡ b.lookup ms.rq_wait_ns p
    pub exec_comms_eq : b.lookup ms'.exec_comms p ≡ b.lookup ms.exec_comms p
    pub pid_last_cpu_eq : b.lookup ms'.pid_last_cpu p ≡ b.lookup ms.pid_last_cpu p

  same_but_inflight :
      (p : ℕ) (ms : Maps b) (m : b.Map BioInfo) → SameEntries p ms (record ms { bio_inflight = m })
  same_but_inflight p ms m = record {
    vol_ctx_switch_eq = refl;
    active_pids_eq = refl;
    io_counts_eq = refl;
    io_wait_ns_eq = refl;
    rq_enqueue_ts_eq = refl;
    rq_wait_ns_eq = refl;
    exec_comms_eq = refl;
    pid_last_cpu_eq = refl;
  }

  same_refl : (p : ℕ) (ms : Maps b) → SameEntries p ms ms
  same_refl p ms = same_but_inflight p ms ms.bio_inflight

  pub same_trans :
      {p : ℕ} {ms ms' ms'' : Maps b}
      → SameEntries p ms ms'
      → SameEntries p ms' ms''
      → SameEntries p ms ms''
  same_trans s t = record {
    vol_ctx_switch_eq = t.vol_ctx_switch_eq ∙ s.vol_ctx_switch_eq;
    active_pids_eq = t.active_pids_eq ∙ s.active_pids_eq;
    io_counts_eq = t.io_counts_eq ∙ s.io_counts_eq;
    io_wait_ns_eq = t.io_wait_ns_eq ∙ s.io_wait_ns_eq;
    rq_enqueue_ts_eq = t.rq_enqueue_ts_eq ∙ s.rq_enqueue_ts_eq;
    rq_wait_ns_eq = t.rq_wait_ns_eq ∙ s.rq_wait_ns_eq;
    exec_comms_eq = t.exec_comms_eq ∙ s.exec_comms_eq;
    pid_last_cpu_eq = t.pid_last_cpu_eq ∙ s.pid_last_cpu_eq;
  }

module _ (b : BpfMaps) (laws : MapLaws b) (p : ℕ) where
  note_cpu-frame :
      (pid cpu : ℕ) (ms : Maps b) → pid ≢ p → SameEntries b p ms (note_cpu b pid cpu ms)
  unfolding note_cpu
  note_cpu-frame pid cpu ms ne = ground (arith, update-other b laws ms.pid_last_cpu pid p cpu)

  count_switch-frame :
      (ctx : SchedSwitchArgs) (ms : Maps b)
      → ctx.prev_pid ≢ p
      → SameEntries b p ms (count_switch b ctx ms)
  unfolding count_switch
  count_switch-frame ctx ms ne =
      ground (arith, accumulate-other b laws ms.vol_ctx_switch ctx.prev_pid p 1)

  end_wait-frame :
      (found : Option ℕ) (now pid : ℕ) (ms : Maps b)
      → pid ≢ p
      → SameEntries b p ms (end_wait b found now pid ms)
  unfolding end_wait
  end_wait-frame none now pid ms ne = same_refl b p ms
  end_wait-frame (some ts) now pid ms ne = ground (
    arith,
    accumulate-other b laws ms.rq_wait_ns pid p (sub64 now ts),
    update-other b laws ms.rq_enqueue_ts pid p 0,
  )

  sched_switch-frame :
      (now cpu : ℕ) (ctx : SchedSwitchArgs) (ms : Maps b)
      → (ctx.prev_pid ≢ p) × (ctx.next_pid ≢ p)
      → SameEntries b p ms (handle_sched_switch b now cpu ctx ms)
  unfolding handle_sched_switch
  sched_switch-frame now cpu ctx ms (np, nn) =
      let m1 = note_cpu b ctx.prev_pid cpu ms in
      let m2 = note_cpu b ctx.next_pid cpu m1 in
      let m3 = count_switch b ctx m2 in
      let counted =
        same_trans b
          (same_trans b (note_cpu-frame ctx.prev_pid cpu ms np)
            (note_cpu-frame ctx.next_pid cpu m1 nn))
          (count_switch-frame ctx m2 np) in
      elim (Bool-cases (ctx.next_pid == 0)) [
        | inl idle ↦ rw idle counted
        | inr busy ↦ rw busy (
            same_trans b counted
              (end_wait-frame (b.lookup m3.rq_enqueue_ts ctx.next_pid) now ctx.next_pid m3 nn))
      ]

  sched_wakeup-frame :
      (now pid : ℕ) (ms : Maps b) → pid ≢ p → SameEntries b p ms (handle_sched_wakeup b now pid ms)
  unfolding handle_sched_wakeup
  sched_wakeup-frame now pid ms ne = ground (arith, update-other b laws ms.rq_enqueue_ts pid p now)

  fork-frame : (child : ℕ) (ms : Maps b) → child ≢ p → SameEntries b p ms (handle_fork b child ms)
  unfolding handle_fork
  fork-frame child ms ne = ground (
    arith,
    update-other b laws ms.active_pids child p 1,
    update_noexist-other b laws ms.vol_ctx_switch child p 0,
    update_noexist-other b laws ms.io_counts child p 0,
    update_noexist-other b laws ms.io_wait_ns child p 0,
    update_noexist-other b laws ms.rq_wait_ns child p 0,
  )

  exit-frame :
      (ctx : SchedExitArgs) (ms : Maps b) → ctx.pid ≢ p → SameEntries b p ms (handle_exit b ctx ms)
  unfolding handle_exit
  exit-frame ctx ms ne = ground (
    arith,
    laws.lookup-delete ms.active_pids ctx.pid p,
    laws.lookup-delete ms.vol_ctx_switch ctx.pid p,
    laws.lookup-delete ms.io_counts ctx.pid p,
    laws.lookup-delete ms.io_wait_ns ctx.pid p,
    laws.lookup-delete ms.rq_enqueue_ts ctx.pid p,
    laws.lookup-delete ms.rq_wait_ns ctx.pid p,
    laws.lookup-delete ms.exec_comms ctx.pid p,
    laws.lookup-delete ms.pid_last_cpu ctx.pid p,
  )

  exec-frame :
      (pid : ℕ) (comm : List ℕ) (ms : Maps b)
      → pid ≢ p
      → SameEntries b p ms (handle_exec b pid comm ms)
  unfolding handle_exec
  exec-frame pid comm ms ne = ground (
    arith,
    update-other b laws ms.exec_comms pid p comm,
    update_noexist-other b laws ms.active_pids pid p 1,
  )

  pub issue-frame :
      (now pid rq : ℕ) (ms : Maps b) → SameEntries b p ms (handle_block_rq_issue b now pid rq ms)
  unfolding handle_block_rq_issue
  issue-frame now pid rq ms = ground arith

  charge_io-frame :
      (now : ℕ) (info : BioInfo) (ms : Maps b)
      → info.pid ≢ p
      → SameEntries b p ms (charge_io b now info ms)
  unfolding charge_io
  charge_io-frame now info ms ne = ground (
    arith,
    accumulate-other b laws ms.io_counts info.pid p 1,
    accumulate-other b laws ms.io_wait_ns info.pid p (sub64 now info.issue_ts),
  )

  finish_io-frame :
      (found : Option BioInfo) (now rq : ℕ) (ms : Maps b)
      → ((info : BioInfo) → found ≡ some info → info.pid ≢ p)
      → SameEntries b p ms (finish_io b found now rq ms)
  unfolding finish_io
  finish_io-frame none now rq ms ne = same_refl b p ms
  finish_io-frame (some info) now rq ms ne =
      let ms' : Maps b = record ms { bio_inflight = b.delete ms.bio_inflight rq } in
      elim (Option-cases (b.lookup ms.active_pids info.pid)) [
        | inl untracked ↦
            rw (untracked, finish_io) (same_but_inflight b p ms (b.delete ms.bio_inflight rq))
        | inr (w, tracked) ↦
            rw (tracked, finish_io)
              (same_trans b (same_but_inflight b p ms (b.delete ms.bio_inflight rq))
                (charge_io-frame now info ms' (ne info refl)))
      ]

  complete-frame :
      (now rq : ℕ) (ms : Maps b)
      → ((info : BioInfo) → b.lookup ms.bio_inflight rq ≡ some info → info.pid ≢ p)
      → SameEntries b p ms (handle_block_rq_complete b now rq ms)
  unfolding handle_block_rq_complete
  complete-frame now rq ms ne = finish_io-frame (b.lookup ms.bio_inflight rq) now rq ms ne

  pub handle-frame :
      (e : Event) (ms : Maps b) → Spares b p e ms → SameEntries b p ms (handle b e ms)
  unfolding handle
  handle-frame (sched_switch now cpu ctx) ms h = sched_switch-frame now cpu ctx ms h
  handle-frame (sched_wakeup now pid) ms h = sched_wakeup-frame now pid ms h
  handle-frame (fork child) ms h = fork-frame child ms h
  handle-frame (exit ctx) ms h = exit-frame ctx ms h
  handle-frame (exec pid comm) ms h = exec-frame pid comm ms h
  handle-frame (block_rq_issue now pid rq) ms h = issue-frame now pid rq ms
  handle-frame (block_rq_complete now rq) ms h = complete-frame now rq ms h

  -- However many events of other processes come in between, and whether or not they fill the maps:
  -- the entries of process `p` in all eight maps that are keyed by process stay as they are.
  pub other_processes_do_not_interfere :
      (es : List Event) (ms : Maps b)
      → SparesAll b p es ms
      → SameEntries b p ms (handle_all b es ms)
  unfolding handle_all
  other_processes_do_not_interfere [] ms h = same_refl b p ms
  other_processes_do_not_interfere (e ∷ es) ms h =
      same_trans b (handle-frame e ms h.0) (other_processes_do_not_interfere es (handle b e ms) h.1)

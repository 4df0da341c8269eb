-- ===== src/Bpf/Block.antt =====
-- The latency of a block request.
use capstone_monitor.Prelude.{
  ℕ, ◌-◌, ◌^◌, ◌<◌, ◌≤◌, ◌≡◌, ◌≢◌, ◌∙◌, refl, ap, List, [], ◌∷◌, Option, none, some, if◌then◌else◌,
  arith, ltb, Option-cases, inl, inr,
}
use capstone_monitor.BpfMap.{BpfMaps, MapLaws}
use capstone_monitor.Bpf.{
  Maps, add64, sub64, io_wait_limit, BioInfo, SchedSwitchArgs, Event, sched_switch, sched_wakeup,
  fork, exit, exec, block_rq_issue, block_rq_complete, handle, handle_all, handle_sched_switch,
  handle_sched_wakeup, handle_fork, handle_exit, handle_exec, handle_block_rq_issue,
  handle_block_rq_complete, finish_io, charge_io, note_cpu, count_switch, end_wait,
}
use capstone_monitor.Bpf.MapFacts.{accumulate_self, update-other}
use capstone_monitor.Bpf.Frame.{
  SparesAll, SameEntries, issue-frame, other_processes_do_not_interfere,
}

-- The event neither issues nor completes the request `rq`.
abbrev pub LeavesRequest : ℕ → Event → Type 0
LeavesRequest rq (block_rq_issue now pid r) = r ≢ rq
LeavesRequest rq (block_rq_complete now r) = r ≢ rq
LeavesRequest rq e = Unit

abbrev pub LeavesRequestAll : ℕ → List Event → Type 0
LeavesRequestAll rq [] = Unit
LeavesRequestAll rq (e ∷ es) = LeavesRequest rq e × LeavesRequestAll rq es

module _ (b : BpfMaps) (laws : MapLaws b) where
  note_cpu-inflight :
      (pid cpu : ℕ) (ms : Maps b) → (note_cpu b pid cpu ms).bio_inflight ≡ ms.bio_inflight
  unfolding note_cpu
  note_cpu-inflight pid cpu ms = ground arith

  count_switch-inflight :
      (ctx : SchedSwitchArgs) (ms : Maps b) → (count_switch b ctx ms).bio_inflight ≡ ms.bio_inflight
  unfolding count_switch
  count_switch-inflight ctx ms = ground arith

  end_wait-inflight :
      (found : Option ℕ) (now pid : ℕ) (ms : Maps b)
      → (end_wait b found now pid ms).bio_inflight ≡ ms.bio_inflight
  unfolding end_wait
  end_wait-inflight none now pid ms = refl
  end_wait-inflight (some ts) now pid ms = ground arith

  switch-inflight :
      (now cpu : ℕ) (ctx : SchedSwitchArgs) (ms : Maps b)
      → (handle_sched_switch b now cpu ctx ms).bio_inflight ≡ ms.bio_inflight
  unfolding handle_sched_switch
  switch-inflight now cpu ctx ms =
      let m1 = note_cpu b ctx.prev_pid cpu ms in
      let m2 = note_cpu b ctx.next_pid cpu m1 in
      let m3 = count_switch b ctx m2 in
      ground (
        arith,
        end_wait-inflight (b.lookup m3.rq_enqueue_ts ctx.next_pid) now ctx.next_pid m3,
        count_switch-inflight ctx m2,
        note_cpu-inflight ctx.prev_pid cpu ms,
        note_cpu-inflight ctx.next_pid cpu m1,
      )

  finish_io-inflight :
      (found : Option BioInfo) (now rq : ℕ) (ms : Maps b) {info : BioInfo}
      → found ≡ some info
      → (finish_io b found now rq ms).bio_inflight ≡ b.delete ms.bio_inflight rq
  unfolding finish_io charge_io
  finish_io-inflight none now rq ms h = cc
  finish_io-inflight (some info) now rq ms h = ground arith

  complete-inflight :
      (now r : ℕ) (ms : Maps b) {rq : ℕ}
      → r ≢ rq
      → b.lookup (handle_block_rq_complete b now r ms).bio_inflight rq ≡ b.lookup ms.bio_inflight rq
  unfolding handle_block_rq_complete
  complete-inflight now r ms {rq} ne = elim (Option-cases (b.lookup ms.bio_inflight r)) [
    | inl absent ↦ rw (absent, finish_io)
    | inr (info, found) ↦
        rw (finish_io-inflight (b.lookup ms.bio_inflight r) now r ms found)
          (ground (arith, laws.lookup-delete ms.bio_inflight r rq))
  ]

  handle-inflight :
      (e : Event) (ms : Maps b) {rq : ℕ}
      → LeavesRequest rq e
      → b.lookup (handle b e ms).bio_inflight rq ≡ b.lookup ms.bio_inflight rq
  unfolding handle handle_sched_wakeup handle_fork handle_exit handle_exec handle_block_rq_issue
  handle-inflight (sched_switch now cpu ctx) ms h =
      ap (λ m. b.lookup m _) (switch-inflight now cpu ctx ms)
  handle-inflight (sched_wakeup now pid) ms h = ground arith
  handle-inflight (fork child) ms h = ground arith
  handle-inflight (exit ctx) ms h = ground arith
  handle-inflight (exec pid comm) ms h = ground arith
  handle-inflight (block_rq_issue now pid r) ms {rq} h =
      ground
        (arith, update-other b laws ms.bio_inflight r rq (record { issue_ts = now; pid = pid }) h)
  handle-inflight (block_rq_complete now r) ms h = complete-inflight now r ms h

  all-inflight :
      (es : List Event) (ms : Maps b) {rq : ℕ}
      → LeavesRequestAll rq es
      → b.lookup (handle_all b es ms).bio_inflight rq ≡ b.lookup ms.bio_inflight rq
  unfolding handle_all
  all-inflight [] ms h = refl
  all-inflight (e ∷ es) ms h = all-inflight es (handle b e ms) h.1 ∙ handle-inflight e ms h.0

  -- Once a request has completed it is in flight no more, whether or not its process is watched.
  completed_request_is_removed :
      (now rq : ℕ) (ms : Maps b)
      → b.lookup (handle_block_rq_complete b now rq ms).bio_inflight rq ≡ none
  unfolding handle_block_rq_complete
  completed_request_is_removed now rq ms = elim (Option-cases (b.lookup ms.bio_inflight rq)) [
    | inl absent ↦ rw (absent, finish_io) absent
    | inr (info, found) ↦
        rw (finish_io-inflight (b.lookup ms.bio_inflight rq) now rq ms found)
          (ground (arith, laws.lookup-delete ms.bio_inflight rq rq))
  ]

  charged :
      (t1 rq : ℕ) (info : BioInfo) (ms : Maps b) {w c a : ℕ}
      → 0 < info.issue_ts
      → info.issue_ts ≤ t1
      → t1 < 2 ^ 64
      → b.lookup ms.active_pids info.pid ≡ some a
      → b.lookup ms.io_counts info.pid ≡ some c
      → b.lookup ms.io_wait_ns info.pid ≡ some w
      → let after = finish_io b (some info) t1 rq ms in
        (b.lookup after.io_counts info.pid ≡ some (add64 c 1))
        × (b.lookup after.io_wait_ns info.pid
            ≡ some (
                if ltb (t1 - info.issue_ts) io_wait_limit then add64 w (t1 - info.issue_ts) else w))
  unfolding finish_io charge_io
  charged t1 rq info ms pos le lt tracked counted waited =
      let d : sub64 t1 info.issue_ts ≡ t1 - info.issue_ts = omega arith in
      rw (tracked, finish_io)
        (ground (
          arith,
          d,
          accumulate_self b laws ms.io_counts info.pid 1 counted,
          accumulate_self b laws ms.io_wait_ns info.pid (sub64 t1 info.issue_ts) waited,
        ))

  pub latency_is_charged :
      (t0 t1 p rq : ℕ) (es : List Event) (ms : Maps b) {w c a : ℕ}
      → 0 < t0
      → t0 ≤ t1
      → t1 < 2 ^ 64
      → b.lookup ms.active_pids p ≡ some a
      → b.lookup ms.io_counts p ≡ some c
      → b.lookup ms.io_wait_ns p ≡ some w
      → b.lookup (handle_block_rq_issue b t0 p rq ms).bio_inflight rq
        ≡ some (record { issue_ts = t0; pid = p })
      → SparesAll b p es (handle_block_rq_issue b t0 p rq ms)
      → LeavesRequestAll rq es
      → let after =
          handle_block_rq_complete b t1 rq (handle_all b es (handle_block_rq_issue b t0 p rq ms)) in
        (b.lookup after.io_counts p ≡ some (add64 c 1))
        × (b.lookup after.io_wait_ns p
            ≡ some (if ltb (t1 - t0) io_wait_limit then add64 w (t1 - t0) else w))
  unfolding handle_block_rq_complete
  latency_is_charged t0 t1 p rq es ms pos le lt tracked counted waited issued spares leaves =
      rw (all-inflight es issue leaves ∙ issued) (
        charged t1 rq (record { issue_ts = t0; pid = p }) (handle_all b es issue) pos le lt
          (same.active_pids_eq ∙ start.active_pids_eq ∙ tracked)
          (same.io_counts_eq ∙ start.io_counts_eq ∙ counted)
          (same.io_wait_ns_eq ∙ start.io_wait_ns_eq ∙ waited))
    where
      issue : Maps b
      issue = handle_block_rq_issue b t0 p rq ms

      start : SameEntries b p ms issue
      start = issue-frame b laws p t0 p rq ms

      same : SameEntries b p issue (handle_all b es issue)
      same = other_processes_do_not_interfere b laws p es issue spares

-- ===== src/Bpf/Switches.antt =====
-- The counter of voluntary context switches over any sequence of events.
use capstone_monitor.Prelude.{
  ℕ, ◌+◌, ◌%◌, ◌^◌, ◌<◌, ◌≡◌, ◌≢◌, ◌∙◌, ap, List, [], ◌∷◌, ◌&&◌, not, some, if◌then◌else◌, ◌==◌,
  arith,
}
use capstone_monitor.BpfMap.{BpfMaps, MapLaws}
use capstone_monitor.Bpf.{
  Maps, add64, SchedSwitchArgs, Event, sched_switch, sched_wakeup, fork, exit, exec, block_rq_issue,
  block_rq_complete, handle, handle_all, handle_sched_switch, handle_sched_wakeup, handle_fork,
  handle_exit, handle_exec, handle_block_rq_issue, handle_block_rq_complete, count_switch,
  charge_io,
}
use capstone_monitor.Bpf.MapFacts.{accumulate-other, accumulate_self, update_noexist-keeps}
use capstone_monitor.Bpf.Exit.{sched_switch-vol_ctx_switch}

-- 1 for an event by which process `p` gives up the CPU, 0 for any other.
abbrev pub gives_up : ℕ → Event → ℕ
gives_up p (sched_switch now cpu ctx) =
    if ctx.prev_pid == p && not (p == 0) && not (ctx.prev_state == 0) then 1 else 0
gives_up p e = 0

-- The number of times that `p` gives up the CPU.
abbrev pub switches_of : ℕ → List Event → ℕ
switches_of p [] = 0
switches_of p (e ∷ es) = gives_up p e + switches_of p es

-- `e` is not the exit of the last thread of `p`.
abbrev pub Survives : ℕ → Event → Type 0
Survives p (exit ctx) = ctx.pid ≢ p
Survives p e = Unit

abbrev pub SurvivesAll : ℕ → List Event → Type 0
SurvivesAll p [] = Unit
SurvivesAll p (e ∷ es) = Survives p e × SurvivesAll p es

module _ (b : BpfMaps) (laws : MapLaws b) (p : ℕ) where
  switch-count :
      (now cpu : ℕ) (ctx : SchedSwitchArgs) (ms : Maps b) {v : ℕ}
      → v < 2 ^ 64
      → b.lookup ms.vol_ctx_switch p ≡ some v
      → b.lookup (handle_sched_switch b now cpu ctx ms).vol_ctx_switch p
        ≡ some (add64 v (gives_up p (sched_switch now cpu ctx)))
  unfolding count_switch
  switch-count now cpu ctx ms {v} lt h =
      ap (λ m. b.lookup m p) (sched_switch-vol_ctx_switch b laws now cpu ctx ms)
      ∙ ground (
        arith,
        accumulate_self b laws ms.vol_ctx_switch p 1 h,
        accumulate-other b laws ms.vol_ctx_switch ctx.prev_pid p 1,
      )

  complete-vol_ctx_switch :
      (now rq : ℕ) (ms : Maps b)
      → (handle_block_rq_complete b now rq ms).vol_ctx_switch ≡ ms.vol_ctx_switch
  unfolding handle_block_rq_complete charge_io
  complete-vol_ctx_switch now rq ms = ground arith

  handle-count :
      (e : Event) (ms : Maps b) {v : ℕ}
      → v < 2 ^ 64
      → Survives p e
      → b.lookup ms.vol_ctx_switch p ≡ some v
      → b.lookup (handle b e ms).vol_ctx_switch p ≡ some (add64 v (gives_up p e))
  unfolding handle handle_sched_wakeup handle_fork handle_exit handle_exec handle_block_rq_issue
  handle-count (sched_switch now cpu ctx) ms lt s h = switch-count now cpu ctx ms lt h
  handle-count (sched_wakeup now pid) ms lt s h = ground arith
  handle-count (fork child) ms lt s h =
      ground (arith, update_noexist-keeps b laws ms.vol_ctx_switch child p 0 h)
  handle-count (exit ctx) ms lt s h = ground (arith, laws.lookup-delete ms.vol_ctx_switch ctx.pid p)
  handle-count (exec pid comm) ms lt s h = ground arith
  handle-count (block_rq_issue now pid rq) ms lt s h = ground arith
  handle-count (block_rq_complete now rq) ms lt s h =
      ap (λ m. b.lookup m p) (complete-vol_ctx_switch now rq ms) ∙ h ∙ ground arith

  -- While process `p` lives and its counter is there, the counter goes up by exactly the number of
  -- times that `p` gave up the CPU (modulo 2^64), whatever else happens and however full the maps
  -- are.
  pub voluntary_switches_counted :
      (es : List Event) (ms : Maps b) {v : ℕ}
      → v < 2 ^ 64
      → SurvivesAll p es
      → b.lookup ms.vol_ctx_switch p ≡ some v
      → b.lookup (handle_all b es ms).vol_ctx_switch p ≡ some ((v + switches_of p es) % 2 ^ 64)
  unfolding handle_all
  voluntary_switches_counted [] ms lt s h = h ∙ ap some (omega arith)
  voluntary_switches_counted (e ∷ es) ms {v} lt s h =
      voluntary_switches_counted es (handle b e ms) (omega arith) s.1 (handle-count e ms lt s.0 h)
      ∙ ap some (omega arith)

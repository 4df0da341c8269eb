-- ===== src/Daemon/Ticks/Sent.antt =====
-- What a whole run sends to the ring buffers (src/schedmon.c: run_sampling_loop).
use capstone_monitor.Prelude.{
  ℕ, zero, suc, ◌≡◌, ◌⊎◌, refl, List, [], ◌∷◌, ◌++◌, Option, some, arith, length, set, get_elem?,
  Bool-cases, Option-cases, inl, inr, ◌==◌, ◌%◌, ltb, true, if◌then◌else◌,
}
use capstone_monitor.Double.{Double}
use capstone_monitor.Metrics.{SmoothedMetrics, sm_is_active}
use capstone_monitor.BpfMap.{BpfMaps}
use capstone_monitor.Perf.{Kernel}
use capstone_monitor.Tracer.{EbpfTracer}
use capstone_monitor.Scanner.Table.{Proc}
use capstone_monitor.Scanner.TopN.{Qsort}
use capstone_monitor.Daemon.{System}
use capstone_monitor.Daemon.Slots.{remove_slot}
use capstone_monitor.Daemon.Sync.{DaemonConfig, Timespec, to_ns, sync_pids}
use capstone_monitor.Daemon.Ticks.{
  Round, stamp, visit, slow_dt, slow_loop, Loop, slow_path, every_fourth, end_tick,
  run_sampling_loop,
}
use capstone_monitor.Daemon.Ticks.Outcomes.{visit-VisitOutcome}
use capstone_monitor.Daemon.Ticks.Runs.{Steady, every_fourth_keeps}
use capstone_monitor.Daemon.Ticks.Each.{Each, Each-Steady}
use capstone_monitor.Daemon.Ticks.Active.{
  Truthful, AllSent, append-AllSent, fast_path-AllSent, SentVisit, VisitOutcome-AllSent,
  Truthful-Slotwise,
}

-- The time is the start of one of the ticks.
abbrev pub IsStart : List (Timespec × Timespec) → ℕ → Type 0
IsStart [] now_ns = ⊥
IsStart ((t_start, synced) ∷ times) now_ns = (now_ns ≡ to_ns t_start) ⊎ IsStart times now_ns

module _ (b : BpfMaps) (k : Kernel) (sys : System b k) (d : Double) (et : EbpfTracer) where
  open k use {State}
  open d use {F}

  steady : Steady b k sys d et (λ slots s. Each (Truthful d) slots)
  steady = Each-Steady b k sys d et (Truthful d) (Truthful-Slotwise b k sys d et)

  -- The condition of a tick: an active entry may be sent with its time.
  abbrev Good : (SmoothedMetrics F → Type 0) → ℕ → Type 0
  Good R now_ns = (m : SmoothedMetrics F) → sm_is_active d m ≡ true → R (stamp now_ns m)

  module _ (R : SmoothedMetrics F → Type 0) (dt : F) (now_ns limit : ℕ) (good : Good R now_ns) where
    slow_loop-AllSent :
        (fuel i : ℕ) (r : Round F) (s : State)
        → AllSent d R r.sent
        → AllSent d R (slow_loop b k sys d et dt now_ns limit fuel i r s).0.sent
    unfolding slow_loop
    slow_loop-AllSent zero i r s h = h
    slow_loop-AllSent (suc fuel) i r s h = elim (Option-cases (get_elem? r.slots i)) [
      | inl e ↦ rw (e, slow_loop) h
      | inr (x, e) ↦
          let w = visit b k sys d et dt now_ns limit r.displayed x s in
          elim (Option-cases w.0) [
            | inl goes ↦
                let left = remove_slot b k sys et i r.slots w.1 in
                rw (e, slow_loop, goes)
                  (slow_loop-AllSent fuel i (record r { slots = left.0 }) left.1 h)
            | inr (v, stays) ↦
                let more : SentVisit d R now_ns good (some v) = rw stays at (
                  VisitOutcome-AllSent d R now_ns good dt x
                    (visit-VisitOutcome b k sys d et dt now_ns limit r.displayed x s)) in
                rw (e, slow_loop, stays)
                  (slow_loop-AllSent fuel (suc i)
                    (record { slots = set r.slots i v.0; displayed = v.1; sent = r.sent ++ v.2 })
                    w.1 (append-AllSent d R r.sent v.2 h more))
          ]
    ]

  module _ (q : Qsort) (proc : State → Proc) (names : State → Option (List (List ℕ)))
      (cfg : DaemonConfig) where
    slow_path-AllSent :
        (R : SmoothedMetrics F → Type 0) (t_start synced : Timespec) (l : Loop F) (s : State)
        → Good R (to_ns t_start)
        → AllSent d R l.sent
        → AllSent d R (slow_path b k sys d et q proc names cfg t_start synced l s).0.sent
    unfolding slow_path
    slow_path-AllSent R t_start synced l s good h =
        let dt = slow_dt d l.first_slow l.last_slow t_start in
        let synchronised = sync_pids b k sys d et q proc names cfg synced l.syncing s in
        let n = length synchronised.0.slots in
        let limit = if ltb 0 cfg.top_n then cfg.top_n else n in
        slow_loop-AllSent R dt (to_ns t_start) limit good n 0
          (record { slots = synchronised.0.slots; displayed = 0; sent = l.sent }) synchronised.1 h

    every_fourth-AllSent :
        (R : SmoothedMetrics F → Type 0) (t_start synced : Timespec) (l : Loop F) (s : State)
        → Good R (to_ns t_start)
        → AllSent d R l.sent
        → AllSent d R (every_fourth b k sys d et q proc names cfg t_start synced l s).0.sent
    unfolding every_fourth
    every_fourth-AllSent R t_start synced l s good h = elim (Bool-cases (l.sample_num % 4 == 0)) [
      | inl slow ↦ rw slow (slow_path-AllSent R t_start synced l s good h)
      | inr fast ↦ rw fast h
    ]

    run-AllSent :
        (R : SmoothedMetrics F → Type 0) (times : List (Timespec × Timespec)) (l : Loop F)
        (s : State)
        → ((now_ns : ℕ) → IsStart times now_ns → Good R now_ns)
        → Each (Truthful d) l.syncing.slots
        → AllSent d R l.sent
        → AllSent d R (run_sampling_loop b k sys d et q proc names cfg times l s).0.sent
    unfolding run_sampling_loop end_tick
    run-AllSent R [] l s good e h = h
    run-AllSent R ((t_start, synced) ∷ times) l s good e h =
        let ticked = every_fourth b k sys d et q proc names cfg t_start synced l s in
        let now = good (to_ns t_start) (inl refl) in
        let e' =
          every_fourth_keeps b k sys d et (λ slots s. Each (Truthful d) slots) steady q proc names
            cfg t_start synced l s e in
        let h' = every_fourth-AllSent R t_start synced l s now h in
        run-AllSent R times (end_tick t_start ticked.0) (sys.later ticked.1)
          (λ now_ns is. good now_ns (inr is))
          (steady.stamping (to_ns t_start) ticked.0.syncing.slots (sys.later ticked.1) e')
          (append-AllSent d R ticked.0.sent _ h'
            (fast_path-AllSent d R (to_ns t_start) now ticked.0.syncing.slots e'))

    -- However long the loop runs, started with no slots and nothing sent, every entry that goes to a
    -- ring buffer has some metric above 0, and the start of one of the ticks for its time.
    pub only_active_sent :
        (times : List (Timespec × Timespec)) (l : Loop F) (s : State)
        → l.syncing.slots ≡ []
        → l.sent ≡ []
        → AllSent d
            (λ m. (sm_is_active d m ≡ true) × IsStart times m.timestamp_ns)
            (run_sampling_loop b k sys d et q proc names cfg times l s).0.sent
    unfolding sm_is_active
    only_active_sent times l s empty nothing =
        run-AllSent (λ m. (sm_is_active d m ≡ true) × IsStart times m.timestamp_ns) times l s
          (λ now_ns is m on. (on, is)) (rw empty (λ y (m, h). absurd (ground arith)))
          (rw nothing tt)

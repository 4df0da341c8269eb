-- ===== src/Daemon/Ticks/Visits.antt =====
-- What a visit of a slot leaves of it (src/schedmon.c: the loop over the slots in run_sampling_loop).
use capstone_monitor.Prelude.{
  ℕ, ◌+◌, ◌≡◌, ◌∙◌, ap, refl, List, Option, none, some, arith, ltb, Bool-cases, inl, inr,
}
use capstone_monitor.Prelude.Bits.{bit}
use capstone_monitor.Double.{Double}
use capstone_monitor.Metrics.{sm_is_active}
use capstone_monitor.BpfMap.{BpfMaps}
use capstone_monitor.Perf.{Kernel, RawCounters}
use capstone_monitor.Perf.Descriptors.{KernelLaws}
use capstone_monitor.Tracer.{EbpfTracer, ebpf_tracer_pop_exec_comm}
use capstone_monitor.Daemon.{Slot, System}
use capstone_monitor.Daemon.Slots.Descriptors.{SystemLaws, held, change_keeps}
use capstone_monitor.Daemon.Deltas.{Reading, went_back, rebase, advance, end_migration}
use capstone_monitor.Daemon.Sample.{
  Sampled, gone, skipped, measured, push_sample, smooth, measure, accept, counters_read, sample,
}
use capstone_monitor.Daemon.Sample.Ownership.{held_after, sample-bit}
use capstone_monitor.Daemon.Ticks.{Visit, renamed, publish, display, sampled, visit}

module _ {F : Type 0} where
  pub renamed_state : (found : Option (List ℕ)) (x : Slot F) → (renamed found x).state ≡ x.state
  unfolding renamed
  renamed_state none x = refl
  renamed_state (some bytes) x = refl

  pub renamed_perf : (found : Option (List ℕ)) (x : Slot F) → (renamed found x).perf ≡ x.perf
  unfolding renamed
  renamed_perf none x = refl
  renamed_perf (some bytes) x = refl

  -- Whether a visited slot has the state that the sample left, or is to be removed.
  abbrev pub SameProcess : Slot F → Visit F → Type 0
  SameProcess x none = Unit {0}
  SameProcess x (some v) = v.0.state.pid ≡ x.state.pid

  abbrev SampleSame : Slot F → Sampled F → Type 0
  SampleSame x gone = Unit {0}
  SampleSame x (skipped y) = y.state.pid ≡ x.state.pid
  SampleSame x (measured y) = y.state.pid ≡ x.state.pid

  abbrev pub held_visited : ℕ → Slot F → Visit F → ℕ
  held_visited j x none = held j x
  held_visited j x (some v) = held j v.0

module _ (d : Double) where
  open d use {F}

  pub publish_state : (now_ns : ℕ) (x : Slot F) → (publish d now_ns x).0.state ≡ x.state
  unfolding publish
  publish_state now_ns x = elim (Bool-cases (sm_is_active d x.last_sm)) [
    | inl on ↦ rw on refl
    | inr off ↦ rw off refl
  ]

  pub publish_perf : (now_ns : ℕ) (x : Slot F) → (publish d now_ns x).0.perf ≡ x.perf
  unfolding publish
  publish_perf now_ns x = elim (Bool-cases (sm_is_active d x.last_sm)) [
    | inl on ↦ rw on refl
    | inr off ↦ rw off refl
  ]

module _ (b : BpfMaps) (k : Kernel) (sys : System b k) (d : Double) (et : EbpfTracer) where
  open k use {State}
  open d use {F}

  pub display_state :
      (limit n : ℕ) (x : Slot F) (s : State)
      → (display b k sys d et limit n x s).0.0.state ≡ x.state
  unfolding display
  display_state limit n x s = elim (Bool-cases (ltb n limit)) [
    | inl shown ↦ rw shown (renamed_state _ x)
    | inr hidden ↦ rw hidden refl
  ]

  pub display_perf :
      (limit n : ℕ) (x : Slot F) (s : State) → (display b k sys d et limit n x s).0.0.perf ≡ x.perf
  unfolding display
  display_perf limit n x s = elim (Bool-cases (ltb n limit)) [
    | inl shown ↦ rw shown (renamed_perf _ x)
    | inr hidden ↦ rw hidden refl
  ]

  module _ (dt : F) where
    accept_same :
        (x : Slot F) (r : Reading) (s : State) → SampleSame x (accept b k sys d et dt x r s).0
    unfolding accept rebase measure end_migration advance push_sample smooth
    accept_same x r s = elim (Bool-cases (went_back x.state r)) [
      | inl back ↦ rw back refl
      | inr on ↦ rw on refl
    ]

    counters_read_same :
        (x : Slot F) (hw : Option RawCounters) (s : State)
        → SampleSame x (counters_read b k sys d et dt x hw s).0
    unfolding counters_read
    counters_read_same x none s = tt
    counters_read_same x (some hw) s = accept_same x _ _

    sample_same : (x : Slot F) (s : State) → SampleSame x (sample b k sys d et dt x s).0
    unfolding sample
    sample_same x s = counters_read_same x _ _

    sampled_same :
        (now_ns limit n : ℕ) (x : Slot F) (y : Sampled F) (s : State)
        → SampleSame x y
        → SameProcess x (sampled b k sys d et now_ns limit n y s).0
    unfolding sampled
    sampled_same now_ns limit n x gone s h = tt
    sampled_same now_ns limit n x (skipped y) s h = h
    sampled_same now_ns limit n x (measured y) s h =
        ap (λ q. q.pid) (display_state limit n (publish d now_ns y).0 s ∙ publish_state d now_ns y)
        ∙ h

    -- A visited slot is still that of its process.
    pub visit_same :
        (now_ns limit n : ℕ) (x : Slot F) (s : State)
        → SameProcess x (visit b k sys d et dt now_ns limit n x s).0
    unfolding visit
    visit_same now_ns limit n x s = sampled_same now_ns limit n x _ _ (sample_same x s)

module _ (b : BpfMaps) (k : Kernel) (laws : KernelLaws k) (sys : System b k)
    (more : SystemLaws laws sys) (d : Double) (et : EbpfTracer) (dt : d.F) where
  open k use {State}
  open laws use {is_open}
  open d use {F}

  display_keeps :
      (limit n : ℕ) (x : Slot F) (s : State) (j : ℕ)
      → is_open (display b k sys d et limit n x s).1 j ≡ is_open s j
  unfolding display
  display_keeps limit n x s j = elim (Bool-cases (ltb n limit)) [
    | inl shown ↦
        rw shown
          (change_keeps b k laws sys more (ebpf_tracer_pop_exec_comm b et x.state.pid 17) s j)
    | inr hidden ↦ rw hidden refl
  ]

  sampled-bit :
      (now_ns limit n : ℕ) (x : Slot F) (y : Sampled F) (s : State) (j c : ℕ)
      → bit (is_open s j) ≡ c + held_after b k laws sys more d et dt j x y
      → let (v, s') = sampled b k sys d et now_ns limit n y s in
        bit (is_open s' j) ≡ c + held_visited j x v
  unfolding sampled
  sampled-bit now_ns limit n x gone s j c h = h
  sampled-bit now_ns limit n x (skipped y) s j c h = h
  sampled-bit now_ns limit n x (measured y) s j c h =
      let z = (publish d now_ns y).0 in
      let w = (display b k sys d et limit n z s).0.0 in
      let same : held j w ≡ held j y =
        rw
          (
            display_state b k sys d et limit n z s,
            display_perf b k sys d et limit n z s,
            publish_state d now_ns y,
            publish_perf d now_ns y,
          )
          refl in
      omega (arith, ap bit (display_keeps limit n z s j), same, h)

  -- A visit opens and closes what the slot gains and loses.
  pub visit-bit :
      (now_ns limit n : ℕ) (x : Slot F) (s : State) (j c : ℕ)
      → bit (is_open s j) ≡ c + held j x
      → let (v, s') = visit b k sys d et dt now_ns limit n x s in
        bit (is_open s' j) ≡ c + held_visited j x v
  unfolding visit
  visit-bit now_ns limit n x s j c h =
      sampled-bit now_ns limit n x _ _ j c (sample-bit b k laws sys more d et dt x s j c h)

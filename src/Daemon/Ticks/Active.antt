-- ===== src/Daemon/Ticks/Active.antt =====
-- What the ring buffers are fed (src/schedmon.c: run_sampling_loop, sm_is_active).
use capstone_monitor.Prelude.{
  ℕ, suc, ◌≡◌, refl, List, [], ◌∷◌, ◌++◌, true, none, some, arith, Bool-cases, inl, inr,
}
use capstone_monitor.Double.{Double}
use capstone_monitor.Metrics.{SmoothedMetrics, sm_is_active}
use capstone_monitor.BpfMap.{BpfMaps}
use capstone_monitor.Perf.{Kernel}
use capstone_monitor.Tracer.{EbpfTracer}
use capstone_monitor.Daemon.{Slot, System}
use capstone_monitor.Daemon.Slots.{fill_slot}
use capstone_monitor.Daemon.Ticks.{
  Push, to_rb, to_rb_dash, Visit, stamp, is_fresh, fast_slot, fast_path, publish, visit,
}
use capstone_monitor.Daemon.Ticks.Outcomes.{
  remeasured, VisitOutcome, goes, stands, moves, visit-VisitOutcome,
}
use capstone_monitor.Daemon.Ticks.Each.{Each, Slotwise}

module _ (d : Double) where
  open d use {F}

  -- A slot whose metrics count as valid has some metric above 0.
  abbrev pub Truthful : Slot F → Type 0
  Truthful x = x.last_sm_valid ≡ true → sm_is_active d x.last_sm ≡ true

  publish-Truthful : (now_ns : ℕ) (x : Slot F) → Truthful (publish d now_ns x).0
  unfolding publish
  publish-Truthful now_ns x = elim (Bool-cases (sm_is_active d x.last_sm)) [
    | inl on ↦ rw on (λ h. on)
    | inr off ↦ rw off (λ h. absurd (ground (arith, h)))
  ]

  pub fast-Truthful : (now_ns : ℕ) (x : Slot F) → Truthful x → Truthful (fast_slot now_ns x).0
  unfolding fast_slot sm_is_active
  fast-Truthful now_ns x t = elim (Bool-cases (is_fresh now_ns x)) [
    | inl on ↦ rw on t
    | inr off ↦ rw off t
  ]

  abbrev pub TruthfulVisit : Slot F → Visit F → Type 0
  TruthfulVisit x none = Unit {0}
  TruthfulVisit x (some v) = Truthful x → Truthful v.0

  pub VisitOutcome-Truthful :
      (dt : F) (now_ns : ℕ) (x : Slot F) {v : Visit F}
      → VisitOutcome d dt now_ns x v
      → TruthfulVisit x v
  VisitOutcome-Truthful dt now_ns x goes = tt
  VisitOutcome-Truthful dt now_ns x (stands st n) = λ t. t
  VisitOutcome-Truthful dt now_ns x (moves x' m st c n) =
      λ t. publish-Truthful now_ns (remeasured d dt x' m st x)

  -- A condition on every entry that was sent.
  abbrev pub AllSent : (SmoothedMetrics F → Type 0) → List (Push F) → Type 0
  AllSent R [] = Unit {0}
  AllSent R (to_rb m ∷ sent) = R m × AllSent R sent
  AllSent R (to_rb_dash m ∷ sent) = R m × AllSent R sent

  module _ (R : SmoothedMetrics F → Type 0) where
    pub append-AllSent :
        (sent more : List (Push F)) → AllSent R sent → AllSent R more → AllSent R (sent ++ more)
    append-AllSent [] more a b = b
    append-AllSent (to_rb m ∷ sent) more a b = (a.0, append-AllSent sent more a.1 b)
    append-AllSent (to_rb_dash m ∷ sent) more a b = (a.0, append-AllSent sent more a.1 b)

    module _ (now_ns : ℕ)
        (good : (m : SmoothedMetrics F) → sm_is_active d m ≡ true → R (stamp now_ns m)) where
      publish-AllSent : (x : Slot F) → AllSent R (publish d now_ns x).1
      unfolding publish
      publish-AllSent x = elim (Bool-cases (sm_is_active d x.last_sm)) [
        | inl on ↦ rw on (good x.last_sm on, (good x.last_sm on, tt))
        | inr off ↦ rw off tt
      ]

      fast_slot-AllSent : (x : Slot F) → Truthful x → AllSent R (fast_slot now_ns x).1
      unfolding fast_slot is_fresh
      fast_slot-AllSent x t = elim (Bool-cases (is_fresh now_ns x)) [
        | inl on ↦
            let valid : x.last_sm_valid ≡ true = ground (arith, on) in
            rw on (good x.last_sm (t valid), tt)
        | inr off ↦ rw off tt
      ]

      pub fast_path-AllSent :
          (slots : List (Slot F)) → Each Truthful slots → AllSent R (fast_path now_ns slots).1
      unfolding fast_path
      fast_path-AllSent [] e = tt
      fast_path-AllSent (x ∷ xs) e =
          append-AllSent _ _ (fast_slot-AllSent x (e x (0, refl)))
            (fast_path-AllSent xs (λ y (m, h). e y (suc m, h)))

      abbrev pub SentVisit : Visit F → Type 0
      SentVisit none = Unit {0}
      SentVisit (some v) = AllSent R v.2

      pub VisitOutcome-AllSent :
          (dt : F) (x : Slot F) {v : Visit F} → VisitOutcome d dt now_ns x v → SentVisit v
      VisitOutcome-AllSent dt x goes = tt
      VisitOutcome-AllSent dt x (stands st n) = tt
      VisitOutcome-AllSent dt x (moves x' m st c n) = publish-AllSent (remeasured d dt x' m st x)

module _ (b : BpfMaps) (k : Kernel) (sys : System b k) (d : Double) (et : EbpfTracer) where
  open k use {State}
  open d use {F}

  visit-Truthful :
      (dt : F) (now_ns limit n : ℕ) (x : Slot F) (s : State) (v : Slot F × ℕ × List (Push F))
      → (visit b k sys d et dt now_ns limit n x s).0 ≡ some v
      → Truthful d x
      → Truthful d v.0
  visit-Truthful dt now_ns limit n x s v stays =
      let same : TruthfulVisit d x (some v) = rw stays at (
        VisitOutcome-Truthful d dt now_ns x
          (visit-VisitOutcome b k sys d et dt now_ns limit n x s)) in
      same

  pub Truthful-Slotwise : Slotwise b k sys d et (Truthful d)
  unfolding fill_slot
  Truthful-Slotwise = record {
    filling = λ pid pc s h. absurd (ground (arith, h));
    marking = λ a x t. t;
    visiting = visit-Truthful;
    stamping = fast-Truthful d;
  }

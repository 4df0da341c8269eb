-- ===== src/Daemon/Ticks/Outcomes.antt =====
-- What a visit of a slot can leave (src/schedmon.c: the loop over the slots in run_sampling_loop).
use capstone_monitor.Prelude.{
  ℕ, ◌≡◌, sym, refl, List, [], Option, none, some, ltb, Bool-cases, inl, inr, subst,
}
use capstone_monitor.Double.{Double}
use capstone_monitor.BpfMap.{BpfMaps}
use capstone_monitor.Perf.{Kernel, RawCounters}
use capstone_monitor.Tracer.{EbpfTracer, ebpf_tracer_read_io, ebpf_tracer_read_last_cpu}
use capstone_monitor.Daemon.{PidState, Slot, System}
use capstone_monitor.Daemon.Monad.{look}
use capstone_monitor.Daemon.Deltas.{
  Deltas, Reading, went_back, rebase, deltas, count_migration, end_migration, advance,
}
use capstone_monitor.Daemon.Sample.{
  push_sample, smooth, Sampled, gone, skipped, measured, sample_io, measure, accept, counters_read,
  sample,
}
use capstone_monitor.Daemon.Ticks.{Visit, renamed, publish, display, sampled, visit}

module _ {F : Type 0} where
  -- The slot with other bytes in its name.
  abbrev pub with_comm : List ℕ → Slot F → Slot F
  with_comm c x = record x { comm = c }

  abbrev pub with_state : PidState → Slot F → Slot F
  with_state st x = record x { state = st }

  renamed_comm :
      (found : Option (List ℕ)) (x : Slot F) → (c : List ℕ) × (renamed found x ≡ with_comm c x)
  unfolding renamed
  renamed_comm none x = (x.comm, refl)
  renamed_comm (some bytes) x = (bytes, refl)

module _ (d : Double) (dt : d.F) where
  open d use {F}

  -- The slot after the eight pushes, with its means.
  abbrev pub remeasured : Deltas → (migrations : ℕ) → PidState → Slot F → Slot F
  remeasured x n st slot =
      let y = with_state st (push_sample d dt x n slot) in record y { last_sm = smooth d y }

  pub data SampleOutcome (x : Slot F) : Sampled F → Type 0 where
    goes : SampleOutcome x gone
    stands : (st : PidState) → SampleOutcome x (skipped (with_state st x))
    moves :
        (x' : Deltas) (n : ℕ) (st : PidState) → SampleOutcome x (measured (remeasured x' n st x))

  pub data VisitOutcome (now_ns : ℕ) (x : Slot F) : Visit F → Type 0 where
    goes : VisitOutcome now_ns x none
    stands : (st : PidState) (n : ℕ) → VisitOutcome now_ns x (some (with_state st x, n, []))
    moves :
        (x' : Deltas) (m : ℕ) (st : PidState) (c : List ℕ) (n : ℕ)
        → VisitOutcome now_ns x
            (let y = publish d now_ns (remeasured x' m st x) in some (with_comm c y.0, n, y.1))

module _ (b : BpfMaps) (k : Kernel) (sys : System b k) (d : Double) (et : EbpfTracer)
    (dt : d.F) where
  open k use {State}
  open d use {F}

  accept-SampleOutcome :
      (x : Slot F) (r : Reading) (s : State) → SampleOutcome d dt x (accept b k sys d et dt x r s).0
  unfolding accept rebase measure
  accept-SampleOutcome x r s = elim (Bool-cases (went_back x.state r)) [
    | inl back ↦ rw back (SampleOutcome.stands _)
    | inr on ↦
        let io = sample_io b k sys x.state.pid x.state.io_fd s in
        let cur_io = look b k sys (ebpf_tracer_read_io b et x.state.pid) io.1 in
        let cpu = look b k sys (ebpf_tracer_read_last_cpu b et x.state.pid) cur_io.1 in
        rw on (
          SampleOutcome.moves (deltas x.state r io.0 cur_io.0) (count_migration x.state cpu.0)
            (end_migration (advance x.state r io.0 cur_io.0) cpu.0))
  ]

  counters_read-SampleOutcome :
      (x : Slot F) (hw : Option RawCounters) (s : State)
      → SampleOutcome d dt x (counters_read b k sys d et dt x hw s).0
  unfolding counters_read
  counters_read-SampleOutcome x none s = SampleOutcome.goes
  counters_read-SampleOutcome x (some hw) s = accept-SampleOutcome x _ _

  sample-SampleOutcome :
      (x : Slot F) (s : State) → SampleOutcome d dt x (sample b k sys d et dt x s).0
  unfolding sample
  sample-SampleOutcome x s = counters_read-SampleOutcome x _ _

  display_comm :
      (limit n : ℕ) (x : Slot F) (s : State)
      → (c : List ℕ) × ((display b k sys d et limit n x s).0.0 ≡ with_comm c x)
  unfolding display
  display_comm limit n x s = elim (Bool-cases (ltb n limit)) [
    | inl shown ↦ rw shown (renamed_comm _ x)
    | inr hidden ↦ rw hidden (x.comm, refl)
  ]

  sampled-VisitOutcome :
      (now_ns limit n : ℕ) (x : Slot F) {y : Sampled F} (s : State)
      → SampleOutcome d dt x y
      → VisitOutcome d dt now_ns x (sampled b k sys d et now_ns limit n y s).0
  unfolding sampled
  sampled-VisitOutcome now_ns limit n x s SampleOutcome.goes = VisitOutcome.goes
  sampled-VisitOutcome now_ns limit n x s (SampleOutcome.stands st) = VisitOutcome.stands st n
  sampled-VisitOutcome now_ns limit n x s (SampleOutcome.moves x' m st) =
      let y = publish d now_ns (remeasured d dt x' m st x) in
      let shown = display b k sys d et limit n y.0 s in
      let (c, e) = display_comm limit n y.0 s in
      subst (λ z. VisitOutcome d dt now_ns x (some (z, shown.0.1, y.1))) (sym e)
        (VisitOutcome.moves x' m st c shown.0.1)

  pub visit-VisitOutcome :
      (now_ns limit n : ℕ) (x : Slot F) (s : State)
      → VisitOutcome d dt now_ns x (visit b k sys d et dt now_ns limit n x s).0
  unfolding visit
  visit-VisitOutcome now_ns limit n x s =
      sampled-VisitOutcome now_ns limit n x _ (sample-SampleOutcome x s)

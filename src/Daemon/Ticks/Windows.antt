-- ===== src/Daemon/Ticks/Windows.antt =====
-- The windows of the slots over a whole run (src/schedmon.c: add_pid, run_sampling_loop;
-- src/sliding_window.c).
use capstone_monitor.Prelude.{ℕ, ◌≡◌, refl, List, Option, some, none, Bool-cases, inl, inr}
use capstone_monitor.Double.{Double}
use capstone_monitor.Metrics.{sm_is_active}
use capstone_monitor.Window.Valid.{IsValid, init-IsValid, push-IsValid}
use capstone_monitor.BpfMap.{BpfMaps}
use capstone_monitor.Perf.{Kernel}
use capstone_monitor.Tracer.{EbpfTracer}
use capstone_monitor.Scanner.Table.{Proc}
use capstone_monitor.Scanner.TopN.{Qsort}
use capstone_monitor.Daemon.{Slot, System}
use capstone_monitor.Daemon.Slots.{fill_slot}
use capstone_monitor.Daemon.Deltas.{Deltas}
use capstone_monitor.Daemon.Sample.{push_sample}
use capstone_monitor.Daemon.Sync.{DaemonConfig, Timespec}
use capstone_monitor.Daemon.Ticks.{Visit, is_fresh, fast_slot, publish, Loop, run_sampling_loop}
use capstone_monitor.Daemon.Ticks.Outcomes.{
  remeasured, VisitOutcome, goes, stands, moves, visit-VisitOutcome,
}
use capstone_monitor.Daemon.Ticks.Runs.{run_keeps}
use capstone_monitor.Daemon.Ticks.Each.{Each, Slotwise, Each-Steady}

module _ {F : Type 0} where
  pub record WindowsValid (x : Slot F) : Type 0 where
    pub ipc : IsValid (x.win_ipc)
    pub llc : IsValid (x.win_llc)
    pub ctx : IsValid (x.win_ctx)
    pub io : IsValid (x.win_io)
    pub io_wait : IsValid (x.win_io_wait)
    pub rq_wait : IsValid (x.win_rq_wait)
    pub migration : IsValid (x.win_migration)
    pub io_syscall : IsValid (x.win_io_syscall)

  -- A slot with the windows of another.
  like :
      (x y : Slot F)
      → x.win_ipc ≡ y.win_ipc
      → x.win_llc ≡ y.win_llc
      → x.win_ctx ≡ y.win_ctx
      → x.win_io ≡ y.win_io
      → x.win_io_wait ≡ y.win_io_wait
      → x.win_rq_wait ≡ y.win_rq_wait
      → x.win_migration ≡ y.win_migration
      → x.win_io_syscall ≡ y.win_io_syscall
      → WindowsValid y
      → WindowsValid x
  like x y ipc llc ctx io io_wait rq_wait migration io_syscall v = record {
    ipc = rw ipc v.ipc;
    llc = rw llc v.llc;
    ctx = rw ctx v.ctx;
    io = rw io v.io;
    io_wait = rw io_wait v.io_wait;
    rq_wait = rw rq_wait v.rq_wait;
    migration = rw migration v.migration;
    io_syscall = rw io_syscall v.io_syscall;
  }

  fast-WindowsValid :
      (now_ns : ℕ) (x : Slot F) → WindowsValid x → WindowsValid (fast_slot now_ns x).0
  unfolding fast_slot
  fast-WindowsValid now_ns x v = elim (Bool-cases (is_fresh now_ns x)) [
    | inl on ↦ rw on (like _ x refl refl refl refl refl refl refl refl v)
    | inr off ↦ rw off v
  ]

  abbrev Keeps : Slot F → Visit F → Type 0
  Keeps x none = Unit {0}
  Keeps x (some v) = WindowsValid x → WindowsValid v.0

module _ (d : Double) where
  open d use {F}

  push_sample-WindowsValid :
      (dt : F) (x' : Deltas) (m : ℕ) (x : Slot F)
      → WindowsValid x
      → WindowsValid (push_sample d dt x' m x)
  unfolding push_sample
  push_sample-WindowsValid dt x' m x v = record {
    ipc = push-IsValid d _ v.ipc;
    llc = push-IsValid d _ v.llc;
    ctx = push-IsValid d _ v.ctx;
    io = push-IsValid d _ v.io;
    io_wait = push-IsValid d _ v.io_wait;
    rq_wait = push-IsValid d _ v.rq_wait;
    migration = push-IsValid d _ v.migration;
    io_syscall = push-IsValid d _ v.io_syscall;
  }

  publish-WindowsValid :
      (now_ns : ℕ) (x : Slot F) → WindowsValid x → WindowsValid (publish d now_ns x).0
  unfolding publish
  publish-WindowsValid now_ns x v = elim (Bool-cases (sm_is_active d x.last_sm)) [
    | inl on ↦ rw on (like _ x refl refl refl refl refl refl refl refl v)
    | inr off ↦ rw off (like _ x refl refl refl refl refl refl refl refl v)
  ]

  VisitOutcome-Keeps :
      (dt : F) (now_ns : ℕ) (x : Slot F) {v : Visit F} → VisitOutcome d dt now_ns x v → Keeps x v
  VisitOutcome-Keeps dt now_ns x goes = tt
  VisitOutcome-Keeps dt now_ns x (stands st n) =
      λ v. like _ x refl refl refl refl refl refl refl refl v
  VisitOutcome-Keeps dt now_ns x (moves x' m st c n) = λ v.
      let y = remeasured d dt x' m st x in
      let measured : WindowsValid y =
        like y (push_sample d dt x' m x) refl refl refl refl refl refl refl refl
          (push_sample-WindowsValid dt x' m x v) in
      like _ (publish d now_ns y).0 refl refl refl refl refl refl refl refl
        (publish-WindowsValid now_ns y measured)

module _ (b : BpfMaps) (k : Kernel) (sys : System b k) (d : Double) (et : EbpfTracer) where
  open k use {State}
  open d use {F}

  WindowsValid-Slotwise : Slotwise b k sys d et WindowsValid
  unfolding fill_slot
  WindowsValid-Slotwise = record {
    filling = λ pid pc s.
        let v = init-IsValid d in
        record {
          ipc = v;
          llc = v;
          ctx = v;
          io = v;
          io_wait = v;
          rq_wait = v;
          migration = v;
          io_syscall = v;
        };
    marking = λ a x v. like _ x refl refl refl refl refl refl refl refl v;
    visiting = λ dt now_ns limit n x s v stays.
        let kept : Keeps x (some v) = rw stays at (
          VisitOutcome-Keeps d dt now_ns x
            (visit-VisitOutcome b k sys d et dt now_ns limit n x s)) in
        kept;
    stamping = fast-WindowsValid;
  }

  module _ (q : Qsort) (proc : State → Proc) (names : State → Option (List (List ℕ)))
      (cfg : DaemonConfig) where
    -- However long the loop runs, all eight windows of every slot are valid at its end, if those of
    -- the slots at the start are: the head is inside the buffer, and equal to the count while the
    -- buffer fills, the count is at most ten, and fewer than a hundred samples came since the sum
    -- was added up anew.
    pub run-WindowsValid :
        (times : List (Timespec × Timespec)) (l : Loop F) (s : State)
        → Each WindowsValid l.syncing.slots
        → Each WindowsValid
            (run_sampling_loop b k sys d et q proc names cfg times l s).0.syncing.slots
    run-WindowsValid times l s e =
        run_keeps b k sys d et (λ slots s. Each WindowsValid slots)
          (Each-Steady b k sys d et WindowsValid WindowsValid-Slotwise) q proc names cfg times l s e

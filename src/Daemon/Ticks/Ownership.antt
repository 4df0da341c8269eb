-- ===== src/Daemon/Ticks/Ownership.antt =====
-- From the start to cleanup, the table stays valid and no descriptor of a slot is lost (src/schedmon.c:
-- run_sampling_loop, cleanup).
use capstone_monitor.Prelude.{
  ℕ, ◌+◌, ◌-◌, ◌≤◌, ◌≡◌, ◌∙◌, ap, refl, List, [], ◌∷◌, Option, some, arith, set, get_elem?,
  Bool-cases, inl, inr,
}
use capstone_monitor.Prelude.Bits.{bit, bit_taken, bit_injective}
use capstone_monitor.Prelude.Indexed.{sum_of, sum_of-set, length-set, sum_of_ones, get-le-sum_of}
use capstone_monitor.Double.{Double}
use capstone_monitor.BpfMap.{BpfMaps}
use capstone_monitor.Perf.{Kernel, close_fd, perf_counter_close}
use capstone_monitor.Perf.Descriptors.{KernelLaws, is_at, holds, close_fd_lem, close_ends_held}
use capstone_monitor.Tracer.{EbpfTracer}
use capstone_monitor.Scanner.Table.{Proc}
use capstone_monitor.Scanner.TopN.{Qsort}
use capstone_monitor.Daemon.{Slot, System}
use capstone_monitor.Daemon.Slots.Valid.{IsTable, is_of}
use capstone_monitor.Daemon.Slots.Descriptors.{SystemLaws, held}
use capstone_monitor.Daemon.Slots.Ownership.{Owned}
use capstone_monitor.Daemon.Scan.Descriptors.{scan_keeps}
use capstone_monitor.Daemon.Sync.{DaemonConfig, Timespec}
use capstone_monitor.Daemon.Sync.Ownership.{IsTable-Kept, Owned-Kept}
use capstone_monitor.Daemon.Ticks.{
  visit, is_fresh, fast_slot, fast_path, Loop, run_sampling_loop, close_slots,
}
use capstone_monitor.Daemon.Ticks.Visits.{SameProcess, held_visited, visit_same, visit-bit}
use capstone_monitor.Daemon.Ticks.Runs.{Steady, run_keeps}

module _ {F : Type 0} where
  -- The fast path changes no sum that does not look at `last_sm`.
  sum_of-fast_path :
      (f : Slot F → ℕ) (now_ns : ℕ) (slots : List (Slot F))
      → ((x : Slot F) → f (fast_slot now_ns x).0 ≡ f x)
      → sum_of f (fast_path now_ns slots).0 ≡ sum_of f slots
  unfolding fast_path
  sum_of-fast_path f now_ns [] same = refl
  sum_of-fast_path f now_ns (x ∷ xs) same = omega (arith, same x, sum_of-fast_path f now_ns xs same)

  is_of_fast : (p now_ns : ℕ) (x : Slot F) → is_of p (fast_slot now_ns x).0 ≡ is_of p x
  unfolding fast_slot
  is_of_fast p now_ns x = elim (Bool-cases (is_fresh now_ns x)) [
    | inl on ↦ rw on refl
    | inr off ↦ rw off refl
  ]

  held_fast : (j now_ns : ℕ) (x : Slot F) → held j (fast_slot now_ns x).0 ≡ held j x
  unfolding fast_slot
  held_fast j now_ns x = elim (Bool-cases (is_fresh now_ns x)) [
    | inl on ↦ rw on refl
    | inr off ↦ rw off refl
  ]

  stamped-IsTable :
      (now_ns : ℕ) (slots : List (Slot F)) → IsTable slots → IsTable (fast_path now_ns slots).0
  stamped-IsTable now_ns slots t = record {
    distinct = λ p.
        omega (arith, sum_of-fast_path (is_of p) now_ns slots (is_of_fast p now_ns), t.distinct p);
    within =
        let one : Slot F → ℕ = λ _. 1 in
        omega (
          arith,
          sum_of-fast_path one now_ns slots (λ x. refl),
          sum_of_ones slots,
          sum_of_ones (fast_path now_ns slots).0,
          t.within,
        );
  }

  replaced-IsTable :
      (i : ℕ) (slots : List (Slot F)) (x y : Slot F)
      → get_elem? slots i ≡ some x
      → y.state.pid ≡ x.state.pid
      → IsTable slots
      → IsTable (set slots i y)
  replaced-IsTable i slots x y e same t = record {
    distinct = λ p.
        let one : is_of p y ≡ is_of p x = rw same refl in
        omega (arith, sum_of-set (is_of p) i slots y e, one, t.distinct p);
    within = omega (arith, length-set i slots y, t.within);
  }

module _ (b : BpfMaps) (k : Kernel) (sys : System b k) (d : Double) (et : EbpfTracer) where
  open k use {State}
  open d use {F}

  IsTable-Steady : Steady b k sys d et (λ slots s. IsTable slots)
  IsTable-Steady = record {
    kept = IsTable-Kept b k sys d et;
    leaving = λ dt now_ns limit i n slots s x e goes t. t;
    staying = λ dt now_ns limit i n slots s x v e stays t.
        let same : SameProcess x (some v) =
          rw stays at (visit_same b k sys d et dt now_ns limit n x s) in
        replaced-IsTable i slots x v.0 e same t;
    waiting = λ slots s t. t;
    scanning = λ proc names pids ps slots s t. t;
    stamping = λ now_ns slots s t. stamped-IsTable now_ns slots t;
  }

  module _ (q : Qsort) (proc : State → Proc) (names : State → Option (List (List ℕ)))
      (cfg : DaemonConfig) where
    -- From a table of at most MAX_PIDS slots, no two of them of the same process, however many
    -- ticks the sampling loop runs, the table is such a one again.
    pub run-IsTable :
        (times : List (Timespec × Timespec)) (l : Loop F) (s : State)
        → IsTable l.syncing.slots
        → IsTable (run_sampling_loop b k sys d et q proc names cfg times l s).0.syncing.slots
    run-IsTable times l s t =
        run_keeps b k sys d et (λ slots s. IsTable slots) IsTable-Steady q proc names cfg times l s
          t

module _ (b : BpfMaps) (k : Kernel) (laws : KernelLaws k) (sys : System b k)
    (more : SystemLaws laws sys) (d : Double) (et : EbpfTracer) where
  open k use {State}
  open laws use {is_open}
  open d use {F}

  -- What is open beside what the slot holds.
  visit-Owned :
      (dt : F) (now_ns limit i n : ℕ) (s₀ : State) (slots : List (Slot F)) (s : State) (x : Slot F)
      → get_elem? slots i ≡ some x
      → Owned b k laws sys more s₀ slots s
      → (j : ℕ)
      → let (v, s') = visit b k sys d et dt now_ns limit n x s in
        bit (is_open s' j) + held j x
        ≡ bit (is_open s₀ j) + sum_of (held j) slots + held_visited j x v
  visit-Owned dt now_ns limit i n s₀ slots s x e o j =
      let c = bit (is_open s₀ j) + sum_of (held j) slots - held j x in
      let least : held j x ≤ sum_of (held j) slots = get-le-sum_of (held j) i slots e in
      let start : bit (is_open s j) ≡ c + held j x = omega (arith, o j, least) in
      omega (arith, visit-bit b k laws sys more d et dt now_ns limit n x s j c start, least)

  Owned-Steady : (s₀ : State) → Steady b k sys d et (Owned b k laws sys more s₀)
  Owned-Steady s₀ = record {
    kept = Owned-Kept b k laws sys more d et s₀;
    leaving = λ dt now_ns limit i n slots s x e goes o j.
        let same : held_visited j x (visit b k sys d et dt now_ns limit n x s).0 ≡ held j x =
          rw goes refl in
        omega (arith, visit-Owned dt now_ns limit i n s₀ slots s x e o j, same);
    staying = λ dt now_ns limit i n slots s x v e stays o j.
        let same : held_visited j x (visit b k sys d et dt now_ns limit n x s).0 ≡ held j v.0 =
          rw stays refl in
        omega (
          arith,
          visit-Owned dt now_ns limit i n s₀ slots s x e o j,
          same,
          sum_of-set (held j) i slots v.0 e,
        );
    waiting = λ slots s o j. ap bit (more.later_keeps s j) ∙ o j;
    scanning = λ proc names pids ps slots s o j.
        ap bit (scan_keeps b k laws sys more proc names pids ps s j) ∙ o j;
    stamping = λ now_ns slots s o j.
        omega (arith, o j, sum_of-fast_path (held j) now_ns slots (held_fast j now_ns));
  }

  close_slots-Owned :
      (s₀ : State) (slots : List (Slot F)) (s : State)
      → Owned b k laws sys more s₀ slots s
      → (j : ℕ) → bit (is_open (close_slots k slots s) j) ≡ bit (is_open s₀ j)
  unfolding close_slots
  close_slots-Owned s₀ [] s o j = omega (arith, o j)
  close_slots-Owned s₀ (x ∷ xs) s o j = close_slots-Owned s₀ xs _ closed j
    where
      closed :
          Owned b k laws sys more s₀ xs (perf_counter_close k x.perf (close_fd k x.state.io_fd s)).1
      closed j =
          let s₁ = close_fd k x.state.io_fd s in
          let c = bit (is_open s₀ j) + sum_of (held j) xs in
          let middle : bit (is_open s₁ j) ≡ c + bit (holds x.perf j) =
            ap bit (close_fd_lem k laws x.state.io_fd s j)
            ∙ bit_taken (is_open s j) (is_at x.state.io_fd j) _ (omega (arith, o j)) in
          ap bit (close_ends_held k laws x.perf s₁ j)
          ∙ bit_taken (is_open s₁ j) (holds x.perf j) c middle

  module _ (q : Qsort) (proc : State → Proc) (names : State → Option (List (List ℕ)))
      (cfg : DaemonConfig) where
    -- From a start without slots, whatever the ticks opened for processes is closed by the end of
    -- cleanup's loop over the slots, and nothing else is: the same descriptors are open as at the start.
    -- It holds of a system whose calls open and close descriptors as documented.
    pub no_descriptor_leaks :
        (times : List (Timespec × Timespec)) (l : Loop F) (s : State)
        → l.syncing.slots ≡ []
        → let (l', s') = run_sampling_loop b k sys d et q proc names cfg times l s in
          (j : ℕ) → is_open (close_slots k l'.syncing.slots s') j ≡ is_open s j
    no_descriptor_leaks times l s empty j =
        let start : Owned b k laws sys more s l.syncing.slots s = λ i. rw empty (omega arith) in
        let owned =
          run_keeps b k sys d et (Owned b k laws sys more s) (Owned-Steady s) q proc names cfg times
            l s start in
        let (l', s') = run_sampling_loop b k sys d et q proc names cfg times l s in
        bit_injective _ _ (close_slots-Owned s l'.syncing.slots s' owned j)

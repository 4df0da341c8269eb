-- ===== src/Daemon/Slots/Ownership.antt =====
-- Every descriptor that the daemon opens for a process is held by one slot, and is closed with it
-- (src/schedmon.c: add_pid, remove_slot).
use capstone_monitor.Prelude.{
  ℕ, ◌+◌, ◌≡◌, ◌∙◌, ap, refl, List, [], ◌∷◌, ◌++◌, Option, none, some, arith, leb, length,
  get_elem?, Bool-cases, inl, inr,
}
use capstone_monitor.Prelude.Bits.{bit, bit_taken, bit_added}
use capstone_monitor.Prelude.Int.{pos, negsuc, eq_ℤ}
use capstone_monitor.Prelude.Indexed.{sum_of, sum_of-append}
use capstone_monitor.Double.{Double}
use capstone_monitor.BpfMap.{BpfMaps}
use capstone_monitor.Perf.{Kernel, PerfCounter, close_fd, perf_counter_open}
use capstone_monitor.Perf.Descriptors.{KernelLaws, is_at, holds, close_fd_lem, close_ends_held}
use capstone_monitor.Perf.Opening.{open_owns, close-open}
use capstone_monitor.Tracer.{
  EbpfTracer, ebpf_tracer_unregister_pid, ebpf_tracer_register_pid, ebpf_tracer_read_switches,
  ebpf_tracer_read_io, ebpf_tracer_read_io_wait_ns, ebpf_tracer_read_rq_wait_ns,
}
use capstone_monitor.Daemon.{Slot, System, max_pids}
use capstone_monitor.Daemon.Monad.{look, change, read_counters}
use capstone_monitor.Daemon.Slots.{
  open_proc_io_fd, read_io, first_comm, fill_slot, counters_opened, add_pid, remove_found,
  remove_slot, swap_out,
}
use capstone_monitor.Daemon.Slots.Table.{sum_of-swap_out}
use capstone_monitor.Daemon.Slots.Descriptors.{
  SystemLaws, held, change_keeps, look_keeps, read_counters_keeps, read_io_keeps, open_io_bit,
  first_comm_keeps,
}

module _ (b : BpfMaps) (k : Kernel) (laws : KernelLaws k) (sys : System b k)
    (more : SystemLaws laws sys) where
  open k use {State}
  open laws use {is_open}

  -- Beside what was open in `s₀`, exactly what the slots hold is open in `s`, each descriptor held once.
  abbrev pub Owned : {F : Type 0} → State → List (Slot F) → State → Type 0
  Owned s₀ slots s = (j : ℕ) → bit (is_open s j) ≡ bit (is_open s₀ j) + sum_of (held j) slots

  remove_found-Owned :
      {F : Type 0} (s₀ : State) (et : EbpfTracer) (i : ℕ) (slots : List (Slot F)) (s : State)
      {x : Slot F}
      → get_elem? slots i ≡ some x
      → Owned s₀ slots s
      → Owned s₀
          (remove_found b k sys et i slots (some x) s).0
          (remove_found b k sys et i slots (some x) s).1
  unfolding remove_found
  remove_found-Owned s₀ et i slots s {x} h o j =
      let s₁ =
        (change b k sys {A = Unit {0}} (λ ms. (tt, ebpf_tracer_unregister_pid b et x.state.pid ms))
          s).1 in
      let s₂ = close_fd k x.state.io_fd s₁ in
      let c₁ =
        change_keeps b k laws sys more {A = Unit {0}}
          (λ ms. (tt, ebpf_tracer_unregister_pid b et x.state.pid ms)) s j in
      let c₂ = close_fd_lem k laws x.state.io_fd s₁ j in
      let c₃ = close_ends_held k laws x.perf s₂ j in
      let out = sum_of-swap_out (held j) i slots h in
      let c = bit (is_open s₀ j) + sum_of (held j) (swap_out i slots) in
      let start : bit (is_open s₁ j) ≡ c + bit (holds x.perf j) + bit (is_at x.state.io_fd j) =
        ap bit c₁ ∙ omega (arith, o j) in
      let middle : bit (is_open s₂ j) ≡ c + bit (holds x.perf j) =
        ap bit c₂ ∙ bit_taken (is_open s₁ j) (is_at x.state.io_fd j) _ start in
      ap bit c₃ ∙ bit_taken (is_open s₂ j) (holds x.perf j) c middle

  -- remove_slot closes the descriptors of the slot that it takes out, and no others.
  pub remove_slot-Owned :
      {F : Type 0} (s₀ : State) (et : EbpfTracer) (i : ℕ) (slots : List (Slot F)) (s : State)
      → Owned s₀ slots s
      → Owned s₀ (remove_slot b k sys et i slots s).0 (remove_slot b k sys et i slots s).1
  unfolding remove_slot
  remove_slot-Owned s₀ et i slots s o = found (get_elem? slots i) refl
    where
      found :
          (r : Option (Slot _))
          → get_elem? slots i ≡ r
          → Owned s₀ (remove_found b k sys et i slots r s).0 (remove_found b k sys et i slots r s).1
      found none h = o
      found (some x) h = remove_found-Owned s₀ et i slots s h o

module _ (b : BpfMaps) (k : Kernel) (laws : KernelLaws k) (sys : System b k)
    (more : SystemLaws laws sys) (d : Double) (et : EbpfTracer) where
  open k use {State}
  open laws use {is_open}
  open d use {F}

  -- A new slot holds the counters that it was given, and the descriptor that add_pid opened for it.
  fill_slot_held :
      (pid : ℕ) (pc : PerfCounter) (s : State) (j : ℕ)
      → (bit (is_open (fill_slot b k sys d et pid pc s).1 j)
          ≡ bit (is_open s j) + bit (is_at (fill_slot b k sys d et pid pc s).0.state.io_fd j))
        × ((fill_slot b k sys d et pid pc s).0.perf ≡ pc)
  unfolding fill_slot
  fill_slot_held pid pc s j =
      let s₁ = (read_counters b k sys pc s).1 in
      let s₂ = (look b k sys (ebpf_tracer_read_switches b et pid) s₁).1 in
      let s₃ = (look b k sys (ebpf_tracer_read_io b et pid) s₂).1 in
      let s₄ = (look b k sys (ebpf_tracer_read_io_wait_ns b et pid) s₃).1 in
      let s₅ = (look b k sys (ebpf_tracer_read_rq_wait_ns b et pid) s₄).1 in
      let fd = (open_proc_io_fd b k sys pid s₅).0 in
      let s₆ = (open_proc_io_fd b k sys pid s₅).1 in
      let s₇ = (read_io b k sys fd 0 s₆).1 in
      let s₈ = (first_comm b k sys et pid s₇).1 in
      let kept₁ : is_open s₅ j ≡ is_open s j =
        look_keeps b k laws sys more (ebpf_tracer_read_rq_wait_ns b et pid) s₄ j
        ∙ look_keeps b k laws sys more (ebpf_tracer_read_io_wait_ns b et pid) s₃ j
        ∙ look_keeps b k laws sys more (ebpf_tracer_read_io b et pid) s₂ j
        ∙ look_keeps b k laws sys more (ebpf_tracer_read_switches b et pid) s₁ j
        ∙ read_counters_keeps b k laws sys more pc s j in
      let kept₂ =
        change_keeps b k laws sys more {A = Unit {0}}
          (λ ms. (tt, ebpf_tracer_register_pid b et pid ms)) s₈ j
        ∙ first_comm_keeps b k laws sys more et pid s₇ j
        ∙ read_io_keeps b k laws sys more fd 0 s₆ j in
      (
        ap bit kept₂
            ∙ open_io_bit b k laws sys more pid s₅ j
            ∙ ap (λ q. bit q + bit (is_at fd j)) kept₁,
        refl,
      )

  -- A filled slot behind the others accounts for what was opened.
  filled-Owned :
      (s₀ : State) (pid : ℕ) (slots : List (Slot F)) (s : State)
      → Owned b k laws sys more s₀ slots s
      → let r = perf_counter_open k pid (negsuc 0) s in
        let (x, s') = fill_slot b k sys d et pid r.counter r.kernel in
        Owned b k laws sys more s₀ (slots ++ x ∷ []) s'
  filled-Owned s₀ pid slots s o j =
      let r = perf_counter_open k pid (negsuc 0) s in
      let x = (fill_slot b k sys d et pid r.counter r.kernel).0 in
      let (e, p) = fill_slot_held pid r.counter r.kernel j in
      let (owns, apart) = open_owns k laws pid (negsuc 0) s j in
      let counters = bit_added (is_open s j) (holds r.counter j) (is_open r.kernel j) owns apart in
      let same : bit (holds x.perf j) ≡ bit (holds r.counter j) = ap (λ q. bit (holds q j)) p in
      omega (arith, e, counters, same, o j, sum_of-append (held j) slots (x ∷ []))

  counters_opened-Owned :
      (s₀ : State) (pid : ℕ) (slots : List (Slot F)) (s : State)
      → Owned b k laws sys more s₀ slots s
      → let r = counters_opened b k sys d et pid slots (perf_counter_open k pid (negsuc 0) s) in
        Owned b k laws sys more s₀ r.0.1 r.1
  unfolding counters_opened
  counters_opened-Owned s₀ pid slots s o j =
      elim (Bool-cases (eq_ℤ (perf_counter_open k pid (negsuc 0) s).ret (pos 0))) [
        | inl ok ↦ rw ok (filled-Owned s₀ pid slots s o j)
        | inr failed ↦ rw failed (ap bit (close-open k laws pid (negsuc 0) s j) ∙ o j)
      ]

  -- add_pid opens the descriptors of the slot that it adds, and when it returns -1 none stays open.
  pub add_pid-Owned :
      (s₀ : State) (pid : ℕ) (slots : List (Slot F)) (s : State)
      → Owned b k laws sys more s₀ slots s
      → Owned b k laws sys more s₀
          (add_pid b k sys d et pid slots s).0.1
          (add_pid b k sys d et pid slots s).1
  unfolding add_pid
  add_pid-Owned s₀ pid slots s o j = elim (Bool-cases (leb max_pids (length slots))) [
    | inl full ↦ rw full (o j)
    | inr room ↦ rw room (counters_opened-Owned s₀ pid slots s o j)
  ]

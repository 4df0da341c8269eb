-- ===== src/Daemon/Sync/Ownership.antt =====
-- sync_pids keeps the table valid and the descriptors accounted for (src/schedmon.c: sync_pids).
use capstone_monitor.Prelude.{
  ℕ, ◌≡◌, refl, List, map, Option, arith, get_elem?, Option-cases, inl, inr,
}
use capstone_monitor.Prelude.Indexed.{sum_of, sum_of_ones}
use capstone_monitor.Double.{Double}
use capstone_monitor.BpfMap.{BpfMaps}
use capstone_monitor.Perf.{Kernel}
use capstone_monitor.Perf.Descriptors.{KernelLaws}
use capstone_monitor.Tracer.{EbpfTracer}
use capstone_monitor.Scanner.Table.{Proc}
use capstone_monitor.Scanner.TopN.{Qsort}
use capstone_monitor.Daemon.{Slot, System}
use capstone_monitor.Daemon.Slots.{remove_slot, remove_found}
use capstone_monitor.Daemon.Slots.Valid.{
  IsTable, is_of, find_slot-none, add_pid-IsTable, swap_out-IsTable, remove_slot_lem,
}
use capstone_monitor.Daemon.Slots.Descriptors.{SystemLaws, held}
use capstone_monitor.Daemon.Slots.Ownership.{Owned, add_pid-Owned, remove_slot-Owned}
use capstone_monitor.Daemon.Sync.{mark, set_active, DaemonConfig, Timespec, Syncing, sync_pids}
use capstone_monitor.Daemon.Sync.Loops.{sum_of-set_active, sum_of-map-mark, Kept, sync_pids_keeps}

module _ {F : Type 0} where
  -- A change of the table that changes neither the number of slots nor a process's number of slots.
  relabelled-IsTable :
      (slots slots' : List (Slot F))
      → ((f : Slot F → ℕ)
          → ((a : ℕ) (x : Slot F) → f (mark a x) ≡ f x)
          → sum_of f slots' ≡ sum_of f slots)
      → IsTable slots
      → IsTable slots'
  relabelled-IsTable slots slots' same t = record {
    distinct = λ p. omega (arith, same (is_of p) (λ a x. refl), t.distinct p);
    within =
        let one : Slot F → ℕ = λ _. 1 in
        omega (arith, same one (λ a x. refl), sum_of_ones slots, sum_of_ones slots', t.within);
  }

module _ (b : BpfMaps) (k : Kernel) (sys : System b k) (d : Double) (et : EbpfTracer) where
  open k use {State}
  open d use {F}

  remove_slot-IsTable :
      (i : ℕ) (slots : List (Slot F)) (s : State)
      → IsTable slots
      → IsTable (remove_slot b k sys et i slots s).0
  unfolding remove_slot
  remove_slot-IsTable i slots s t = elim (Option-cases (get_elem? slots i)) [
    | inl e ↦ rw (e, remove_found) t
    | inr (x, e) ↦ rw (remove_slot_lem b k sys d et i slots s e) (swap_out-IsTable i slots e t)
  ]

  pub IsTable-Kept : Kept b k sys d et (λ slots s. IsTable slots)
  IsTable-Kept = record {
    adding =
        λ p slots s new t. add_pid-IsTable b k sys d et p slots s (find_slot-none p slots new) t;
    removing = remove_slot-IsTable;
    marking = λ a i slots s t.
        relabelled-IsTable slots (set_active a i slots)
          (λ f same. sum_of-set_active f a i slots (same a)) t;
    clearing = λ slots s t.
        relabelled-IsTable slots (map (mark 0) slots) (λ f same. sum_of-map-mark f 0 slots (same 0))
          t;
  }

  module _ (q : Qsort) (proc : State → Proc) (names : State → Option (List (List ℕ)))
      (cfg : DaemonConfig) where
    -- sync_pids leaves at most MAX_PIDS slots, no two of them of the same process, in either mode.
    pub sync_pids-IsTable :
        (now : Timespec) (st : Syncing F) (s : State)
        → IsTable st.slots
        → IsTable (sync_pids b k sys d et q proc names cfg now st s).0.slots
    sync_pids-IsTable now st s t =
        sync_pids_keeps b k sys d et (λ slots s. IsTable slots) IsTable-Kept q proc names cfg
          (λ ps slots s h. h) now st s t

module _ (b : BpfMaps) (k : Kernel) (laws : KernelLaws k) (sys : System b k)
    (more : SystemLaws laws sys) (d : Double) (et : EbpfTracer) where
  open k use {State}
  open d use {F}

  pub Owned-Kept : (s₀ : State) → Kept b k sys d et (Owned b k laws sys more s₀)
  Owned-Kept s₀ = record {
    adding = λ p slots s new o. add_pid-Owned b k laws sys more d et s₀ p slots s o;
    removing = λ i slots s o. remove_slot-Owned b k laws sys more s₀ et i slots s o;
    marking =
        λ a i slots s o j. omega (arith, o j, sum_of-set_active (held j) a i slots (λ x. refl));
    clearing = λ slots s o j. omega (arith, o j, sum_of-map-mark (held j) 0 slots (λ x. refl));
  }

-- ===== src/Daemon/Sync/Tests.antt =====
-- A process that comes onto the list.
use capstone_monitor.Prelude.{
  ℕ, zero, suc, ◌≤◌, ◌≡◌, ap, refl, List, [], ◌∷◌, ◌++◌, true, some, arith, length, inl, inr, ◌==◌,
  get_elem?, Bool-cases,
}
use capstone_monitor.Window.Whole.{whole}
use capstone_monitor.BpfMap.Assoc.{assoc_maps}
use capstone_monitor.Perf.{Kernel, opened, perf_counter_open, start_group}
use capstone_monitor.Perf.Small.{small_kernel}
use capstone_monitor.Daemon.{Slot, System}
use capstone_monitor.Daemon.Slots.Valid.{IsTable, count_pid}
use capstone_monitor.Daemon.Sync.{mark, sync_top}
use capstone_monitor.Daemon.Sync.Newcomers.{HasSlot, CountersOpen, newcomers_get_slots}
use capstone_monitor.Daemon.Sync.Full.{Had, full_table_takes_nobody}
use capstone_monitor.Daemon.Sync.Top.{chosen_stay}
use capstone_monitor.Daemon.Small.{slot_of, tracer, small_system, two_slots, two_slots-IsTable}

-- It never runs out of descriptors.
abbrev roomy : Kernel
roomy = record (small_kernel 9) {
  perf_event_open = λ attr pid cpu group_fd bs. (opened (length bs), bs ++ true ∷ []);
}

abbrev roomy_system : System assoc_maps roomy
roomy_system = record {
  maps = small_system.maps;
  put_maps = small_system.put_maps;
  later = small_system.later;
  open_proc = small_system.open_proc;
  open_dir = small_system.open_dir;
  read_proc = small_system.read_proc;
  is_gone = small_system.is_gone;
  stack = small_system.stack;
}

roomy-CountersOpen : CountersOpen assoc_maps roomy roomy_system whole tracer
unfolding perf_counter_open start_group
roomy-CountersOpen pid s = refl

-- Process 60 is new, and 40 has a slot.
newcomers_get_slots_example :
    HasSlot 60 (sync_top assoc_maps roomy roomy_system whole tracer (40 ∷ 60 ∷ []) two_slots []).0
newcomers_get_slots_example =
    newcomers_get_slots assoc_maps roomy roomy_system whole tracer (40 ∷ 60 ∷ []) two_slots [] 60
      two_slots-IsTable roomy-CountersOpen (omega arith) (inr (inl refl))

-- Slots of the processes below `n`.
abbrev many : (n : ℕ) → List (Slot ℕ)
many zero = []
many (suc n) = slot_of n ∷ many n

length-many : (n : ℕ) → length (many n) ≡ n
length-many zero = refl
length-many (suc n) = ap suc (length-many n)

many_without : (n p : ℕ) → n ≤ p → count_pid p (many n) ≡ 0
many_without zero p h = refl
many_without (suc n) p h = ground (arith, many_without n p (omega arith))

many_once : (n p : ℕ) → count_pid p (many n) ≤ 1
many_once zero p = omega arith
many_once (suc n) p = elim (Bool-cases (n == p)) [
  | inl it ↦ ground (arith, many_without n p (ground arith))
  | inr other ↦ ground (arith, many_once n p)
]

many-IsTable : IsTable (many 256)
many-IsTable = record { distinct = many_once 256; within = omega (arith, length-many 256) }

abbrev synced : List (Slot ℕ)
synced = (sync_top assoc_maps roomy roomy_system whole tracer (40 ∷ 600 ∷ []) (many 256) []).0

-- Process 600 waits, and 40 stays.
full_table_takes_nobody_example : Had (many 256) (mark 1 (slot_of 40))
full_table_takes_nobody_example =
    full_table_takes_nobody assoc_maps roomy roomy_system whole tracer (40 ∷ 600 ∷ []) (many 256) []
      (stays.0) {y = mark 1 (slot_of 40)} (length-many 256) (stays.1)
  where
    stays : (n : ℕ) × (get_elem? synced n ≡ some (mark 1 (slot_of 40)))
    stays =
        chosen_stay assoc_maps roomy roomy_system whole tracer (40 ∷ 600 ∷ []) (many 256) [] 215
          {x = slot_of 40} many-IsTable refl (inl refl)

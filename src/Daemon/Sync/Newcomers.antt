-- ===== src/Daemon/Sync/Newcomers.antt =====
-- The slot of a process that comes onto the list (src/schedmon.c: sync_pids, add_pid).
use capstone_monitor.Prelude.{
  ℕ, suc, ◌+◌, ◌≤◌, ◌<◌, ◌≡◌, ◌∙◌, ap, sym, refl, List, [], ◌∷◌, map, some, arith, length,
  get_elem?, Option-cases, inl, inr, length-append, false, leb,
}
use capstone_monitor.Prelude.Int.{pos, negsuc}
use capstone_monitor.Prelude.Indexed.{length-set, get-set_self, get-append_last}
use capstone_monitor.Double.{Double}
use capstone_monitor.BpfMap.{BpfMaps}
use capstone_monitor.Perf.{Kernel, perf_counter_open}
use capstone_monitor.Tracer.{EbpfTracer}
use capstone_monitor.Daemon.{Slot, System, max_pids}
use capstone_monitor.Daemon.Slots.{find_slot, counters_opened, add_pid, fill_slot}
use capstone_monitor.Daemon.Slots.Members.{In}
use capstone_monitor.Daemon.Slots.Valid.{IsTable, find_slot-some}
use capstone_monitor.Daemon.Sync.{mark, set_active, mark_added, track_found, track_all, sync_top}
use capstone_monitor.Daemon.Sync.Prune.{loop_keeps}
use capstone_monitor.Daemon.Sync.Tracked.{
  Listed, set_active_lem, body, body-IsTable, track_all_stays,
}
use capstone_monitor.Daemon.Sync.Top.{idle, sync_top_lem, cleared-IsTable}

module _ {F : Type 0} where
  -- The process has a slot that is marked active.
  abbrev pub HasSlot : ℕ → List (Slot F) → Type 0
  HasSlot p slots = (y : Slot F) × In y slots × (y.state.pid ≡ p) × (y.state.active ≡ 1)

  marked-HasSlot :
      (p i : ℕ) (slots : List (Slot F)) (x : Slot F)
      → get_elem? slots i ≡ some x
      → x.state.pid ≡ p
      → HasSlot p (set_active 1 i slots)
  marked-HasSlot p i slots x h px = (
    mark 1 x,
    (i, ap (λ q. get_elem? q i) (set_active_lem i slots h) ∙ get-set_self i slots (mark 1 x) h),
    px,
    refl,
  )

  pub length-set_active :
      (i : ℕ) (slots : List (Slot F)) {x : Slot F}
      → get_elem? slots i ≡ some x
      → length (set_active 1 i slots) ≡ length slots
  length-set_active i slots {x} h =
      ap length (set_active_lem i slots h) ∙ length-set i slots (mark 1 x)

  pub length-clear : (slots : List (Slot F)) → length (map (mark 0) slots) ≡ length slots
  length-clear [] = refl
  length-clear (x ∷ xs) = ap suc (length-clear xs)

module _ (b : BpfMaps) (k : Kernel) (sys : System b k) (d : Double) (et : EbpfTracer) where
  open k use {State}
  open d use {F}

  -- The counters of every process can be opened.
  abbrev pub CountersOpen : Type 0
  CountersOpen = (pid : ℕ) (s : State) → (perf_counter_open k pid (negsuc 0) s).ret ≡ pos 0

  added-HasSlot :
      (p : ℕ) (slots : List (Slot F)) (s : State)
      → CountersOpen
      → length slots < max_pids
      → let r = (add_pid b k sys d et p slots s).0 in
        HasSlot p (mark_added r.0 r.1) × (length (mark_added r.0 r.1) ≤ length slots + 1)
  unfolding add_pid counters_opened mark_added fill_slot
  added-HasSlot p slots s opens room =
      let full : leb max_pids (length slots) ≡ false = ground arith in
      rw (full, opens p s)
        (
          marked-HasSlot p (length slots) _ _ (get-append_last slots _) refl,
          omega (
            arith,
            length-set_active (length slots) _ (get-append_last slots _),
            length-append slots _,
          ),
        )

  -- What the body of the loop for `p` leaves.
  body-HasSlot :
      (p : ℕ) (slots : List (Slot F)) (s : State)
      → CountersOpen
      → length slots < max_pids
      → let slots' = (body b k sys d et p slots s).0 in
        HasSlot p slots' × (length slots' ≤ length slots + 1)
  unfolding body track_found
  body-HasSlot p slots s opens room = elim (Option-cases (find_slot p slots)) [
    | inl new ↦ rw (new, track_found) (added-HasSlot p slots s opens room)
    | inr (i, old) ↦
        let (x, h, px) = find_slot-some p slots old in
        rw (old, track_found)
          (marked-HasSlot p i slots x h px, omega (arith, length-set_active i slots h))
  ]

  track_all_gives :
      (top : List ℕ) (slots : List (Slot F)) (s : State) (p : ℕ)
      → IsTable slots
      → CountersOpen
      → length slots + length top ≤ max_pids
      → Listed p top
      → HasSlot p (track_all b k sys d et top slots s).0
  unfolding track_all body
  track_all_gives [] slots s p t opens room l = absurd l
  track_all_gives (q ∷ top) slots s p t opens room l =
      let (here, more) = body-HasSlot q slots s opens (omega arith) in
      let t' = body-IsTable b k sys d et q slots s t in
      elim l [
        | inl is ↦
            let (y, e, py, a) = here in
            elim (track_all_stays b k sys d et top _ _ y t' e) [
              | inl kept ↦ (y, kept, py ∙ sym is, a)
              | inr kept ↦ (mark 1 y, kept, py ∙ sym is, refl)
            ]
        | inr later ↦ track_all_gives top _ _ p t' opens (omega arith) later
      ]

  -- From a valid table, if the counters of every process can be opened and there is room for all of
  -- the list beside the slots that the table has, every process of the list has a slot, marked
  -- active, once sync_pids has worked through the list.
  pub newcomers_get_slots :
      (top : List ℕ) (slots : List (Slot F)) (s : State) (p : ℕ)
      → IsTable slots
      → CountersOpen
      → length slots + length top ≤ max_pids
      → Listed p top
      → HasSlot p (sync_top b k sys d et top slots s).0
  newcomers_get_slots top slots s p t opens room l =
      let marked = track_all b k sys d et top (map (mark 0) slots) s in
      let (y, e, py, a) =
        track_all_gives top (map (mark 0) slots) s p (cleared-IsTable b k sys d et slots s t) opens
          (omega (arith, length-clear slots)) l in
      let active : idle b k sys d et y ≡ false = ground arith in
      rw (sync_top_lem b k sys d et top slots s) (
        y,
        loop_keeps b k sys d et (idle b k sys d et) (length marked.0) 0 marked.0 marked.1 {y = y}
            active e,
        py,
        a,
      )

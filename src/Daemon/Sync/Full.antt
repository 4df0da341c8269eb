-- ===== src/Daemon/Sync/Full.antt =====
-- A table without room when the list of processes changes (src/schedmon.c: sync_pids, add_pid).
use capstone_monitor.Prelude.{
  ℕ, zero, suc, ◌≡◌, ◌∙◌, ap, sym, refl, List, [], ◌∷◌, map, none, some, true, arith, length,
  get_elem?, Option-cases, inl, inr, leb,
}
use capstone_monitor.Double.{Double}
use capstone_monitor.BpfMap.{BpfMaps}
use capstone_monitor.Perf.{Kernel}
use capstone_monitor.Tracer.{EbpfTracer}
use capstone_monitor.Daemon.{Slot, System, max_pids}
use capstone_monitor.Daemon.Slots.{find_slot, add_pid}
use capstone_monitor.Daemon.Slots.Members.{In}
use capstone_monitor.Daemon.Slots.Valid.{find_slot-some}
use capstone_monitor.Daemon.Sync.{mark, mark_added, track_found, track_all, sync_top}
use capstone_monitor.Daemon.Sync.Prune.{loop, loop-In}
use capstone_monitor.Daemon.Sync.Tracked.{body, set_active_cases}
use capstone_monitor.Daemon.Sync.Top.{idle, sync_top_lem}
use capstone_monitor.Daemon.Sync.Newcomers.{length-set_active, length-clear}

module _ {F : Type 0} where
  -- A slot of the same process stands in the table.
  abbrev pub Had : List (Slot F) → Slot F → Type 0
  Had slots y = (x : Slot F) × In x slots × (x.state.pid ≡ y.state.pid)

  cleared-Had : (slots : List (Slot F)) (y : Slot F) → In y (map (mark 0) slots) → Had slots y
  cleared-Had [] y (m, h) = absurd (ground arith)
  cleared-Had (x ∷ xs) y (zero, h) =
      let it : mark 0 x ≡ y = cc in (x, (zero, refl), ap (λ (q : Slot F). q.state.pid) it)
  cleared-Had (x ∷ xs) y (suc m, h) =
      let (z, (n, e), same) = cleared-Had xs y (m, h) in (z, (suc n, e), same)

module _ (b : BpfMaps) (k : Kernel) (sys : System b k) (d : Double) (et : EbpfTracer) where
  open k use {State}
  open d use {F}

  refused_when_full :
      (p : ℕ) (slots : List (Slot F)) (s : State)
      → length slots ≡ max_pids
      → (add_pid b k sys d et p slots s).0 ≡ (none, slots)
  unfolding add_pid
  refused_when_full p slots s full =
      let over : leb max_pids (length slots) ≡ true = ground arith in rw over refl

  -- The body of the loop for one process keeps the table full, with slots of the same processes.
  body-Had :
      (p : ℕ) (slots : List (Slot F)) (s : State) (y : Slot F)
      → length slots ≡ max_pids
      → let slots' = (body b k sys d et p slots s).0 in
        (length slots' ≡ max_pids) × (In y slots' → Had slots y)
  unfolding body track_found mark_added
  body-Had p slots s y full = elim (Option-cases (find_slot p slots)) [
    | inl new ↦ rw (new, track_found, refused_when_full p slots s full) (full, λ e. (y, e, refl))
    | inr (i, old) ↦
        let (x, h, px) = find_slot-some p slots old in
        rw (old, track_found)
          (
            length-set_active i slots h ∙ full,
            λ e. elim (set_active_cases i slots h e) [
              | inl there ↦ (y, there, refl)
              | inr it ↦ (x, (i, h), ap (λ (q : Slot F). q.state.pid) (sym it))
            ],
          )
  ]

  track_all-Had :
      (top : List ℕ) (slots : List (Slot F)) (s : State) (y : Slot F)
      → length slots ≡ max_pids
      → In y (track_all b k sys d et top slots s).0
      → Had slots y
  unfolding track_all body
  track_all-Had [] slots s y full e = (y, e, refl)
  track_all-Had (p ∷ top) slots s y full e =
      let (slots', s') = body b k sys d et p slots s in
      let (full', h) = body-Had p slots s y full in
      let (x, there, same) = track_all-Had top slots' s' y full' e in
      let (z, here, same') = (body-Had p slots s x full).1 there in (z, here, same' ∙ same)

  -- When all MAX_PIDS slots are taken, every slot that is there after a synchronisation with a list is
  -- of a process that had one before, though the synchronisation removes slots.
  pub full_table_takes_nobody :
      (top : List ℕ) (slots : List (Slot F)) (s : State) (m : ℕ) {y : Slot F}
      → length slots ≡ max_pids
      → get_elem? (sync_top b k sys d et top slots s).0 m ≡ some y
      → (x : Slot F) × In x slots × (x.state.pid ≡ y.state.pid)
  full_table_takes_nobody top slots s m {y} full h =
      let marked = track_all b k sys d et top (map (mark 0) slots) s in
      let gone = idle b k sys d et in
      let e : In y (loop b k sys d et gone (length marked.0) 0 marked.0 marked.1).0 =
        (m, rw (sync_top_lem b k sys d et top slots s) at h) in
      let before = loop-In b k sys d et gone (length marked.0) 0 marked.0 marked.1 e in
      let (x, there, same) =
        track_all-Had top (map (mark 0) slots) s y (length-clear slots ∙ full) before in
      let (z, here, same') = cleared-Had slots x there in (z, here, same' ∙ same)

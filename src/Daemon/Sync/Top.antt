-- ===== src/Daemon/Sync/Top.antt =====
-- Who has a slot after sync_pids, when the daemon was started without --pids (src/schedmon.c:
-- sync_pids).
use capstone_monitor.Prelude.{
  ℕ, zero, suc, ◌≡◌, ◌≢◌, ap, sym, refl, Bool, List, [], ◌∷◌, map, false, some, arith, length,
  get_elem?, inl, inr, ◌==◌,
}
use capstone_monitor.Double.{Double}
use capstone_monitor.BpfMap.{BpfMaps}
use capstone_monitor.Perf.{Kernel}
use capstone_monitor.Tracer.{EbpfTracer}
use capstone_monitor.Daemon.{Slot, System}
use capstone_monitor.Daemon.Slots.Members.{In}
use capstone_monitor.Daemon.Slots.Valid.{IsTable}
use capstone_monitor.Daemon.Sync.{mark, track_all, sync_top}
use capstone_monitor.Daemon.Sync.Ownership.{IsTable-Kept}
use capstone_monitor.Daemon.Sync.Prune.{loop, loop-Clean, loop-In, loop_keeps}
use capstone_monitor.Daemon.Sync.Tracked.{Listed, track_all_from, track_all_marks}

module _ {F : Type 0} where
  cleared : (slots : List (Slot F)) (y : Slot F) → In y (map (mark 0) slots) → y.state.active ≡ 0
  cleared [] y (m, h) = absurd (ground arith)
  cleared (x ∷ xs) y (zero, h) =
      let it : mark 0 x ≡ y = cc in ap (λ (q : Slot F). q.state.active) (sym it)
  cleared (x ∷ xs) y (suc m, h) = cleared xs y (m, h)

  get-map-mark :
      (m : ℕ) (slots : List (Slot F)) {x : Slot F}
      → get_elem? slots m ≡ some x
      → get_elem? (map (mark 0) slots) m ≡ some (mark 0 x)
  get-map-mark m [] h = absurd (ground arith)
  get-map-mark zero (y ∷ xs) {x} h = let it : y ≡ x = cc in ap (λ q. some (mark 0 q)) it
  get-map-mark (suc m) (y ∷ xs) h = get-map-mark m xs h

module _ (b : BpfMaps) (k : Kernel) (sys : System b k) (d : Double) (et : EbpfTracer) where
  open k use {State}
  open d use {F}

  abbrev pub idle : Slot F → Bool
  idle x = x.state.active == 0

  pub sync_top_lem :
      (top : List ℕ) (slots : List (Slot F)) (s : State)
      → let marked = track_all b k sys d et top (map (mark 0) slots) s in
        sync_top b k sys d et top slots s
        ≡ loop b k sys d et idle (length marked.0) 0 marked.0 marked.1
  unfolding sync_top loop
  sync_top_lem top slots s = refl

  pub cleared-IsTable :
      (slots : List (Slot F)) (s : State) → IsTable slots → IsTable (map (mark 0) slots)
  cleared-IsTable slots s t = (IsTable-Kept b k sys d et).clearing slots s t

  -- From a valid table, after sync_pids has worked through a list of processes every slot is marked
  -- active and its process is on the list.
  pub tracked_are_chosen :
      (top : List ℕ) (slots : List (Slot F)) (s : State) (m : ℕ) {y : Slot F}
      → IsTable slots
      → get_elem? (sync_top b k sys d et top slots s).0 m ≡ some y
      → Listed y.state.pid top × (y.state.active ≢ 0)
  tracked_are_chosen top slots s m {y} t h =
      let marked = track_all b k sys d et top (map (mark 0) slots) s in
      let e : In y (loop b k sys d et idle (length marked.0) 0 marked.0 marked.1).0 =
        (m, rw (sync_top_lem top slots s) at h) in
      let active : idle y ≡ false =
        loop-Clean b k sys d et idle (length marked.0) 0 marked.0 marked.1 (omega arith)
          (λ j z lt q. absurd (omega arith)) e in
      let before = loop-In b k sys d et idle (length marked.0) 0 marked.0 marked.1 e in
      let ne : y.state.active ≢ 0 = ground arith in
      elim (track_all_from b k sys d et top (map (mark 0) slots) s y (cleared-IsTable slots s t)
        before) [ inl listed ↦ (listed, ne) | inr old ↦ absurd (ne (cleared slots y old)) ]

  -- From a valid table, a process of the list that had a slot has it still when sync_pids has
  -- worked through the list, with everything in it but the mark, wherever it stands in the table.
  pub chosen_stay :
      (top : List ℕ) (slots : List (Slot F)) (s : State) (m : ℕ) {x : Slot F}
      → IsTable slots
      → get_elem? slots m ≡ some x
      → Listed x.state.pid top
      → (n : ℕ) × (get_elem? (sync_top b k sys d et top slots s).0 n ≡ some (mark 1 x))
  chosen_stay top slots s m {x} t h l =
      let marked = track_all b k sys d et top (map (mark 0) slots) s in
      let e =
        track_all_marks b k sys d et top (map (mark 0) slots) s (mark 0 x)
          (cleared-IsTable slots s t) (m, get-map-mark m slots h) l in
      rw (sync_top_lem top slots s)
        (loop_keeps b k sys d et idle (length marked.0) 0 marked.0 marked.1 {y = mark 1 x} refl e)

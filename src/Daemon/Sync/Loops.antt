-- ===== src/Daemon/Sync/Loops.antt =====
-- The loops of sync_pids keep whatever add_pid, remove_slot and the writes of `active` keep
-- (src/schedmon.c: sync_pids).
use capstone_monitor.Prelude.{
  ℕ, zero, suc, ◌+◌, ◌≡◌, refl, List, [], ◌∷◌, map, Bool, Option, none, some, arith, length,
  get_elem?, Option-cases, Bool-cases, inl, inr, if◌then◌else◌, ltb, leb, ◌||◌,
}
use capstone_monitor.Prelude.Indexed.{sum_of, sum_of-set}
use capstone_monitor.Double.{Double}
use capstone_monitor.BpfMap.{BpfMaps}
use capstone_monitor.Perf.{Kernel}
use capstone_monitor.Tracer.{EbpfTracer}
use capstone_monitor.Scanner.Table.{Proc, ProcScanner}
use capstone_monitor.Scanner.TopN.{Qsort, proc_scanner_top_n}
use capstone_monitor.Daemon.{Slot, System, max_pids}
use capstone_monitor.Daemon.Scan.{scan}
use capstone_monitor.Daemon.Slots.{find_slot, add_pid, remove_slot}
use capstone_monitor.Daemon.Sync.{
  mark, mark_at, set_active, mark_added, prune, track_found, track_all, sync_top, add_found,
  add_missing, sync_named, DaemonConfig, Timespec, Syncing, sync_slots, sync_pids, to_ns,
}

module _ {F : Type 0} where
  -- A write of `active` changes no sum that does not look at it.
  pub sum_of-set_active :
      (f : Slot F → ℕ) (a i : ℕ) (slots : List (Slot F))
      → ((x : Slot F) → f (mark a x) ≡ f x)
      → sum_of f (set_active a i slots) ≡ sum_of f slots
  unfolding set_active
  sum_of-set_active f a i slots same = after (get_elem? slots i) refl
    where
      after :
          (r : Option (Slot F))
          → get_elem? slots i ≡ r
          → sum_of f (mark_at a i slots r) ≡ sum_of f slots
      after none h = refl
      after (some x) h = omega (arith, sum_of-set f i slots (mark a x) h, same x)

  pub sum_of-map-mark :
      (f : Slot F → ℕ) (a : ℕ) (slots : List (Slot F))
      → ((x : Slot F) → f (mark a x) ≡ f x)
      → sum_of f (map (mark a) slots) ≡ sum_of f slots
  sum_of-map-mark f a [] same = refl
  sum_of-map-mark f a (x ∷ xs) same = omega (arith, same x, sum_of-map-mark f a xs same)

module _ (b : BpfMaps) (k : Kernel) (sys : System b k) {F : Type 0} (et : EbpfTracer)
    (goes : Slot F → k.State → Bool) (P : List (Slot F) → k.State → Type 0)
    (removal : (i : ℕ) (slots : List (Slot F)) (s : k.State)
      → P slots s
      → P (remove_slot b k sys et i slots s).0 (remove_slot b k sys et i slots s).1) where
  open k use {State}

  pub prune_keeps :
      (fuel i : ℕ) (slots : List (Slot F)) (s : State)
      → P slots s
      → P (prune b k sys et goes fuel i slots s).0 (prune b k sys et goes fuel i slots s).1
  unfolding prune
  prune_keeps zero i slots s h = h
  prune_keeps (suc fuel) i slots s h = elim (Option-cases (get_elem? slots i)) [
    | inl e ↦ rw (e, prune) h
    | inr (x, e) ↦ elim (Bool-cases (goes x s)) [
      | inl g ↦ rw (e, prune, g) (prune_keeps fuel i _ _ (removal i slots s h))
      | inr g ↦ rw (e, prune, g) (prune_keeps fuel (suc i) slots s h)
    ]
  ]

module _ (b : BpfMaps) (k : Kernel) (sys : System b k) (d : Double) (et : EbpfTracer) where
  open k use {State}
  open d use {F}

  -- What the calls that the loops make leave true of the table and the system.
  pub record Kept (P : List (Slot F) → State → Type 0) : Type 0 where
    pub adding :
        (p : ℕ) (slots : List (Slot F)) (s : State)
        → find_slot p slots ≡ none
        → P slots s
        → P (add_pid b k sys d et p slots s).0.1 (add_pid b k sys d et p slots s).1
    pub removing :
        (i : ℕ) (slots : List (Slot F)) (s : State)
        → P slots s
        → P (remove_slot b k sys et i slots s).0 (remove_slot b k sys et i slots s).1
    pub marking :
        (a i : ℕ) (slots : List (Slot F)) (s : State) → P slots s → P (set_active a i slots) s
    pub clearing : (slots : List (Slot F)) (s : State) → P slots s → P (map (mark 0) slots) s

module _ (b : BpfMaps) (k : Kernel) (sys : System b k) (d : Double) (et : EbpfTracer)
    (P : List (Slot d.F) → k.State → Type 0) (kept : Kept b k sys d et P) where
  open k use {State}
  open d use {F}

  mark_added_keeps :
      (r : Option ℕ) (slots : List (Slot F)) (s : State) → P slots s → P (mark_added r slots) s
  unfolding mark_added
  mark_added_keeps none slots s h = h
  mark_added_keeps (some i) slots s h = kept.marking 1 i slots s h

  pub track_found_keeps :
      (p : ℕ) (slots : List (Slot F)) (r : Option ℕ) (s : State)
      → find_slot p slots ≡ r
      → P slots s
      → P (track_found b k sys d et p slots r s).0 (track_found b k sys d et p slots r s).1
  unfolding track_found
  track_found_keeps p slots none s e h = mark_added_keeps _ _ _ (kept.adding p slots s e h)
  track_found_keeps p slots (some i) s e h = kept.marking 1 i slots s h

  pub track_all_keeps :
      (top : List ℕ) (slots : List (Slot F)) (s : State)
      → P slots s
      → P (track_all b k sys d et top slots s).0 (track_all b k sys d et top slots s).1
  unfolding track_all
  track_all_keeps [] slots s h = h
  track_all_keeps (p ∷ top) slots s h =
      track_all_keeps top _ _ (track_found_keeps p slots (find_slot p slots) s refl h)

  pub sync_top_keeps :
      (top : List ℕ) (slots : List (Slot F)) (s : State)
      → P slots s
      → P (sync_top b k sys d et top slots s).0 (sync_top b k sys d et top slots s).1
  unfolding sync_top
  sync_top_keeps top slots s h =
      prune_keeps b k sys et _ P kept.removing _ 0 _ _
        (track_all_keeps top (map (mark 0) slots) s (kept.clearing slots s h))

  add_found_keeps :
      (p : ℕ) (slots : List (Slot F)) (r : Option ℕ) (s : State)
      → find_slot p slots ≡ r
      → P slots s
      → P (add_found b k sys d et p slots r s).0 (add_found b k sys d et p slots r s).1
  unfolding add_found
  add_found_keeps p slots none s e h = kept.adding p slots s e h
  add_found_keeps p slots (some i) s e h = h

  add_missing_keeps :
      (pids : List ℕ) (slots : List (Slot F)) (s : State)
      → P slots s
      → P (add_missing b k sys d et pids slots s).0 (add_missing b k sys d et pids slots s).1
  unfolding add_missing
  add_missing_keeps [] slots s h = h
  add_missing_keeps (p ∷ pids) slots s h =
      add_missing_keeps pids _ _ (add_found_keeps p slots (find_slot p slots) s refl h)

  pub sync_named_keeps :
      (pids : List ℕ) (slots : List (Slot F)) (s : State)
      → P slots s
      → P (sync_named b k sys d et pids slots s).0 (sync_named b k sys d et pids slots s).1
  unfolding sync_named
  sync_named_keeps pids slots s h =
      prune_keeps b k sys et _ P kept.removing _ 0 _ _ (add_missing_keeps pids slots s h)

  module _ (q : Qsort) (proc : State → Proc) (names : State → Option (List (List ℕ)))
      (cfg : DaemonConfig)
      (scanned : (ps : ProcScanner) (slots : List (Slot F)) (s : State)
        → P slots s
        → P slots (scan b k sys proc names cfg.pids ps s).1) where
    sync_slots_keeps :
        (ps : ProcScanner) (slots : List (Slot F)) (s : State)
        → P slots s
        → P
            (sync_slots b k sys d et q proc names cfg ps slots s).0
            (sync_slots b k sys d et q proc names cfg ps slots s).1
    unfolding sync_slots
    sync_slots_keeps ps slots s h = elim (Bool-cases (ltb 0 (length cfg.pids))) [
      | inl named ↦ rw named (sync_named_keeps cfg.pids slots s h)
      | inr top ↦
          let fetch_n = if ltb max_pids cfg.top_n then max_pids else cfg.top_n in
          rw top (sync_top_keeps (proc_scanner_top_n q ps fetch_n cfg.min_uid) slots s h)
    ]

    pub sync_pids_keeps :
        (now : Timespec) (st : Syncing F) (s : State)
        → P st.slots s
        → P
            (sync_pids b k sys d et q proc names cfg now st s).0.slots
            (sync_pids b k sys d et q proc names cfg now st s).1
    unfolding sync_pids
    sync_pids_keeps now st s h =
        elim (Bool-cases (leb (to_ns st.last_sync + 1000000000) (to_ns now) || st.first_run)) [
          | inl due ↦ rw due (sync_slots_keeps _ st.slots _ (scanned st.scanner st.slots s h))
          | inr early ↦ rw early h
        ]

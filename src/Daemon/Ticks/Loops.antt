-- ===== src/Daemon/Ticks/Loops.antt =====
-- The loop over the slots ends, and keeps what a visit and a removal keep (src/schedmon.c:
-- run_sampling_loop).
use capstone_monitor.Prelude.{
  ℕ, zero, suc, ◌+◌, ◌≤◌, ◌≡◌, refl, List, none, some, arith, length, set, get_elem?, Option-cases,
  inl, inr, ◌++◌,
}
use capstone_monitor.Prelude.Indexed.{get-lt-length, length-set}
use capstone_monitor.Double.{Double}
use capstone_monitor.BpfMap.{BpfMaps}
use capstone_monitor.Perf.{Kernel}
use capstone_monitor.Tracer.{EbpfTracer}
use capstone_monitor.Daemon.{Slot, System}
use capstone_monitor.Daemon.Slots.{remove_slot}
use capstone_monitor.Daemon.Slots.Members.{length-swap_out}
use capstone_monitor.Daemon.Slots.Valid.{remove_slot_lem}
use capstone_monitor.Daemon.Ticks.{Push, Round, visit, slow_loop}

module _ (b : BpfMaps) (k : Kernel) (sys : System b k) (d : Double) (et : EbpfTracer) (dt : d.F)
    (now_ns limit : ℕ) where
  open k use {State}
  open d use {F}

  -- What a visit that keeps the slot leaves of the round.
  abbrev pub visited : (i : ℕ) → Round F → Slot F × ℕ × List (Push F) → Round F
  visited i r v = record { slots = set r.slots i v.0; displayed = v.1; sent = r.sent ++ v.2 }

  abbrev pub with_slots : Round F → List (Slot F) → Round F
  with_slots r slots = record r { slots = slots }

  module _ (P : List (Slot F) → State → Type 0)
      (removing : (i : ℕ) (slots : List (Slot F)) (s : State)
        → P slots s
        → P (remove_slot b k sys et i slots s).0 (remove_slot b k sys et i slots s).1)
      (leaving : (i n : ℕ) (slots : List (Slot F)) (s : State) (x : Slot F)
        → get_elem? slots i ≡ some x
        → (visit b k sys d et dt now_ns limit n x s).0 ≡ none
        → P slots s
        → P slots (visit b k sys d et dt now_ns limit n x s).1)
      (staying : (i n : ℕ) (slots : List (Slot F)) (s : State) (x : Slot F)
          (v : Slot F × ℕ × List (Push F))
        → get_elem? slots i ≡ some x
        → (visit b k sys d et dt now_ns limit n x s).0 ≡ some v
        → P slots s
        → P (set slots i v.0) (visit b k sys d et dt now_ns limit n x s).1) where
    pub slow_loop_keeps :
        (fuel i : ℕ) (r : Round F) (s : State)
        → P r.slots s
        → P
            (slow_loop b k sys d et dt now_ns limit fuel i r s).0.slots
            (slow_loop b k sys d et dt now_ns limit fuel i r s).1
    unfolding slow_loop
    slow_loop_keeps zero i r s h = h
    slow_loop_keeps (suc fuel) i r s h = elim (Option-cases (get_elem? r.slots i)) [
      | inl e ↦ rw (e, slow_loop) h
      | inr (x, e) ↦ elim (Option-cases (visit b k sys d et dt now_ns limit r.displayed x s).0) [
        | inl goes ↦
            rw (e, slow_loop, goes)
              (slow_loop_keeps fuel i _ _
                (removing i r.slots _ (leaving i r.displayed r.slots s x e goes h)))
        | inr (v, stays) ↦
            rw (e, slow_loop, stays)
              (slow_loop_keeps fuel (suc i) (visited i r v) _
                (staying i r.displayed r.slots s x v e stays h))
      ]
    ]

  -- Behind the last slot nothing is done.
  slow_loop_past :
      (fuel i : ℕ) (r : Round F) (s : State)
      → length r.slots ≤ i
      → slow_loop b k sys d et dt now_ns limit fuel i r s ≡ (r, s)
  unfolding slow_loop
  slow_loop_past zero i r s past = refl
  slow_loop_past (suc fuel) i r s past = elim (Option-cases (get_elem? r.slots i)) [
    | inl e ↦ rw (e, slow_loop) refl
    | inr (x, e) ↦ absurd (omega (arith, past, get-lt-length i r.slots e))
  ]

  -- When the rounds are at least as many as the slots from `i` on, the loop has come to the end of
  -- the table: more rounds change nothing, neither the slots nor the system.
  pub slow_loop_ends :
      (fuel more i : ℕ) (r : Round F) (s : State)
      → length r.slots ≤ fuel + i
      → fuel ≤ more
      → slow_loop b k sys d et dt now_ns limit more i r s
        ≡ slow_loop b k sys d et dt now_ns limit fuel i r s
  unfolding slow_loop
  slow_loop_ends zero more i r s enough le = slow_loop_past more i r s (omega (arith, enough))
  slow_loop_ends (suc fuel) zero i r s enough le = absurd (omega (arith, le))
  slow_loop_ends (suc fuel) (suc more) i r s enough le = elim (Option-cases (get_elem? r.slots i)) [
    | inl e ↦ rw (e, slow_loop) refl
    | inr (x, e) ↦
        let w = visit b k sys d et dt now_ns limit r.displayed x s in
        elim (Option-cases w.0) [
          | inl goes ↦
              let left = remove_slot b k sys et i r.slots w.1 in
              let shorter : suc (length left.0) ≡ length r.slots =
                rw (remove_slot_lem b k sys d et i r.slots w.1 e) (length-swap_out i r.slots e) in
              rw (e, slow_loop, goes)
                (slow_loop_ends fuel more i (with_slots r left.0) left.1
                  (omega (arith, enough, shorter)) (omega (arith, le)))
          | inr (v, stays) ↦
              rw (e, slow_loop, stays)
                (slow_loop_ends fuel more (suc i) (visited i r v) w.1
                  (omega (arith, enough, length-set i r.slots v.0)) (omega (arith, le)))
        ]
  ]

-- ===== src/Daemon/Sync/Prune.antt =====
-- The loop that removes slots ends, in at most as many rounds as there are slots, with exactly the
-- slots that stay (src/schedmon.c: sync_pids).
use capstone_monitor.Prelude.{
  ℕ, zero, suc, ◌+◌, ◌≤◌, ◌<◌, ◌≡◌, ◌≢◌, ◌∙◌, ap, sym, refl, List, [], ◌∷◌, Bool, true, false, none,
  some, arith, length, get_elem?, Option-cases, Bool-cases, inl, inr, ◌==◌, ==_iff,
}
use capstone_monitor.Prelude.Indexed.{get-lt-length}
use capstone_monitor.Double.{Double}
use capstone_monitor.BpfMap.{BpfMaps}
use capstone_monitor.Perf.{Kernel}
use capstone_monitor.Tracer.{EbpfTracer}
use capstone_monitor.Daemon.{Slot, System}
use capstone_monitor.Daemon.Slots.{remove_slot, swap_out}
use capstone_monitor.Daemon.Slots.Table.{swap_out_keeps}
use capstone_monitor.Daemon.Slots.Members.{In, swap_out-In, get_swap_out_below, length-swap_out}
use capstone_monitor.Daemon.Slots.Valid.{remove_slot_lem}
use capstone_monitor.Daemon.Sync.{prune}

true_ne_false : true ≢ false
true_ne_false e = cc

module _ (b : BpfMaps) (k : Kernel) (sys : System b k) (d : Double) (et : EbpfTracer)
    (test : Slot d.F → Bool) where
  open k use {State}
  open d use {F}

  -- No slot before `i` is to go.
  abbrev pub Clean : ℕ → List (Slot F) → Type 0
  Clean i slots = (j : ℕ) (y : Slot F) → j < i → get_elem? slots j ≡ some y → test y ≡ false

  removed-Clean :
      (i : ℕ) (slots : List (Slot F)) {x : Slot F}
      → get_elem? slots i ≡ some x
      → Clean i slots
      → Clean i (swap_out i slots)
  removed-Clean i slots hx c j y lt h = c j y lt (sym (get_swap_out_below i j slots hx lt) ∙ h)

  passed-Clean :
      (i : ℕ) (slots : List (Slot F)) {x : Slot F}
      → get_elem? slots i ≡ some x
      → test x ≡ false
      → Clean i slots
      → Clean (suc i) slots
  passed-Clean i slots {x} hx t c j y lt h = elim (Bool-cases (j == i)) [
    | inl here ↦
        let at : get_elem? slots i ≡ some y =
          ap (get_elem? slots) (sym ((==_iff j i).0 here)) ∙ h in
        let same : x ≡ y = cc (hx, at) in ap test (sym same) ∙ t
    | inr before ↦ c j y (ground arith) h
  ]

  -- The loop when the test looks at the slot alone.
  unfoldable pub loop : (fuel i : ℕ) → List (Slot F) → State → List (Slot F) × State
  loop fuel i slots s = prune b k sys et (λ x s. test x) fuel i slots s

  loop_ends :
      (fuel i : ℕ) (slots : List (Slot F)) (s : State)
      → get_elem? slots i ≡ none
      → loop fuel i slots s ≡ (slots, s)
  unfolding loop prune
  loop_ends zero i slots s h = refl
  loop_ends (suc fuel) i slots s h = rw (h, prune) refl

  loop_removes :
      (fuel i : ℕ) (slots : List (Slot F)) (s : State) {x : Slot F}
      → get_elem? slots i ≡ some x
      → test x ≡ true
      → loop (suc fuel) i slots s
        ≡ loop fuel i (swap_out i slots) (remove_slot b k sys et i slots s).1
  unfolding loop prune
  loop_removes fuel i slots s h t =
      rw (h, prune, t)
        (ap (λ q. prune b k sys et (λ x s. test x) fuel i q (remove_slot b k sys et i slots s).1)
          (remove_slot_lem b k sys d et i slots s h))

  loop_passes :
      (fuel i : ℕ) (slots : List (Slot F)) (s : State) {x : Slot F}
      → get_elem? slots i ≡ some x
      → test x ≡ false
      → loop (suc fuel) i slots s ≡ loop fuel (suc i) slots s
  unfolding loop prune
  loop_passes fuel i slots s h t = rw (h, prune, t) refl

  get-none : (i : ℕ) (slots : List (Slot F)) → get_elem? slots i ≡ none → length slots ≤ i
  get-none i [] h = omega arith
  get-none zero (x ∷ xs) h = absurd (ground arith)
  get-none (suc i) (x ∷ xs) h = omega (arith, get-none i xs h)

  -- All that is left passes the test.
  pub loop-Clean :
      (fuel i : ℕ) (slots : List (Slot F)) (s : State) {y : Slot F}
      → length slots ≤ fuel + i
      → Clean i slots
      → In y (loop fuel i slots s).0
      → test y ≡ false
  unfolding loop prune
  loop-Clean zero i slots s {y} fit c (m, h) = c m y (omega (arith, get-lt-length m slots h)) h
  loop-Clean (suc fuel) i slots s {y} fit c e = elim (Option-cases (get_elem? slots i)) [
    | inl end ↦
        let (m, h) = rw (loop_ends (suc fuel) i slots s end) at e in
        c m y (omega (arith, get-lt-length m slots h, get-none i slots end)) h
    | inr (x, here) ↦ elim (Bool-cases (test x)) [
      | inl goes ↦
          loop-Clean fuel i (swap_out i slots) _ (omega (arith, length-swap_out i slots here))
            (removed-Clean i slots here c) (rw (loop_removes fuel i slots s here goes) at e)
      | inr stays ↦
          loop-Clean fuel (suc i) slots s (omega arith) (passed-Clean i slots here stays c)
            (rw (loop_passes fuel i slots s here stays) at e)
    ]
  ]

  -- Nothing comes in.
  pub loop-In :
      (fuel i : ℕ) (slots : List (Slot F)) (s : State) {y : Slot F}
      → In y (loop fuel i slots s).0
      → In y slots
  unfolding loop prune
  loop-In zero i slots s e = e
  loop-In (suc fuel) i slots s e = elim (Option-cases (get_elem? slots i)) [
    | inl end ↦ rw (loop_ends (suc fuel) i slots s end) at e
    | inr (x, here) ↦ elim (Bool-cases (test x)) [
      | inl goes ↦
          swap_out-In i slots here
            (loop-In fuel i (swap_out i slots) _ (rw (loop_removes fuel i slots s here goes) at e))
      | inr stays ↦ loop-In fuel (suc i) slots s (rw (loop_passes fuel i slots s here stays) at e)
    ]
  ]

  -- What passes the test stays.
  pub loop_keeps :
      (fuel i : ℕ) (slots : List (Slot F)) (s : State) {y : Slot F}
      → test y ≡ false
      → In y slots
      → In y (loop fuel i slots s).0
  unfolding loop prune
  loop_keeps zero i slots s t e = e
  loop_keeps (suc fuel) i slots s {y} t (m, h) = elim (Option-cases (get_elem? slots i)) [
    | inl end ↦ rw (loop_ends (suc fuel) i slots s end) (m, h)
    | inr (x, here) ↦ elim (Bool-cases (test x)) [
      | inl goes ↦
          let apart : i ≢ m = λ e. true_ne_false (sym goes ∙ ap test (cc (here, h, e)) ∙ t) in
          rw (loop_removes fuel i slots s here goes)
            (loop_keeps fuel i (swap_out i slots) _ t (swap_out_keeps i m slots here h apart))
      | inr stays ↦
          rw (loop_passes fuel i slots s here stays) (loop_keeps fuel (suc i) slots s t (m, h))
    ]
  ]

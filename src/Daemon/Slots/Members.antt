-- ===== src/Daemon/Slots/Members.antt =====
-- Which slots stand in the table once one is out (src/schedmon.c: remove_slot).
use capstone_monitor.Prelude.{
  ℕ, suc, ◌<◌, ◌≡◌, ◌∙◌, ◌⊎◌, ap, sym, refl, List, some, arith, length, take, set, get_elem?,
  Bool-cases, inl, inr, ==_iff, ◌==◌, if◌then◌else◌, length-take,
}
use capstone_monitor.Prelude.Indexed.{
  get-set_self, get-set-ne, get-take, get-lt-length, sum_of_ones,
}
use capstone_monitor.Daemon.{Slot}
use capstone_monitor.Daemon.Slots.{swap_out}
use capstone_monitor.Daemon.Slots.Table.{swap_out_lem, sum_of-swap_out, without}

module _ {F : Type 0} where
  -- The slot stands somewhere in the table.
  abbrev pub In : Slot F → List (Slot F) → Type 0
  In x slots = (m : ℕ) × (get_elem? slots m ≡ some x)

  pub get_set_cases :
      (i m : ℕ) (slots : List (Slot F)) (l : Slot F) {x y : Slot F}
      → get_elem? slots i ≡ some x
      → get_elem? (set slots i l) m ≡ some y
      → (get_elem? slots m ≡ some y) ⊎ (y ≡ l)
  get_set_cases i m slots l hx hy = elim (Bool-cases (i == m)) [
    | inl same ↦
        let at : i ≡ m = (==_iff i m).0 same in
        let here = ap (get_elem? (set slots i l)) (sym at) ∙ get-set_self i slots l hx in
        inr (cc (here, hy))
    | inr other ↦ inl (sym (get-set-ne i m slots l (ground arith)) ∙ hy)
  ]

  without-In :
      (n i m : ℕ) (slots : List (Slot F)) {x l y : Slot F}
      → get_elem? slots i ≡ some x
      → get_elem? slots n ≡ some l
      → get_elem? (without n i slots l) m ≡ some y
      → In y slots
  without-In n i m slots {l = l} {y = y} hx hl h =
      let all : List (Slot F) = if i == n then slots else set slots i l in
      let below : m < n = omega (arith, get-lt-length m (take n all) h, length-take n all) in
      let there : get_elem? all m ≡ some y = sym (get-take n m all below) ∙ h in
      elim (Bool-cases (i == n)) [
        | inl same ↦ (m, rw same at there)
        | inr other ↦ elim (get_set_cases i m slots l hx (rw other at there)) [
          | inl e ↦ (m, e)
          | inr e ↦ (n, hl ∙ ap some (sym e))
        ]
      ]

  pub swap_out-In :
      (i : ℕ) (slots : List (Slot F)) {x y : Slot F}
      → get_elem? slots i ≡ some x
      → In y (swap_out i slots)
      → In y slots
  swap_out-In i slots hx (m, h) =
      let (n, l, e, hl, s) = swap_out_lem i slots hx in
      without-In n i m slots hx hl (ap (λ q. get_elem? q m) (sym s) ∙ h)

  -- What stands before `i` stays where it is.
  pub get_swap_out_below :
      (i j : ℕ) (slots : List (Slot F)) {x : Slot F}
      → get_elem? slots i ≡ some x
      → j < i
      → get_elem? (swap_out i slots) j ≡ get_elem? slots j
  get_swap_out_below i j slots hx lt =
      let (n, l, e, hl, s) = swap_out_lem i slots hx in
      let below : j < n = omega (arith, get-lt-length i slots hx) in
      ap (λ q. get_elem? q j) s
      ∙ get-take n j (if i == n then slots else set slots i l) below
      ∙ elim (Bool-cases (i == n)) [
        | inl same ↦ rw same refl
        | inr other ↦ rw other (get-set-ne i j slots l (omega arith))
      ]

  pub length-swap_out :
      (i : ℕ) (slots : List (Slot F)) {x : Slot F}
      → get_elem? slots i ≡ some x
      → suc (length (swap_out i slots)) ≡ length slots
  length-swap_out i slots hx =
      let one : Slot F → ℕ = λ _. 1 in
      omega
        (arith, sum_of-swap_out one i slots hx, sum_of_ones (swap_out i slots), sum_of_ones slots)

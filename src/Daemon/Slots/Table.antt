-- ===== src/Daemon/Slots/Table.antt =====
-- What the changes of the table do to sums over its slots (src/schedmon.c: remove_slot). A sum of
-- ones is the number of slots, and a sum of a test the number of slots that meet it, so that these
-- equations tell which slots a table has, and how often.
use capstone_monitor.Prelude.{
  ℕ, suc, ◌+◌, ◌-◌, ◌<◌, ◌≡◌, ◌≢◌, ◌∙◌, ap, sym, refl, List, false, some, arith, if◌then◌else◌,
  ◌==◌, length, take, set, get_elem?, Bool-cases, ==_iff, inl, inr,
}
use capstone_monitor.Prelude.Indexed.{
  sum_of, sum_of-take, sum_of-set, length-set, get-set_self, get-set-ne, get-take, get-lt-length,
  get_below,
}
use capstone_monitor.Daemon.{Slot}
use capstone_monitor.Daemon.Slots.{copy_slot, move_last, swap_out}

module _ {F : Type 0} where
  -- The fourteen assignments copy the whole slot.
  pub copy_slot-eq : (to from : Slot F) → copy_slot to from ≡ from
  unfolding copy_slot
  copy_slot-eq to from = refl

  -- The table without slot `i`: the last one in its place, or simply without the last one.
  abbrev pub without : (n i : ℕ) → List (Slot F) → Slot F → List (Slot F)
  without n i slots l = take n (if i == n then slots else set slots i l)

  pub swap_out_lem :
      (i : ℕ) (slots : List (Slot F)) {x : Slot F}
      → get_elem? slots i ≡ some x
      → (n : ℕ) × (l : Slot F) × (length slots ≡ suc n)
        × (get_elem? slots n ≡ some l)
        × (swap_out i slots ≡ without n i slots l)
  unfolding swap_out move_last
  swap_out_lem i slots {x} hx =
      let (l, hl) = get_below (length slots - 1) slots (omega (arith, get-lt-length i slots hx)) in
      (
        length slots - 1,
        l,
        omega (arith, get-lt-length i slots hx),
        hl,
        rw (hx, hl, move_last, copy_slot-eq x l) refl,
      )

  sum_of-without :
      (f : Slot F → ℕ) (n i : ℕ) (slots : List (Slot F)) {x l : Slot F}
      → length slots ≡ suc n
      → get_elem? slots i ≡ some x
      → get_elem? slots n ≡ some l
      → sum_of f (without n i slots l) + f x ≡ sum_of f slots
  sum_of-without f n i slots {x} {l} e hx hl = elim (Bool-cases (i == n)) [
    | inl same ↦
        let at : f x ≡ f l = ap f (cc (hx, hl, (==_iff i n).0 same)) in
        rw same (omega (arith, sum_of-take f n slots e hl))
    | inr other ↦
        let ne : i ≢ n = ground arith in
        let there : get_elem? (set slots i l) n ≡ some l = get-set-ne i n slots l ne ∙ hl in
        rw other (
          omega (
            arith,
            sum_of-take f n (set slots i l) (length-set i slots l ∙ e) there,
            sum_of-set f i slots l hx,
          ))
  ]

  -- remove_slot takes exactly the slot `i` away.
  pub sum_of-swap_out :
      (f : Slot F → ℕ) (i : ℕ) (slots : List (Slot F)) {x : Slot F}
      → get_elem? slots i ≡ some x
      → sum_of f (swap_out i slots) + f x ≡ sum_of f slots
  sum_of-swap_out f i slots hx =
      let (n, l, e, hl, s) = swap_out_lem i slots hx in rw s (sum_of-without f n i slots e hx hl)

  -- The last slot is found at `i` afterwards, the others where they were.
  get_without_last :
      (n i : ℕ) (slots : List (Slot F)) {x l : Slot F}
      → length slots ≡ suc n
      → get_elem? slots i ≡ some x
      → i ≢ n
      → get_elem? (without n i slots l) i ≡ some l
  get_without_last n i slots {l = l} e hx ne =
      let other : (i == n) ≡ false = ground arith in
      let below : i < n = omega (arith, get-lt-length i slots hx) in
      rw (other, get-take n i (set slots i l) below) (get-set_self i slots l hx)

  get_without_other :
      (n i j : ℕ) (slots : List (Slot F)) (l : Slot F) {y : Slot F}
      → length slots ≡ suc n
      → get_elem? slots j ≡ some y
      → i ≢ j
      → j ≢ n
      → get_elem? (without n i slots l) j ≡ some y
  get_without_other n i j slots l e hy ne last =
      let below : j < n = omega (arith, get-lt-length j slots hy) in
      get-take n j (if i == n then slots else set slots i l) below ∙ elim (Bool-cases (i == n)) [
        | inl same ↦ rw same hy
        | inr other ↦ rw other (get-set-ne i j slots l ne ∙ hy)
      ]

  -- Any other slot is still in the table.
  pub swap_out_keeps :
      (i j : ℕ) (slots : List (Slot F)) {x y : Slot F}
      → get_elem? slots i ≡ some x
      → get_elem? slots j ≡ some y
      → i ≢ j
      → (m : ℕ) × (get_elem? (swap_out i slots) m ≡ some y)
  swap_out_keeps i j slots {x} {y} hx hy ne =
      let (n, l, e, hl, s) = swap_out_lem i slots hx in
      elim (Bool-cases (j == n)) [
        | inl same ↦
            let at : j ≡ n = (==_iff j n).0 same in
            let here : get_elem? slots n ≡ some y = ap (get_elem? slots) (sym at) ∙ hy in
            (i, rw s (get_without_last n i slots e hx (λ q. ne (q ∙ sym at))) ∙ sym hl ∙ here)
        | inr other ↦
            let last : j ≢ n = ground arith in
            (j, rw s (get_without_other n i j slots l e hy ne last))
      ]

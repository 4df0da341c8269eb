-- ===== src/Window/Whole.antt =====
-- The window over whole numbers, where no sum is rounded: its running sum is the sum of its samples.
use capstone_monitor.Prelude.{
  ℕ, zero, suc, ◌+◌, ◌-◌, ◌*◌, ◌/◌, ◌%◌, ◌≤◌, ◌<◌, ◌≡◌, ◌≢◌, ◌∙◌, refl, ap, ap₂, sym, List, [], ◌∷◌,
  ◌++◌, arith, length, ltb, ◌^◌, drop, Bool-cases, ◌==◌, true, false, inl, inr,
}
use capstone_monitor.Prelude.Circular.{circular, circular-suc}
use capstone_monitor.Double.{Double, IntegersAreExact}
use capstone_monitor.Window.{SlidingWindow, swag_capacity, sw_push, exact_sum}
use capstone_monitor.Window.Valid.{IsValid, push-IsValid}
use capstone_monitor.Window.Contents.{contents, oldest, contents-push, length-contents}
use capstone_monitor.Window.Drift.{sum_when_due, sum_when_early}

-- The whole numbers as a `Double`. Quotients are never rounded in this model: only sums are used.
abbrev pub whole : Double
whole = record {
  F = ℕ;
  zero = 0;
  add = λ a b. a + b;
  sub = λ a b. a - b;
  mul = λ a b. a * b;
  div = λ a b. a / b;
  lt = ltb;
  of_nat = λ n. n;
  decimal = λ m e. m / 10 ^ e;
}

pub whole-IntegersAreExact : (limit : ℕ) → IntegersAreExact whole limit
whole-IntegersAreExact limit = record {
  zero_exact = refl;
  add_exact = λ a b h. refl;
  sub_exact = λ a b h k. refl;
}

abbrev pub sum : List ℕ → ℕ
sum [] = 0
sum (x ∷ xs) = x + sum xs

pub sum-append : (xs ys : List ℕ) → sum (xs ++ ys) ≡ sum xs + sum ys
sum-append [] ys = omega arith
sum-append (x ∷ xs) ys = omega (arith, sum-append xs ys)

module _ (buf : ℕ → ℕ) where
  sum-circular-suc :
      (t n : ℕ)
      → t < swag_capacity
      → sum (circular swag_capacity buf t (suc n))
        ≡ sum (circular swag_capacity buf t n) + buf ((t + n) % swag_capacity)
  sum-circular-suc t n h =
      ap sum (circular-suc swag_capacity buf t n h)
      ∙ sum-append (circular swag_capacity buf t n) (buf ((t + n) % swag_capacity) ∷ [])
      ∙ omega arith

  -- Adding up from index 0 on.
  exact_sum-eq-circular :
      (n : ℕ) → n ≤ swag_capacity → exact_sum whole buf n ≡ sum (circular swag_capacity buf 0 n)
  unfolding exact_sum
  exact_sum-eq-circular zero h = refl
  exact_sum-eq-circular (suc n) h =
      let i : (0 + n) % swag_capacity ≡ n = omega arith in
      sym (sum-circular-suc 0 n (omega arith) ∙ rw (i, exact_sum-eq-circular n (omega arith)))

  -- All ten slots have one sum, from wherever one starts. (`n` is 9; a variable keeps it folded.)
  rotate_one :
      (t n : ℕ)
      → t < swag_capacity
      → n ≡ 9
      → sum (circular swag_capacity buf ((t + 1) % swag_capacity) (suc n))
        ≡ sum (circular swag_capacity buf t (suc n))
  rotate_one t n h e =
      let back : ((t + 1) % swag_capacity + n) % swag_capacity ≡ t = omega arith in
      omega (arith, sum-circular-suc ((t + 1) % swag_capacity) n (omega arith), ap buf back)

  rotate :
      (t n : ℕ)
      → t < swag_capacity
      → n ≡ 9
      → sum (circular swag_capacity buf t (suc n)) ≡ sum (circular swag_capacity buf 0 (suc n))
  rotate zero n h e = refl
  rotate (suc t) n h e =
      let next : suc t ≡ (t + 1) % swag_capacity = omega arith in
      ap (λ i. sum (circular swag_capacity buf i (suc n))) next
      ∙ rotate_one t n (omega arith) e
      ∙ rotate t n (omega arith) e

-- The recomputation adds up the same samples as the window holds.
exact_sum-eq-contents :
    (sw : SlidingWindow ℕ) → IsValid sw → exact_sum whole sw.buffer sw.count ≡ sum (contents sw)
exact_sum-eq-contents sw v = elim (Bool-cases (sw.count == swag_capacity)) [
  | inl full ↦
      let c : sw.count ≡ suc 9 = ground arith in
      let o : oldest sw ≡ sw.head = omega arith in
      exact_sum-eq-circular sw.buffer sw.count v.count_in
      ∙ ap (λ n. sum (circular swag_capacity sw.buffer 0 n)) c
      ∙ sym (rotate sw.buffer (oldest sw) 9 (omega arith) refl)
      ∙ ap (λ n. sum (circular swag_capacity sw.buffer (oldest sw) n)) (sym c)
  | inr room ↦
      let o : 0 ≡ oldest sw = ground (arith, v.filling) in
      exact_sum-eq-circular sw.buffer sw.count v.count_in
      ∙ ap (λ t. sum (circular swag_capacity sw.buffer t sw.count)) o
]

pub sum-drop_one :
    (sw : SlidingWindow ℕ)
    → IsValid sw
    → sw.count ≡ swag_capacity
    → sum (contents sw) ≡ sw.buffer sw.head + sum (drop 1 (contents sw))
sum-drop_one sw v e = ap sum here ∙ ap (λ xs. sw.buffer sw.head + sum (drop 1 xs)) (sym here)
  where
    here : contents sw ≡ circular swag_capacity sw.buffer sw.head swag_capacity
    here = ap₂ (circular swag_capacity sw.buffer) (omega arith) e

sum-push_early :
    (sw : SlidingWindow ℕ) (x : ℕ)
    → IsValid sw
    → sw.push_count ≢ 99
    → sw.run_sum ≡ sum (contents sw)
    → (sw_push whole sw x).run_sum ≡ sum (contents (sw_push whole sw x))
sum-push_early sw x v n e = elim (Bool-cases (sw.count == swag_capacity)) [
  | inl full ↦
      let same : length (contents sw) == swag_capacity ≡ true =
        rw (length-contents whole sw) full in
      let before = rw full at (sum_when_early whole x v n) in
      let after = rw same at (ap sum (contents-push whole x v)) in
      omega (
        arith,
        before,
        after,
        sum-append (drop 1 (contents sw)) (x ∷ []),
        sum-drop_one sw v (ground arith),
      )
  | inr room ↦
      let same : length (contents sw) == swag_capacity ≡ false =
        rw (length-contents whole sw) room in
      let before = rw room at (sum_when_early whole x v n) in
      let after = rw same at (ap sum (contents-push whole x v)) in
      omega (arith, before, after, sum-append (contents sw) (x ∷ []))
]

pub push-sum :
    (sw : SlidingWindow ℕ) (x : ℕ)
    → IsValid sw
    → sw.run_sum ≡ sum (contents sw)
    → (sw_push whole sw x).run_sum ≡ sum (contents (sw_push whole sw x))
push-sum sw x v e = elim (Bool-cases (sw.push_count == 99)) [
  | inl due ↦
      sum_when_due whole x v (ground arith)
      ∙ exact_sum-eq-contents (sw_push whole sw x) (push-IsValid whole x v)
  | inr early ↦ sum-push_early sw x v (ground arith) e
]

-- ===== src/Window/Exact.antt =====
-- With samples that are whole numbers, of a size at which IEEE sums are not rounded, `sw_mean` is the
-- quotient of the sum of the last ten samples by their number.
use capstone_monitor.Prelude.{
  ℕ, zero, suc, ◌+◌, ◌-◌, ◌*◌, ◌%◌, ◌≤◌, ◌≡◌, ◌≢◌, ◌∙◌, refl, ap, ap₂, sym, List, [], ◌∷◌, arith,
  length, Bool-cases, ◌==◌, true, false, inl, inr, map, if◌then◌else◌,
}
use capstone_monitor.Prelude.Circular.{circular}
use capstone_monitor.Double.{Double, IntegersAreExact}
use capstone_monitor.Window.{
  SlidingWindow, swag_capacity, sw_init, sw_push, sw_run, sw_mean, exact_sum,
}
use capstone_monitor.Window.Valid.{IsValid, init-IsValid, push-IsValid}
use capstone_monitor.Window.Contents.{
  contents, last_ten, oldest, run_holds_last_ten, length-contents,
}
use capstone_monitor.Window.Drift.{sum_when_due, sum_when_early}
use capstone_monitor.Window.Whole.{whole, sum, push-sum, sum-drop_one}

-- Every number of a list is at most `max`.
abbrev pub AtMost : ℕ → List ℕ → Type 0
AtMost max [] = Unit
AtMost max (n ∷ ns) = (n ≤ max) × AtMost max ns

sum-circular-le :
    (buf : ℕ → ℕ) (max t n : ℕ)
    → ((i : ℕ) → buf i ≤ max)
    → sum (circular swag_capacity buf t n) ≤ n * max
sum-circular-le buf max t zero h = omega arith
sum-circular-le buf max t (suc n) h =
    omega (arith, h t, sum-circular-le buf max ((t + 1) % swag_capacity) n h)

exact_sum-le : (buf : ℕ → ℕ) (max n : ℕ) → ((i : ℕ) → buf i ≤ max) → exact_sum whole buf n ≤ n * max
unfolding exact_sum
exact_sum-le buf max zero h = omega arith
exact_sum-le buf max (suc n) h = omega (arith, h n, exact_sum-le buf max n h)

-- The window of doubles holds, as doubles, what the window of whole numbers `w` holds.
record Follows (d : Double) (max : ℕ) (sw : SlidingWindow (d.F)) (w : SlidingWindow ℕ)
    : Type 0 where
  heads : sw.head ≡ w.head
  counts : sw.count ≡ w.count
  pushes : sw.push_count ≡ w.push_count
  sums : sw.run_sum ≡ d.of_nat w.run_sum
  samples : (i : ℕ) → sw.buffer i ≡ d.of_nat (w.buffer i)
  small : (i : ℕ) → w.buffer i ≤ max
  valid : IsValid w
  exact : w.run_sum ≡ sum (contents w)

module _ (d : Double) {limit : ℕ} (ie : IntegersAreExact d limit) (max : ℕ)
    (fits : 11 * max ≤ limit) where
  open d use {F, of_nat, add, sub, div}

  init-Follows : Follows d max (sw_init d) (sw_init whole)
  unfolding sw_init
  init-Follows = record {
    heads = refl;
    counts = refl;
    pushes = refl;
    sums = ie.zero_exact;
    samples = λ i. ie.zero_exact;
    small = λ i. omega arith;
    valid = unfold sw_init in init-IsValid whole;
    exact = refl;
  }

  exact_sum-Follows :
      (buf : ℕ → F) (whole_buf : ℕ → ℕ) (n : ℕ)
      → n ≤ swag_capacity
      → ((i : ℕ) → buf i ≡ of_nat (whole_buf i))
      → ((i : ℕ) → whole_buf i ≤ max)
      → exact_sum d buf n ≡ of_nat (exact_sum whole whole_buf n)
  unfolding exact_sum
  exact_sum-Follows buf wb zero k e s = ie.zero_exact
  exact_sum-Follows buf wb (suc n) k e s =
      ap₂ add (exact_sum-Follows buf wb n (omega arith) e s) (e n)
      ∙ ie.add_exact (exact_sum whole wb n) (wb n) (grind (arith, exact_sum-le wb max n s, s n))

  module _ {sw : SlidingWindow F} {w : SlidingWindow ℕ} (n : ℕ) (h : n ≤ max)
      (f : Follows d max sw w) where
    push-heads : (sw_push d sw (of_nat n)).head ≡ (sw_push whole w n).head
    unfolding sw_push
    push-heads = ground (arith, f.heads)

    push-counts : (sw_push d sw (of_nat n)).count ≡ (sw_push whole w n).count
    unfolding sw_push
    push-counts = ground (arith, f.counts)

    push-pushes : (sw_push d sw (of_nat n)).push_count ≡ (sw_push whole w n).push_count
    unfolding sw_push
    push-pushes = ground (arith, f.pushes)

    push-samples :
        (i : ℕ) → (sw_push d sw (of_nat n)).buffer i ≡ of_nat ((sw_push whole w n).buffer i)
    unfolding sw_push
    push-samples i = ground (arith, f.heads, f.samples i)

    push-small : (i : ℕ) → (sw_push whole w n).buffer i ≤ max
    unfolding sw_push
    push-small i = ground (arith, f.small i)

    valid : IsValid sw
    valid = record {
      head_in = omega (arith, f.heads, f.valid.head_in);
      count_in = omega (arith, f.counts, f.valid.count_in);
      filling = λ ne. f.heads ∙ f.valid.filling (λ e. ne (f.counts ∙ e)) ∙ sym f.counts;
      due = omega (arith, f.pushes, f.valid.due);
    }

    run_sum-le : w.run_sum ≤ 10 * max
    run_sum-le =
        grind (
          arith,
          f.exact,
          sum-circular-le w.buffer max (oldest w) w.count f.small,
          f.valid.count_in,
        )

    push-sums-due :
        w.push_count ≡ 99 → (sw_push d sw (of_nat n)).run_sum ≡ of_nat (sw_push whole w n).run_sum
    push-sums-due due =
        sum_when_due d (of_nat n) valid (f.pushes ∙ due)
        ∙ ap (exact_sum d (sw_push d sw (of_nat n)).buffer) push-counts
        ∙ exact_sum-Follows (sw_push d sw (of_nat n)).buffer (sw_push whole w n).buffer
            (sw_push whole w n).count (push-IsValid whole n f.valid).count_in push-samples
            push-small
        ∙ ap of_nat (sym (sum_when_due whole n f.valid due))

    -- The oldest sample is a part of the running sum.
    push-sums-early :
        w.push_count ≢ 99 → (sw_push d sw (of_nat n)).run_sum ≡ of_nat (sw_push whole w n).run_sum
    push-sums-early early = elim (Bool-cases (w.count == swag_capacity)) [
      | inl full ↦
          let full_d : sw.count == swag_capacity ≡ true = rw f.counts full in
          rw full_d at (sum_when_early d {sw = sw} (of_nat n) valid (rw f.pushes early))
          ∙ ap (λ s. add s (of_nat n))
              (ap₂ sub f.sums (ap sw.buffer f.heads ∙ f.samples w.head)
                ∙ ie.sub_exact w.run_sum (w.buffer w.head)
                    (omega (arith, f.exact, sum-drop_one w f.valid (ground arith)))
                    (omega (arith, run_sum-le)))
          ∙ ie.add_exact (w.run_sum - w.buffer w.head) n (omega (arith, run_sum-le))
          ∙ ap of_nat (sym (rw full at (sum_when_early whole n f.valid early)))
      | inr room ↦
          let room_d : sw.count == swag_capacity ≡ false = rw f.counts room in
          rw room_d at (sum_when_early d {sw = sw} (of_nat n) valid (rw f.pushes early))
          ∙ ap (λ s. add s (of_nat n)) f.sums
          ∙ ie.add_exact w.run_sum n (omega (arith, run_sum-le))
          ∙ ap of_nat (sym (rw room at (sum_when_early whole n f.valid early)))
    ]

    push-Follows : Follows d max (sw_push d sw (of_nat n)) (sw_push whole w n)
    push-Follows = record {
      heads = push-heads;
      counts = push-counts;
      pushes = push-pushes;
      sums = elim (Bool-cases (w.push_count == 99)) [
        | inl due ↦ push-sums-due (ground arith)
        | inr early ↦ push-sums-early (ground arith)
      ];
      samples = push-samples;
      small = push-small;
      valid = push-IsValid whole n f.valid;
      exact = push-sum w n f.valid f.exact;
    }

  run-Follows :
      (ns : List ℕ) {sw : SlidingWindow F} {w : SlidingWindow ℕ}
      → AtMost max ns
      → Follows d max sw w
      → Follows d max (sw_run d sw (map of_nat ns)) (sw_run whole w ns)
  unfolding sw_run
  run-Follows [] h f = f
  run-Follows (n ∷ ns) h f = run-Follows ns h.1 (push-Follows n h.0 f)

  -- If every sample is a whole number of at most `max`, and sums up to `11 * max` are exact, then
  -- after any samples `sw_mean` is the sum of the last ten (or fewer) divided by their number: the
  -- evictions, the wrap-around and the recomputation leave no trace in it. With no sample it is 0.
  pub mean_of_last_ten :
      (ns : List ℕ)
      → AtMost max ns
      → sw_mean d (sw_run d (sw_init d) (map of_nat ns)) ≡ (
          if length (last_ten ns) == 0
          then d.zero
          else div (of_nat (sum (last_ten ns))) (of_nat (length (last_ten ns))))
  unfolding sw_mean
  mean_of_last_ten ns h =
      let f = run-Follows ns h init-Follows in
      let held = (run_holds_last_ten whole ns).0 in
      let count : (sw_run d (sw_init d) (map of_nat ns)).count ≡ length (last_ten ns) =
        f.counts ∙ sym (length-contents whole (sw_run whole (sw_init whole) ns)) ∙ ap length held in
      let total = f.sums ∙ ap of_nat (f.exact ∙ ap sum held) in rw (count, total)

-- ===== src/Window/Contents.antt =====
-- Which samples a window holds: the last ten that were pushed, oldest first.
use capstone_monitor.Prelude.{
  ℕ, suc, ◌+◌, ◌-◌, ◌%◌, ◌≤◌, ◌≡◌, ◌≢◌, refl, ap, sym, ◌∙◌, inl, inr, List, [], ◌∷◌, ◌++◌, true,
  false, arith, length, drop, length-append, length-drop, append_assoc, append-nil, min,
  drop-append_le, drop_one-drop, if◌then◌else◌, ◌==◌, Bool-cases,
}
use capstone_monitor.Prelude.Circular.{circular, circular-write, length-circular}
use capstone_monitor.Double.{Double}
use capstone_monitor.Window.{SlidingWindow, swag_capacity, sw_init, sw_push, sw_run}
use capstone_monitor.Window.Valid.{IsValid, init-IsValid, push-IsValid}

-- the index of the oldest sample
abbrev pub oldest : {F : Type 0} → SlidingWindow F → ℕ
oldest sw = (sw.head + swag_capacity - sw.count) % swag_capacity

abbrev pub contents : {F : Type 0} → SlidingWindow F → List F
contents sw = circular swag_capacity sw.buffer (oldest sw) sw.count

-- The last ten elements of a list.
abbrev pub last_ten : {F : Type 0} → List F → List F
last_ten xs = drop (length xs - swag_capacity) xs

module _ (d : Double) where
  open d use {F}

  pub length-contents : (sw : SlidingWindow F) → length (contents sw) ≡ sw.count
  length-contents sw = length-circular swag_capacity sw.buffer (oldest sw) sw.count

  drop_full :
      (buf : ℕ → F) (h : ℕ)
      → drop 1 (circular swag_capacity buf h swag_capacity)
        ≡ circular swag_capacity buf ((h + 1) % swag_capacity) 9
  drop_full buf h = refl

  push_full :
      {sw : SlidingWindow F} (x : F)
      → IsValid sw
      → sw.count ≡ swag_capacity
      → contents (sw_push d sw x) ≡ drop 1 (contents sw) ++ x ∷ []
  unfolding sw_push
  push_full {sw} x v e = ground (
    arith,
    drop_full sw.buffer sw.head,
    circular-write swag_capacity sw.buffer ((sw.head + 1) % swag_capacity) 9 sw.head x,
  )

  push_filling :
      {sw : SlidingWindow F} (x : F)
      → IsValid sw
      → sw.count ≢ swag_capacity
      → contents (sw_push d sw x) ≡ contents sw ++ x ∷ []
  unfolding sw_push
  push_filling {sw} x v n =
      ground (arith, circular-write swag_capacity sw.buffer 0 sw.count sw.head x)

  -- Pushing appends the sample, and drops the oldest one when there were ten.
  pub contents-push :
      {sw : SlidingWindow F} (x : F)
      → IsValid sw
      → contents (sw_push d sw x)
        ≡ (if length (contents sw) == swag_capacity then drop 1 (contents sw) else contents sw)
          ++ x ∷ []
  contents-push {sw} x v = rw (length-contents sw) (elim (Bool-cases (sw.count == swag_capacity)) [
    | inl full ↦ rw full (push_full x v (ground arith))
    | inr room ↦ rw room (push_filling x v (ground arith))
  ])

  -- The same step on the list of all samples.
  last_ten-snoc :
      (xs : List F) (x : F)
      → last_ten (xs ++ x ∷ [])
        ≡ (if length (last_ten xs) == swag_capacity then drop 1 (last_ten xs) else last_ten xs)
          ++ x ∷ []
  last_ten-snoc xs x = elim (Bool-cases (length (last_ten xs) == swag_capacity)) [
    | inl full ↦ rw (full, drop_one-drop k xs) (more full)
    | inr room ↦ rw room (fewer room)
  ]
    where
      k : ℕ
      k = length xs - swag_capacity

      grows : length (xs ++ x ∷ []) ≡ length xs + 1
      grows = length-append xs (x ∷ [])

      drop_at :
          (n : ℕ)
          → length (xs ++ x ∷ []) - swag_capacity ≡ n
          → n ≤ length xs
          → last_ten (xs ++ x ∷ []) ≡ drop n xs ++ x ∷ []
      drop_at n e h = rw e (drop-append_le n xs (x ∷ []) h)

      more :
          (length (last_ten xs) == swag_capacity) ≡ true
          → last_ten (xs ++ x ∷ []) ≡ drop (suc k) xs ++ x ∷ []
      more full =
          let e : length (drop k xs) ≡ swag_capacity = ground arith in
          drop_at (suc k) (omega (arith, grows, length-drop k xs, e))
            (omega (arith, length-drop k xs, e))

      fewer :
          (length (last_ten xs) == swag_capacity) ≡ false
          → last_ten (xs ++ x ∷ []) ≡ last_ten xs ++ x ∷ []
      fewer room =
          let e : length (drop k xs) ≢ swag_capacity = ground arith in
          drop_at k (omega (arith, grows, length-drop k xs, e)) (omega arith)

  run_from :
      (xs ys : List F) {sw : SlidingWindow F}
      → IsValid sw
      → contents sw ≡ last_ten ys
      → contents (sw_run d sw xs) ≡ last_ten (ys ++ xs)
  unfolding sw_run
  run_from [] ys v e = e ∙ ap last_ten (sym (append-nil ys))
  run_from (x ∷ xs) ys {sw} v e =
      run_from xs (ys ++ x ∷ []) (push-IsValid d x v)
        (contents-push x v ∙ rw e (sym (last_ten-snoc ys x)))
      ∙ ap last_ten (append_assoc ys (x ∷ []) xs)

  -- After any samples, an initialised window holds the last ten of them in the order in which they
  -- came, or all of them when there are fewer, and `count` is their number.
  pub run_holds_last_ten :
      (xs : List F)
      → let sw = sw_run d (sw_init d) xs in
        (contents sw ≡ last_ten xs) × (sw.count ≡ min (length xs) swag_capacity)
  unfolding sw_init
  run_holds_last_ten xs =
      let e = run_from xs [] (init-IsValid d) refl in
      (
        e,
        omega (arith, length-contents sw, ap length e, length-drop (length xs - swag_capacity) xs),
      )
    where
      sw : SlidingWindow F
      sw = sw_run d (sw_init d) xs

-- ===== src/Window/Drift.antt =====
-- The periodic recomputation of the running sum.
use capstone_monitor.Prelude.{
  ◌+◌, ◌%◌, ◌≡◌, refl, List, [], ◌∷◌, ◌++◌, arith, length, if◌then◌else◌, ◌==◌, ◌≢◌,
}
use capstone_monitor.Double.{Double}
use capstone_monitor.Window.{SlidingWindow, swag_capacity, sw_init, sw_push, sw_run, exact_sum}
use capstone_monitor.Window.Valid.{IsValid, init-IsValid, push-IsValid, run-IsValid}

module _ (d : Double) where
  open d use {F, add, sub}

  -- `push_count` counts the pushes since the last recomputation.
  push_count-push :
      {sw : SlidingWindow F} (x : F)
      → IsValid sw
      → (sw_push d sw x).push_count ≡ (sw.push_count + 1) % 100
  unfolding sw_push
  push_count-push x v = ground arith

  push_count-run :
      (xs : List F) {sw : SlidingWindow F}
      → IsValid sw
      → (sw_run d sw xs).push_count ≡ (sw.push_count + length xs) % 100
  unfolding sw_run
  push_count-run [] v = omega (arith, v.due)
  push_count-run (x ∷ xs) v =
      omega (arith, push_count-run xs (push-IsValid d x v), push_count-push x v)

  pub sum_when_due :
      {sw : SlidingWindow F} (x : F)
      → IsValid sw
      → sw.push_count ≡ 99
      → let sw' = sw_push d sw x in sw'.run_sum ≡ exact_sum d sw'.buffer sw'.count
  unfolding sw_push
  sum_when_due {sw} x v e = ground arith

  pub sum_when_early :
      {sw : SlidingWindow F} (x : F)
      → IsValid sw
      → sw.push_count ≢ 99
      → (sw_push d sw x).run_sum
        ≡ add
            (if sw.count == swag_capacity then sub sw.run_sum (sw.buffer sw.head) else sw.run_sum)
            x
  unfolding sw_push
  sum_when_early x v n = ground arith

  sw_run-append :
      (xs ys : List F) (sw : SlidingWindow F)
      → sw_run d sw (xs ++ ys) ≡ sw_run d (sw_run d sw xs) ys
  unfolding sw_run
  sw_run-append [] ys sw = refl
  sw_run-append (x ∷ xs) ys sw = sw_run-append xs ys (sw_push d sw x)

  -- Whatever the rounding of the machine's arithmetic: after every hundredth push the running sum is
  -- the sum of the samples in the buffer, added up anew from zero, so no rounding error of the
  -- earlier pushes is left in it.
  pub no_drift_after_hundred :
      (xs : List F) (x : F)
      → length xs % 100 ≡ 99
      → let sw = sw_run d (sw_init d) (xs ++ x ∷ []) in sw.run_sum ≡ exact_sum d sw.buffer sw.count
  unfolding sw_run sw_init
  no_drift_after_hundred xs x h = rw (sw_run-append xs (x ∷ []) (sw_init d)) (
      sum_when_due x (run-IsValid d xs (init-IsValid d))
        (omega (arith, push_count-run xs (init-IsValid d))))

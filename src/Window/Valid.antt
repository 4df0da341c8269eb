-- ===== src/Window/Valid.antt =====
-- The indices and counters of a window stay in range.
use capstone_monitor.Prelude.{◌≤◌, ◌<◌, ◌≡◌, refl, ◌≢◌, List, [], ◌∷◌, arith}
use capstone_monitor.Double.{Double}
use capstone_monitor.Window.{SlidingWindow, swag_capacity, sw_init, sw_push, sw_run}

-- `head` is where the next sample goes: until the window is full, just past the samples.
pub record IsValid {F : Type 0} (sw : SlidingWindow F) : Type 0 where
  pub head_in : sw.head < swag_capacity
  pub count_in : sw.count ≤ swag_capacity
  pub filling : sw.count ≢ swag_capacity → sw.head ≡ sw.count
  pub due : sw.push_count < 100

module _ (d : Double) where
  open d use {F}

  pub init-IsValid : IsValid (sw_init d)
  unfolding sw_init
  init-IsValid = record {
    head_in = omega arith;
    count_in = omega arith;
    filling = λ _. refl;
    due = omega arith;
  }

  pub push-IsValid : {sw : SlidingWindow F} (x : F) → IsValid sw → IsValid (sw_push d sw x)
  unfolding sw_push
  push-IsValid x v = ground arith

  pub run-IsValid : (xs : List F) {sw : SlidingWindow F} → IsValid sw → IsValid (sw_run d sw xs)
  unfolding sw_run
  run-IsValid [] v = v
  run-IsValid (x ∷ xs) v = run-IsValid xs (push-IsValid x v)

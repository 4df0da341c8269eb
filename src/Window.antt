-- ===== src/Window.antt =====
-- The sliding window (src/sliding_window.c, src/sliding_window.h): the last ten samples with their
-- running sum. The buffer is a function of the index; `Window.Valid` shows that every access is in
-- range. Samples are doubles, whose arithmetic is the parameter `d`.
pub mod Valid
pub mod Contents
pub mod Whole
pub mod Exact
pub mod Drift
mod Tests
use capstone_monitor.Prelude.{
  ℕ, zero, suc, ◌+◌, ◌*◌, ◌%◌, ◌^◌, List, [], ◌∷◌, ◌==◌, leb, if◌then◌else◌, update,
}
use capstone_monitor.Double.{Double}

abbrev pub swag_capacity : ℕ
swag_capacity = 10

pub record SlidingWindow (F : Type 0) : Type 0 where
  pub buffer : ℕ → F
  pub head : ℕ
  pub count : ℕ
  pub run_sum : F
  pub push_count : ℕ

module _ (d : Double) where
  open d use {F, zero as fzero, add, sub, div, of_nat}

  unfoldable pub sw_init : SlidingWindow F
  sw_init = record { buffer = λ _. fzero; head = 0; count = 0; run_sum = fzero; push_count = 0 }

  -- `for (j = 0; j < n; j++) exact += buffer[j];` from `exact = 0.0`
  pub exact_sum : (ℕ → F) → ℕ → F
  exact_sum buffer zero = fzero
  exact_sum buffer (suc j) = add (exact_sum buffer j) (buffer j)

  -- The first half of `sw_push`: evict the oldest sample from the sum, or count one more.
  evict : SlidingWindow F → SlidingWindow F
  evict sw =
      if sw.count == swag_capacity
      then record sw { run_sum = sub sw.run_sum (sw.buffer sw.head) }
      else record sw { count = sw.count + 1 }

  store : SlidingWindow F → F → SlidingWindow F
  store sw sample = record sw {
    buffer = update sw.buffer sw.head sample;
    run_sum = add sw.run_sum sample;
    head = (sw.head + 1) % swag_capacity;
  }

  -- Every 100th push computes the sum anew; `push_count` is a `uint32_t`.
  recompute : SlidingWindow F → SlidingWindow F
  recompute sw =
      let pushes = (sw.push_count + 1) % 2 ^ 32 in
      if leb (swag_capacity * swag_capacity) pushes
      then record sw { push_count = 0; run_sum = exact_sum sw.buffer sw.count }
      else record sw { push_count = pushes }

  unfoldable pub sw_push : SlidingWindow F → F → SlidingWindow F
  unfolding evict store recompute
  sw_push sw sample = recompute (store (evict sw) sample)

  unfoldable pub sw_mean : SlidingWindow F → F
  sw_mean sw = if sw.count == 0 then fzero else div sw.run_sum (of_nat sw.count)

  -- A window after the samples of a list, in that order.
  pub sw_run : SlidingWindow F → List F → SlidingWindow F
  sw_run sw [] = sw
  sw_run sw (x ∷ xs) = sw_run (sw_push sw x) xs

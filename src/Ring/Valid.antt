-- ===== src/Ring/Valid.antt =====
-- Both indices of a ring buffer stay inside the slot array.
use capstone_monitor.Prelude.{ℕ, ◌+◌, ◌-◌, ◌%◌, ◌<◌, ◌≡◌, refl, arith}
use capstone_monitor.Metrics.{SmoothedMetrics}
use capstone_monitor.Ring.{RingBuffer, rb_capacity, rb_init, rb_push, rb_pop}

pub record IsValid {F : Type 0} (rb : RingBuffer F) : Type 0 where
  pub head_in : rb.head < rb_capacity
  pub tail_in : rb.tail < rb_capacity

module _ {F : Type 0} where
  -- the number of entries that wait to be read
  abbrev pub count : RingBuffer F → ℕ
  count rb = (rb.head + rb_capacity - rb.tail) % rb_capacity

  pub init-IsValid :
      (zero : F) (rb : RingBuffer F) → IsValid (rb_init zero rb) × (count (rb_init zero rb) ≡ 0)
  unfolding rb_init
  init-IsValid zero rb = (record { head_in = omega arith; tail_in = omega arith }, refl)

  pub push-IsValid :
      {rb : RingBuffer F} (m : SmoothedMetrics F) → IsValid rb → IsValid (rb_push rb m).1
  unfolding rb_push
  push-IsValid m v = ground arith

  pub pop-IsValid : {rb : RingBuffer F} → IsValid rb → IsValid (rb_pop rb).1
  unfolding rb_pop
  pop-IsValid v = ground arith

-- ===== src/Ring.antt =====
-- The shared-memory ring buffer (src/ring_buffer.c, src/ring_buffer.h). The slot array is a function
-- of the index; `Ring.Valid` shows that every access is in range. A segment is the value
-- that its mapping shows; `Ring.Shared` has the calls that create, attach and destroy it.
pub mod Valid
pub mod Queue
pub mod Spsc
pub mod Status
pub mod Shared
mod Tests
use capstone_monitor.Prelude.{
  ℕ, ◌+◌, ◌%◌, Bool, true, false, ◌||◌, ◌&&◌, not, Option, none, some, ◌==◌, if◌then◌else◌, update,
}
use capstone_monitor.Metrics.{
  SmoothedMetrics, zero_metrics, monitor_abi_version, sizeof_smoothed_metrics,
}

abbrev pub rb_capacity : ℕ
rb_capacity = 32768

pub record RingBuffer (F : Type 0) : Type 0 where
  pub slots : ℕ → SmoothedMetrics F
  pub head : ℕ
  pub tail : ℕ
  pub abi_version : ℕ
  pub slot_size : ℕ

module _ {F : Type 0} where
  -- What `rb_create_named` writes into a segment that it has mapped.
  pub rb_init : F → RingBuffer F → RingBuffer F
  rb_init zero rb = record rb {
    slots = λ _. zero_metrics zero;
    head = 0;
    tail = 0;
    abi_version = monitor_abi_version;
    slot_size = sizeof_smoothed_metrics;
  }

  pub rb_push : RingBuffer F → SmoothedMetrics F → Bool × RingBuffer F
  rb_push rb m =
      let next_head = (rb.head + 1) % rb_capacity in
      if next_head == rb.tail
      then (false, rb)
      else (true, record rb { slots = update rb.slots rb.head m; head = next_head })

  -- `none` is the result `false`, which leaves `*out` as it was.
  pub rb_pop : RingBuffer F → Option (SmoothedMetrics F) × RingBuffer F
  rb_pop rb =
      if rb.tail == rb.head
      then (none, rb)
      else (some (rb.slots rb.tail), record rb { tail = (rb.tail + 1) % rb_capacity })

  pub rb_is_full : RingBuffer F → Bool
  rb_is_full rb = (rb.head + 1) % rb_capacity == rb.tail

  pub rb_is_empty : RingBuffer F → Bool
  rb_is_empty rb = rb.head == rb.tail

  pub rb_check_abi : RingBuffer F → Bool
  rb_check_abi rb =
      if not (rb.abi_version == monitor_abi_version)
        || not (rb.slot_size == sizeof_smoothed_metrics)
      then false
      else true

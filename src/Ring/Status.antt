-- ===== src/Ring/Status.antt =====
-- A fresh segment, and the status functions of the ring buffer (src/ring_buffer.c).
use capstone_monitor.Prelude.{◌-◌, ◌≡◌, ◌↔◌, ◌∙◌, ap, refl, List, [], true, arith, length, ◌==◌}
use capstone_monitor.Prelude.Circular.{circular}
use capstone_monitor.Metrics.{monitor_abi_version, sizeof_smoothed_metrics}
use capstone_monitor.Ring.{RingBuffer, rb_capacity, rb_init, rb_is_full, rb_is_empty, rb_check_abi}
use capstone_monitor.Ring.Valid.{IsValid, init-IsValid}
use capstone_monitor.Ring.Queue.{
  contents, length-contents, next_count, Call, rb_run, queue_run, run_refines,
}

module _ {F : Type 0} where
  pub init_contents : (zero : F) (rb : RingBuffer F) → contents (rb_init zero rb) ≡ []
  init_contents zero rb =
      ap (circular rb_capacity (rb_init zero rb).slots (rb_init zero rb).tail)
        (init-IsValid zero rb).1

  -- A segment that was created passes the consumer's check, and from then on its calls of `rb_push`
  -- and `rb_pop` answer as those of a queue that is empty at first.
  pub init_is_empty_queue :
      (zero : F) (rb : RingBuffer F) (cs : List (Call F))
      → (rb_check_abi (rb_init zero rb) ≡ true) × (rb_run (rb_init zero rb) cs ≡ queue_run [] cs)
  unfolding rb_check_abi rb_init
  init_is_empty_queue zero rb cs = (
    refl,
    run_refines cs (init-IsValid zero rb).0 ∙ ap (λ q. queue_run q cs) (init_contents zero rb),
  )

  -- On a valid buffer the two status functions tell whether the queue holds no entry, and whether it
  -- holds all of `rb_capacity - 1`.
  status_of_contents :
      {rb : RingBuffer F}
      → IsValid rb
      → (rb_is_empty rb ≡ (length (contents rb) == 0))
        × (rb_is_full rb ≡ (length (contents rb) == rb_capacity - 1))
  unfolding rb_is_empty rb_is_full
  status_of_contents {rb} v = (
    ground (arith, length-contents rb, next_count rb v),
    ground (arith, length-contents rb, next_count rb v),
  )

  -- The check passes exactly when the version and the slot size are those of this build.
  rb_check_abi_iff :
      (rb : RingBuffer F)
      → (rb_check_abi rb ≡ true)
        ↔ ((rb.abi_version ≡ monitor_abi_version) × (rb.slot_size ≡ sizeof_smoothed_metrics))
  unfolding rb_check_abi
  rb_check_abi_iff rb = (λ h. ground arith, λ h. ground arith)

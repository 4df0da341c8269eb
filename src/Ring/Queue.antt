-- ===== src/Ring/Queue.antt =====
-- A valid ring buffer is a first-in first-out queue of at most `rb_capacity - 1` entries.
use capstone_monitor.Prelude.{
  suc, ◌+◌, ◌-◌, ◌%◌, ◌≡◌, ◌↔◌, ◌≢◌, refl, List, [], ◌∷◌, ◌++◌, Bool, true, false, Option, none,
  some, arith, length, if◌then◌else◌, ◌==◌,
}
use capstone_monitor.Prelude.Circular.{
  circular, circular-write, circular_of_ne_zero, length-circular,
}
use capstone_monitor.Metrics.{SmoothedMetrics}
use capstone_monitor.Ring.{RingBuffer, rb_capacity, rb_push, rb_pop}
use capstone_monitor.Ring.Valid.{IsValid, count, push-IsValid, pop-IsValid}

-- What a producer and a consumer see of the buffer.
pub data Call (F : Type 0) : Type 0 where
  push : SmoothedMetrics F → Call F
  pop : Call F

pub data Reply (F : Type 0) : Type 0 where
  pushed : Bool → Reply F
  popped : Option (SmoothedMetrics F) → Reply F

module _ {F : Type 0} where
  abbrev pub contents : RingBuffer F → List (SmoothedMetrics F)
  contents rb = circular rb_capacity rb.slots rb.tail (count rb)

  -- A push that fits adds one to the count; a full buffer has one slot left free.
  pub next_count :
      (rb : RingBuffer F)
      → IsValid rb
      → (rb.head ≡ (rb.tail + count rb) % rb_capacity)
        × (((rb.head + 1) % rb_capacity ≡ rb.tail) ↔ (count rb ≡ rb_capacity - 1))
        × ((rb.head + 1) % rb_capacity ≢ rb.tail
            → ((rb.head + 1) % rb_capacity + rb_capacity - rb.tail) % rb_capacity ≡ suc (count rb))
        × (rb.tail ≢ rb.head
            → count rb ≡ suc ((rb.head + rb_capacity - (rb.tail + 1) % rb_capacity) % rb_capacity))
  next_count rb v =
      (omega arith, (λ e. omega arith, λ e. omega arith), λ h. omega arith, λ h. omega arith)

  pub length-contents : (rb : RingBuffer F) → length (contents rb) ≡ count rb
  length-contents rb = length-circular rb_capacity rb.slots rb.tail (count rb)

  -- The specification: a queue that refuses an entry when it holds `rb_capacity - 1`.
  unfoldable pub queue_push :
      List (SmoothedMetrics F) → SmoothedMetrics F → Bool × List (SmoothedMetrics F)
  queue_push q m = if length q == rb_capacity - 1 then (false, q) else (true, q ++ m ∷ [])

  unfoldable pub queue_pop :
      List (SmoothedMetrics F) → Option (SmoothedMetrics F) × List (SmoothedMetrics F)
  queue_pop [] = (none, [])
  queue_pop (m ∷ q) = (some m, q)

  unfoldable pub queue_run : List (SmoothedMetrics F) → List (Call F) → List (Reply F)
  queue_run q [] = []
  queue_run q (push m ∷ cs) = let (r, q') = queue_push q m in pushed r ∷ queue_run q' cs
  queue_run q (pop ∷ cs) = let (r, q') = queue_pop q in popped r ∷ queue_run q' cs

  unfoldable pub rb_run : RingBuffer F → List (Call F) → List (Reply F)
  rb_run rb [] = []
  rb_run rb (push m ∷ cs) = let (r, rb') = rb_push rb m in pushed r ∷ rb_run rb' cs
  rb_run rb (pop ∷ cs) = let (r, rb') = rb_pop rb in popped r ∷ rb_run rb' cs

  -- `rb_push` answers as the queue does, and leaves the buffer holding the queue's entries.
  pub push_refines :
      {rb : RingBuffer F} (m : SmoothedMetrics F)
      → IsValid rb
      → let (r, rb') = rb_push rb m in (r, contents rb') ≡ queue_push (contents rb) m
  unfolding rb_push queue_push
  push_refines {rb} m v = ground (
    arith,
    length-contents rb,
    circular-write rb_capacity rb.slots rb.tail (count rb) rb.head m,
    next_count rb v,
  )

  pub pop_refines :
      {rb : RingBuffer F}
      → IsValid rb
      → let (r, rb') = rb_pop rb in (r, contents rb') ≡ queue_pop (contents rb)
  unfolding rb_pop queue_pop
  pop_refines {rb} v =
      ground (arith, circular_of_ne_zero rb_capacity rb.slots rb.tail (count rb), next_count rb v)

  -- No sequence of calls of `rb_push` and `rb_pop` tells a valid buffer from the queue of its contents,
  -- which takes up to `rb_capacity - 1` entries and gives them back in their order.
  pub run_refines :
      (cs : List (Call F)) {rb : RingBuffer F}
      → IsValid rb
      → rb_run rb cs ≡ queue_run (contents rb) cs
  unfolding rb_run queue_run
  run_refines [] v = refl
  run_refines (push m ∷ cs) v = rw (run_refines cs (push-IsValid m v), ← push_refines m v)
  run_refines (pop ∷ cs) v = rw (run_refines cs (pop-IsValid v), ← pop_refines v)

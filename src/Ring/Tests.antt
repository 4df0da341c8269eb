-- ===== src/Ring/Tests.antt =====
-- The ring buffer at concrete states.
use capstone_monitor.Prelude.{
  ℕ, ◌≡◌, ◌≢◌, ◌<◌, ◌≤◌, ◌⊎◌, inr, refl, update, List, [], ◌∷◌, true, some, arith,
}
use capstone_monitor.Metrics.{SmoothedMetrics, zero_metrics}
use capstone_monitor.Ring.{RingBuffer, rb_capacity}
use capstone_monitor.Ring.Valid.{IsValid}
use capstone_monitor.Ring.Queue.{
  Call, push, pop, pushed, popped, rb_run, queue_run, queue_push, queue_pop, run_refines,
}
use capstone_monitor.Ring.Spsc.Defs.{
  Producer, Consumer, System, load_head, find_room, write_slot, store_head, load_tail, find_entry,
  copy_slot, Reach, here, later,
}
use capstone_monitor.Ring.Spsc.Progress.{
  pusher, During, own, foreign, stays, IsIdle, CanGoOn, calls_are_wait_free,
}
use capstone_monitor.Ring.Spsc.Order.{fifo_order, no_data_race}

abbrev entry : ℕ → SmoothedMetrics ℕ
entry pid = record (zero_metrics 0) { pid = pid }

abbrev fresh : RingBuffer ℕ
fresh = record { slots = λ _. zero_metrics 0; head = 0; tail = 0; abi_version = 5; slot_size = 88 }

-- one entry in the last slot, the next one goes to slot 0
abbrev wrapping : RingBuffer ℕ
wrapping = record fresh { slots = λ i. entry i; head = 0; tail = 32767 }

abbrev script : List (Call ℕ)
script = push (entry 7) ∷ push (entry 8) ∷ pop ∷ pop ∷ pop ∷ []

wrapping-IsValid : IsValid wrapping
wrapping-IsValid = omega arith

run_refines_example :
    rb_run wrapping script
    ≡ pushed true
      ∷ pushed true
      ∷ popped (some (entry 32767))
      ∷ popped (some (entry 7))
      ∷ popped (some (entry 8))
      ∷ []
unfolding queue_run queue_push queue_pop
run_refines_example = run_refines script wrapping-IsValid

-- The producer has pushed one entry and is about to write the next; the consumer has found the first.
abbrev racing : System ℕ
racing = record {
  rb = record fresh { slots = update fresh.slots 0 (entry 7); head = 1 };
  producer = Producer.fits 1 (entry 8);
  consumer = Consumer.waits 0;
  pushed = entry 7 ∷ [];
  popped = [];
}

racing-Reach : Reach fresh racing
racing-Reach =
    later
      (later
        (later
          (later
            (later
              (later (later (later here (load_head (entry 7))) (find_room (omega arith)))
                write_slot)
              store_head)
            load_tail)
          (find_entry (omega arith)))
        (load_head (entry 8)))
      (find_room (omega arith))

fresh-IsValid : IsValid fresh
fresh-IsValid = omega arith

fifo_order_example : ◌≡◌ {A = List (SmoothedMetrics ℕ)} (entry 7 ∷ []) (entry 7 ∷ [])
fifo_order_example = fifo_order fresh-IsValid racing-Reach

no_data_race_example : ◌≢◌ {A = ℕ} 1 0 × (1 < rb_capacity) × (0 < rb_capacity)
no_data_race_example = no_data_race {m = entry 8} fresh-IsValid racing-Reach refl refl

-- The producer ends its call while the consumer copies its entry.
abbrev pushed_on : System ℕ
pushed_on = record {
  rb = record fresh { slots = update (racing.rb.slots) 1 (entry 8); head = 2 };
  producer = Producer.idle;
  consumer = Consumer.copied 0 (entry 7);
  pushed = entry 7 ∷ entry 8 ∷ [];
  popped = [];
}

while_pushing : During pusher racing 2 pushed_on
while_pushing = own write_slot refl (foreign copy_slot (inr refl) (own store_head refl stays))

calls_are_wait_free_example : (◌≤◌ 2 3) × (IsIdle pusher pushed_on ⊎ CanGoOn pusher pushed_on)
calls_are_wait_free_example = calls_are_wait_free pusher while_pushing

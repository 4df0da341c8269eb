-- ===== src/Ring/Spsc/Order.antt =====
-- Every step keeps the agreement, so every reachable state is in order and free of races.
use capstone_monitor.Prelude.{
  ℕ, ◌<◌, update_self, ◌≡◌, ◌≢◌, ◌∙◌, refl, sym, ap, List, [], ◌∷◌, ◌++◌, arith, append_assoc,
  append-nil,
}
use capstone_monitor.Metrics.{SmoothedMetrics}
use capstone_monitor.Ring.{RingBuffer, rb_capacity}
use capstone_monitor.Ring.Valid.{IsValid}
use capstone_monitor.Ring.Queue.{contents}
use capstone_monitor.Ring.Spsc.Defs.{
  Producer, Consumer, System, next, Step, load_head, find_full, find_room, write_slot, store_head,
  load_tail, find_empty, find_entry, copy_slot, store_tail, start, Reach, here, later,
}
use capstone_monitor.Ring.Spsc.Invariant.{
  Agrees, ProducerAgrees, ConsumerAgrees, consumer-write, consumer-publish, producer-release,
  contents-publish, contents-release, contents-write,
}

module _ {F : Type 0} where
  pushed-order :
      (before ps qs c c' : List (SmoothedMetrics F)) (m : SmoothedMetrics F)
      → before ++ ps ≡ qs ++ c
      → c' ≡ c ++ m ∷ []
      → before ++ (ps ++ m ∷ []) ≡ qs ++ c'
  pushed-order before ps qs c c' m e d =
      sym (append_assoc before ps (m ∷ []))
      ∙ ap (λ xs. xs ++ m ∷ []) e
      ∙ append_assoc qs c (m ∷ [])
      ∙ ap (λ xs. qs ++ xs) (sym d)

  popped-order :
      (before ps qs c c' : List (SmoothedMetrics F)) (m : SmoothedMetrics F)
      → before ++ ps ≡ qs ++ c
      → c ≡ m ∷ c'
      → before ++ ps ≡ (qs ++ m ∷ []) ++ c'
  popped-order before ps qs c c' m e d =
      e ∙ ap (λ xs. qs ++ xs) d ∙ sym (append_assoc qs (m ∷ []) c')

  publish-contents :
      (rb : RingBuffer F) {h : ℕ} {m : SmoothedMetrics F}
      → IsValid rb
      → ProducerAgrees rb (Producer.written h m)
      → contents (record rb { head = next h }) ≡ contents rb ++ m ∷ []
  publish-contents rb {m = m} v (e, n, w) = rw (← w, e) (contents-publish rb v (rw e at n))

  release-contents :
      (rb : RingBuffer F) {t : ℕ} {m : SmoothedMetrics F}
      → IsValid rb
      → ConsumerAgrees rb (Consumer.copied t m)
      → contents rb ≡ m ∷ contents (record rb { tail = next t })
  release-contents rb v (e, n, w) = rw (← w, e) (contents-release rb v (rw e at n))

  race_free :
      {rb : RingBuffer F} {h t : ℕ} (m : SmoothedMetrics F)
      → IsValid rb
      → ProducerAgrees rb (Producer.fits h m)
      → ConsumerAgrees rb (Consumer.waits t)
      → (h ≢ t) × (h < rb_capacity) × (t < rb_capacity)
  race_free m v a b = (omega arith, omega arith, omega arith)

  -- `p` and `c` are where the two threads of `s` stand.
  Step-Agrees :
      {before : List (SmoothedMetrics F)} {s t : System F} {p : Producer F} {c : Consumer F}
      → Step s p c t
      → Agrees before s
      → ProducerAgrees s.rb p
      → ConsumerAgrees s.rb c
      → Agrees before t
  Step-Agrees (load_head m) a ap' ac = record {
    valid = a.valid;
    producer_ok = refl;
    consumer_ok = a.consumer_ok;
    order = a.order;
  }
  Step-Agrees (find_full e) a ap' ac = record {
    valid = a.valid;
    producer_ok = tt;
    consumer_ok = a.consumer_ok;
    order = a.order;
  }
  Step-Agrees (find_room n) a ap' ac = record {
    valid = a.valid;
    producer_ok = (ap', n);
    consumer_ok = a.consumer_ok;
    order = a.order;
  }
  Step-Agrees {s = s} (write_slot {h} {m}) a (e, n) ac = record {
    valid = record { head_in = a.valid.head_in; tail_in = a.valid.tail_in };
    producer_ok = (e, n, update_self s.rb.slots h m);
    consumer_ok = rw e (consumer-write s.rb m s.consumer a.consumer_ok);
    order = a.order ∙ ap (λ q. s.popped ++ q) (rw e (sym (contents-write s.rb m a.valid)));
  }
  Step-Agrees {before} {s} (store_head {h} {m}) a (e, n, w) ac =
      let n' = rw e at n in
      record {
        valid = record { head_in = omega arith; tail_in = a.valid.tail_in };
        producer_ok = tt;
        consumer_ok = rw e (consumer-publish s.rb s.consumer a.valid n' a.consumer_ok);
        order =
            pushed-order before s.pushed s.popped _ _ m a.order
              (publish-contents s.rb a.valid (e, n, w));
      }
  Step-Agrees load_tail a ap' ac = record {
    valid = a.valid;
    producer_ok = a.producer_ok;
    consumer_ok = refl;
    order = a.order;
  }
  Step-Agrees (find_empty e) a ap' ac = record {
    valid = a.valid;
    producer_ok = a.producer_ok;
    consumer_ok = tt;
    order = a.order;
  }
  Step-Agrees (find_entry n) a ap' ac = record {
    valid = a.valid;
    producer_ok = a.producer_ok;
    consumer_ok = (ac, n);
    order = a.order;
  }
  Step-Agrees copy_slot a ap' ac = record {
    valid = a.valid;
    producer_ok = a.producer_ok;
    consumer_ok = (ac.0, ac.1, refl);
    order = a.order;
  }
  Step-Agrees {before} {s} (store_tail {t} {m}) a ap' (e, n, w) =
      let n' = rw e at n in
      record {
        valid = record { head_in = a.valid.head_in; tail_in = omega arith };
        producer_ok = rw e (producer-release s.rb s.producer a.valid n' a.producer_ok);
        consumer_ok = tt;
        order =
            popped-order before s.pushed s.popped _ _ m a.order
              (release-contents s.rb a.valid (e, n, w));
      }

  start-Agrees : {rb : RingBuffer F} → IsValid rb → Agrees (contents rb) (start rb)
  start-Agrees {rb} v = record {
    valid = v;
    producer_ok = tt;
    consumer_ok = tt;
    order = append-nil (contents rb);
  }

  pub Reach-Agrees :
      {rb : RingBuffer F} {s : System F} → IsValid rb → Reach rb s → Agrees (contents rb) s
  Reach-Agrees v here = start-Agrees v
  Reach-Agrees v (later r st) =
      let a = Reach-Agrees v r in Step-Agrees st a a.producer_ok a.consumer_ok

  -- However the accesses of `rb_push` and `rb_pop` interleave, what has been popped, followed by what
  -- the buffer holds, is what it held at first followed by what has been pushed: no entry is lost,
  -- repeated, torn or reordered.
  pub fifo_order :
      {rb : RingBuffer F} {s : System F}
      → IsValid rb
      → Reach rb s
      → contents rb ++ s.pushed ≡ s.popped ++ contents s.rb
  fifo_order v r = (Reach-Agrees v r).order

  -- While the producer is about to write a slot and the consumer about to read one, the two slots
  -- differ, and both indices are inside the slot array.
  pub no_data_race :
      {rb : RingBuffer F} {s : System F} {h t : ℕ} {m : SmoothedMetrics F}
      → IsValid rb
      → Reach rb s
      → s.producer ≡ Producer.fits h m
      → s.consumer ≡ Consumer.waits t
      → (h ≢ t) × (h < rb_capacity) × (t < rb_capacity)
  no_data_race {m = m} v r ep ec =
      race_free m (Reach-Agrees v r).valid (rw ep at (Reach-Agrees v r).producer_ok)
        (rw ec at (Reach-Agrees v r).consumer_ok)

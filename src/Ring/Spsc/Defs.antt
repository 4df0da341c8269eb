-- ===== src/Ring/Spsc/Defs.antt =====
-- The steps of a producer and a consumer (src/ring_buffer.c, `rb_push` and `rb_pop`).
use capstone_monitor.Prelude.{ℕ, ◌+◌, ◌%◌, ◌≡◌, ◌≢◌, List, [], ◌∷◌, ◌++◌, update}
use capstone_monitor.Metrics.{SmoothedMetrics}
use capstone_monitor.Ring.{RingBuffer, rb_capacity}

-- Where a call of `rb_push` stands, with its locals.
pub data Producer (F : Type 0) : Type 0 where
  idle : Producer F
  -- `head` is loaded, `tail` is not
  loaded : (head : ℕ) → SmoothedMetrics F → Producer F
  -- the test against `tail` has passed
  fits : (head : ℕ) → SmoothedMetrics F → Producer F
  -- the slot is written, `head` is not
  written : (head : ℕ) → SmoothedMetrics F → Producer F

-- Where a call of `rb_pop` stands.
pub data Consumer (F : Type 0) : Type 0 where
  idle : Consumer F
  loaded : (tail : ℕ) → Consumer F
  waits : (tail : ℕ) → Consumer F
  copied : (tail : ℕ) → SmoothedMetrics F → Consumer F

-- The segment, both threads, and what each call has pushed and popped so far.
pub record System (F : Type 0) : Type 0 where
  pub rb : RingBuffer F
  pub producer : Producer F
  pub consumer : Consumer F
  pub pushed : List (SmoothedMetrics F)
  pub popped : List (SmoothedMetrics F)

abbrev pub next : ℕ → ℕ
next i = (i + 1) % rb_capacity

pub data Step {F : Type 0} (s : System F) : Producer F → Consumer F → System F → Type 0 where
  load_head :
      (m : SmoothedMetrics F)
      → {c : Consumer F}
      → Step s Producer.idle c (record s { producer = Producer.loaded s.rb.head m })
  find_full :
      {h : ℕ} {m : SmoothedMetrics F} {c : Consumer F}
      → next h ≡ s.rb.tail
      → Step s (Producer.loaded h m) c (record s { producer = Producer.idle })
  find_room :
      {h : ℕ} {m : SmoothedMetrics F} {c : Consumer F}
      → next h ≢ s.rb.tail
      → Step s (Producer.loaded h m) c (record s { producer = Producer.fits h m })
  write_slot :
      {h : ℕ} {m : SmoothedMetrics F} {c : Consumer F}
      → Step s (Producer.fits h m) c (record s {
        rb = record (s.rb) { slots = update s.rb.slots h m };
        producer = Producer.written h m;
      })
  store_head :
      {h : ℕ} {m : SmoothedMetrics F} {c : Consumer F}
      → Step s (Producer.written h m) c (record s {
        rb = record (s.rb) { head = next h };
        producer = Producer.idle;
        pushed = s.pushed ++ m ∷ [];
      })
  load_tail :
      {p : Producer F} → Step s p Consumer.idle (record s { consumer = Consumer.loaded s.rb.tail })
  find_empty :
      {t : ℕ} {p : Producer F}
      → t ≡ s.rb.head
      → Step s p (Consumer.loaded t) (record s { consumer = Consumer.idle })
  find_entry :
      {t : ℕ} {p : Producer F}
      → t ≢ s.rb.head
      → Step s p (Consumer.loaded t) (record s { consumer = Consumer.waits t })
  copy_slot :
      {t : ℕ} {p : Producer F}
      → Step s p (Consumer.waits t) (record s { consumer = Consumer.copied t (s.rb.slots t) })
  store_tail :
      {t : ℕ} {m : SmoothedMetrics F} {p : Producer F}
      → Step s p (Consumer.copied t m) (record s {
        rb = record (s.rb) { tail = next t };
        consumer = Consumer.idle;
        popped = s.popped ++ m ∷ [];
      })

abbrev pub start : {F : Type 0} → RingBuffer F → System F
start rb = record {
  rb = rb;
  producer = Producer.idle;
  consumer = Consumer.idle;
  pushed = [];
  popped = [];
}

-- What the two threads can reach from a ring buffer that neither has used.
pub data Reach {F : Type 0} (rb : RingBuffer F) : System F → Type 0 where
  here : Reach rb (start rb)
  later : {s t : System F} → Reach rb s → Step s s.producer s.consumer t → Reach rb t

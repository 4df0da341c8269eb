-- ===== src/Ring/Spsc/Invariant.antt =====
-- What holds between the accesses of the two threads: the locals agree with the shared indices, and
-- the entries come out in the order in which they went in.
use capstone_monitor.Prelude.{◌≡◌, ◌≢◌, ◌∙◌, sym, ap, List, [], ◌∷◌, ◌++◌, arith, update}
use capstone_monitor.Prelude.Circular.{circular, circular-suc, circular-update}
use capstone_monitor.Metrics.{SmoothedMetrics}
use capstone_monitor.Ring.{RingBuffer, rb_capacity}
use capstone_monitor.Ring.Valid.{IsValid, count}
use capstone_monitor.Ring.Queue.{contents, next_count}
use capstone_monitor.Ring.Spsc.Defs.{Producer, Consumer, System, next}

module _ {F : Type 0} where
  abbrev pub ProducerAgrees : RingBuffer F → Producer F → Type 0
  ProducerAgrees rb Producer.idle = Unit
  ProducerAgrees rb (Producer.loaded h m) = h ≡ rb.head
  ProducerAgrees rb (Producer.fits h m) = (h ≡ rb.head) × (next h ≢ rb.tail)
  ProducerAgrees rb (Producer.written h m) = (h ≡ rb.head) × (next h ≢ rb.tail) × (rb.slots h ≡ m)

  abbrev pub ConsumerAgrees : RingBuffer F → Consumer F → Type 0
  ConsumerAgrees rb Consumer.idle = Unit
  ConsumerAgrees rb (Consumer.loaded t) = t ≡ rb.tail
  ConsumerAgrees rb (Consumer.waits t) = (t ≡ rb.tail) × (t ≢ rb.head)
  ConsumerAgrees rb (Consumer.copied t m) = (t ≡ rb.tail) × (t ≢ rb.head) × (rb.slots t ≡ m)

  pub record Agrees (before : List (SmoothedMetrics F)) (s : System F) : Type 0 where
    pub valid : IsValid s.rb
    pub producer_ok : ProducerAgrees s.rb s.producer
    pub consumer_ok : ConsumerAgrees s.rb s.consumer
    pub order : before ++ s.pushed ≡ s.popped ++ contents s.rb

  -- Moves of one side keep what the other side knows.
  pub consumer-write :
      (rb : RingBuffer F) (m : SmoothedMetrics F) (c : Consumer F)
      → ConsumerAgrees rb c
      → ConsumerAgrees (record rb { slots = update rb.slots rb.head m }) c
  consumer-write rb m Consumer.idle a = tt
  consumer-write rb m c a = ground arith

  pub consumer-publish :
      (rb : RingBuffer F) (c : Consumer F)
      → IsValid rb
      → next rb.head ≢ rb.tail
      → ConsumerAgrees rb c
      → ConsumerAgrees (record rb { head = next rb.head }) c
  consumer-publish rb Consumer.idle v n a = tt
  consumer-publish rb c v n a = ground arith

  pub producer-release :
      (rb : RingBuffer F) (p : Producer F)
      → IsValid rb
      → rb.tail ≢ rb.head
      → ProducerAgrees rb p
      → ProducerAgrees (record rb { tail = next rb.tail }) p
  producer-release rb Producer.idle v n a = tt
  producer-release rb p v n a = ground arith

  pub contents-publish :
      (rb : RingBuffer F)
      → IsValid rb
      → next rb.head ≢ rb.tail
      → contents (record rb { head = next rb.head }) ≡ contents rb ++ rb.slots rb.head ∷ []
  contents-publish rb v n =
      ap (circular rb_capacity rb.slots rb.tail) ((next_count rb v).2 n)
      ∙ circular-suc rb_capacity rb.slots rb.tail (count rb) v.tail_in
      ∙ ap (λ i. contents rb ++ rb.slots i ∷ []) (sym (next_count rb v).0)

  pub contents-release :
      (rb : RingBuffer F)
      → IsValid rb
      → rb.tail ≢ rb.head
      → contents rb ≡ rb.slots rb.tail ∷ contents (record rb { tail = next rb.tail })
  contents-release rb v n = ap (circular rb_capacity rb.slots rb.tail) ((next_count rb v).3 n)

  pub contents-write :
      (rb : RingBuffer F) (m : SmoothedMetrics F)
      → IsValid rb
      → contents (record rb { slots = update rb.slots rb.head m }) ≡ contents rb
  contents-write rb m v =
      circular-update rb_capacity rb.slots rb.tail (count rb) rb.head m v.tail_in (omega arith)
        (next_count rb v).0

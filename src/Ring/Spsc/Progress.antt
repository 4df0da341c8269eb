-- ===== src/Ring/Spsc/Progress.antt =====
-- The steps that a call has before it while the other thread moves (src/ring_buffer.c: rb_push, rb_pop).
use capstone_monitor.Prelude.{
  ℕ, suc, ◌+◌, ◌≤◌, ◌<◌, ◌≡◌, ◌⊎◌, ap, refl, inl, inr, arith, Bool-cases, ◌==◌, ==_iff,
}
use capstone_monitor.Ring.Spsc.Defs.{
  Producer, Consumer, System, next, Step, load_head, find_full, find_room, write_slot, store_head,
  load_tail, find_empty, find_entry, copy_slot, store_tail,
}

pub data Who : Type 0 where
  pusher popper : Who

abbrev pub other : Who → Who
other pusher = popper
other popper = pusher

-- Whether a step begins a call or goes on with one.
pub data Kind : Type 0 where
  begins goes_on : Who → Kind

module _ {F : Type 0} where
  -- The steps that a call of the thread still has, at most.
  abbrev push_left : Producer F → ℕ
  push_left Producer.idle = 0
  push_left (Producer.loaded h m) = 3
  push_left (Producer.fits h m) = 2
  push_left (Producer.written h m) = 1

  abbrev pop_left : Consumer F → ℕ
  pop_left Consumer.idle = 0
  pop_left (Consumer.loaded t) = 3
  pop_left (Consumer.waits t) = 2
  pop_left (Consumer.copied t m) = 1

  abbrev left : Who → Producer F → Consumer F → ℕ
  left pusher p c = push_left p
  left popper p c = pop_left c

  abbrev pub kind : {s t : System F} {p : Producer F} {c : Consumer F} → Step s p c t → Kind
  kind (load_head m) = begins pusher
  kind (find_full e) = goes_on pusher
  kind (find_room e) = goes_on pusher
  kind write_slot = goes_on pusher
  kind store_head = goes_on pusher
  kind load_tail = begins popper
  kind (find_empty e) = goes_on popper
  kind (find_entry e) = goes_on popper
  kind copy_slot = goes_on popper
  kind store_tail = goes_on popper

  -- What happens during one call of the thread: `n` steps of its own, and any of the other's.
  pub data During (w : Who) : System F → ℕ → System F → Type 0 where
    stays : {s : System F} → During w s 0 s
    own :
        {s t u : System F} {n : ℕ}
        → (st : Step s s.producer s.consumer t) → kind st ≡ goes_on w
        → During w t n u
        → During w s (suc n) u
    foreign :
        {s t u : System F} {n : ℕ}
        → (st : Step s s.producer s.consumer t)
        → (kind st ≡ begins (other w)) ⊎ (kind st ≡ goes_on (other w))
        → During w t n u
        → During w s n u

  -- A thread's step leaves the other where it is, and brings a call nearer to its end.
  abbrev Effect : Kind → (s : System F) → Producer F → Consumer F → (t : System F) → Type 0
  Effect (begins pusher) s p c t = t.consumer ≡ s.consumer
  Effect (goes_on pusher) s p c t = (push_left t.producer < push_left p) × (t.consumer ≡ s.consumer)
  Effect (begins popper) s p c t = t.producer ≡ s.producer
  Effect (goes_on popper) s p c t = (pop_left t.consumer < pop_left c) × (t.producer ≡ s.producer)

  effect_lem :
      {s t : System F} {p : Producer F} {c : Consumer F} (st : Step s p c t)
      → Effect (kind st) s p c t
  effect_lem (load_head m) = refl
  effect_lem (find_full e) = (omega arith, refl)
  effect_lem (find_room e) = (omega arith, refl)
  effect_lem write_slot = (omega arith, refl)
  effect_lem store_head = (omega arith, refl)
  effect_lem load_tail = refl
  effect_lem (find_empty e) = (omega arith, refl)
  effect_lem (find_entry e) = (omega arith, refl)
  effect_lem copy_slot = (omega arith, refl)
  effect_lem store_tail = (omega arith, refl)

  abbrev ahead : Who → System F → ℕ
  ahead w s = left w s.producer s.consumer

  own_ahead :
      (w : Who) {s t : System F} (st : Step s s.producer s.consumer t)
      → kind st ≡ goes_on w
      → ahead w t < ahead w s
  own_ahead pusher st e = let eff = effect_lem st in (rw e at eff).0
  own_ahead popper st e = let eff = effect_lem st in (rw e at eff).0

  foreign_ahead :
      (w : Who) {s t : System F} (st : Step s s.producer s.consumer t)
      → (kind st ≡ begins (other w)) ⊎ (kind st ≡ goes_on (other w))
      → ahead w t ≡ ahead w s
  foreign_ahead pusher st (inl e) = let eff = effect_lem st in ap push_left (rw e at eff)
  foreign_ahead pusher st (inr e) = let eff = effect_lem st in ap push_left (rw e at eff).1
  foreign_ahead popper st (inl e) = let eff = effect_lem st in ap pop_left (rw e at eff)
  foreign_ahead popper st (inr e) = let eff = effect_lem st in ap pop_left (rw e at eff).1

  During-ahead : (w : Who) {s u : System F} {n : ℕ} → During w s n u → n + ahead w u ≤ ahead w s
  During-ahead w stays = omega arith
  During-ahead w (own st e r) = omega (arith, own_ahead w st e, During-ahead w r)
  During-ahead w (foreign st e r) = omega (arith, foreign_ahead w st e, During-ahead w r)

  -- The thread can take its next step.
  abbrev pub CanGoOn : Who → System F → Type 0
  CanGoOn w s = (t : System F) × (st : Step s s.producer s.consumer t) × (kind st ≡ goes_on w)

  abbrev pub IsIdle : Who → System F → Type 0
  IsIdle pusher s = s.producer ≡ Producer.idle
  IsIdle popper s = s.consumer ≡ Consumer.idle

  push_goes_on :
      (s : System F) (p : Producer F) (c : Consumer F)
      → (p ≡ Producer.idle) ⊎ ((t : System F) × (st : Step s p c t) × (kind st ≡ goes_on pusher))
  push_goes_on s Producer.idle c = inl refl
  push_goes_on s (Producer.loaded h m) c = elim (Bool-cases (next h == s.rb.tail)) [
    | inl full ↦ inr (_, find_full ((==_iff (next h) s.rb.tail).0 full), refl)
    | inr room ↦ inr (_, find_room (ground arith), refl)
  ]
  push_goes_on s (Producer.fits h m) c = inr (_, write_slot, refl)
  push_goes_on s (Producer.written h m) c = inr (_, store_head, refl)

  pop_goes_on :
      (s : System F) (p : Producer F) (c : Consumer F)
      → (c ≡ Consumer.idle) ⊎ ((t : System F) × (st : Step s p c t) × (kind st ≡ goes_on popper))
  pop_goes_on s p Consumer.idle = inl refl
  pop_goes_on s p (Consumer.loaded t) = elim (Bool-cases (t == s.rb.head)) [
    | inl empty ↦ inr (_, find_empty ((==_iff t s.rb.head).0 empty), refl)
    | inr entry ↦ inr (_, find_entry (ground arith), refl)
  ]
  pop_goes_on s p (Consumer.waits t) = inr (_, copy_slot, refl)
  pop_goes_on s p (Consumer.copied t m) = inr (_, store_tail, refl)

  at_most_three : (w : Who) (p : Producer F) (c : Consumer F) → left w p c ≤ 3
  at_most_three pusher Producer.idle c = omega arith
  at_most_three pusher (Producer.loaded h m) c = omega arith
  at_most_three pusher (Producer.fits h m) c = omega arith
  at_most_three pusher (Producer.written h m) c = omega arith
  at_most_three popper p Consumer.idle = omega arith
  at_most_three popper p (Consumer.loaded t) = omega arith
  at_most_three popper p (Consumer.waits t) = omega arith
  at_most_three popper p (Consumer.copied t m) = omega arith

  -- A call of rb_push or rb_pop takes at most three steps after its first, whatever the other thread
  -- does in between; and until the call has ended its thread can take the next of them at any time.
  pub calls_are_wait_free :
      (w : Who) {s u : System F} {n : ℕ} → During w s n u → (n ≤ 3) × (IsIdle w u ⊎ CanGoOn w u)
  calls_are_wait_free pusher {s} {u} r = (
    omega (arith, During-ahead pusher r, at_most_three pusher s.producer s.consumer),
    push_goes_on u u.producer u.consumer,
  )
  calls_are_wait_free popper {s} {u} r = (
    omega (arith, During-ahead popper r, at_most_three popper s.producer s.consumer),
    pop_goes_on u u.producer u.consumer,
  )

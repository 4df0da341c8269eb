-- ===== src/Daemon/Start/Rings.antt =====
-- The two ring buffers of the daemon (src/schedmon.c: init_shm).
use capstone_monitor.Prelude.{
  ℕ, ◌≡◌, ◌≢◌, ◌∙◌, ap, ap₂, refl, sym, List, [], ◌∷◌, Option, none, some, update, update_self,
  update-ne, arith,
}
use capstone_monitor.Metrics.{SmoothedMetrics}
use capstone_monitor.Ring.{RingBuffer, rb_init, rb_push, rb_pop}
use capstone_monitor.Ring.Valid.{IsValid, init-IsValid, push-IsValid, pop-IsValid}
use capstone_monitor.Ring.Queue.{
  Call, push, pop, Reply, pushed, popped, contents, queue_push, queue_pop, push_refines,
  pop_refines,
}
use capstone_monitor.Ring.Status.{init_contents}
use capstone_monitor.Ring.Shared.{
  shm_name, shm_name_dash, SharedMemory, rb_create, rb_create_dash, push_at, pop_at,
}
use capstone_monitor.Ring.Shared.Laws.{SharedLaws}
use capstone_monitor.Ring.Shared.Created.{Creates, rb_create_named-Creates}
use capstone_monitor.Ring.Shared.Sharing.{Shows, load-Shows, store-Shows}
use capstone_monitor.Daemon.Start.{dash_created, rb_created, init_shm}

-- A call at g_rb, or at g_rb_dash.
pub data At (F : Type 0) : Type 0 where
  at_rb at_dash : Call F → At F

module _ {F : Type 0} where
  queue_call : List (SmoothedMetrics F) → Call F → Reply F × List (SmoothedMetrics F)
  queue_call q (push m) = let (ok, q') = queue_push q m in (pushed ok, q')
  queue_call q pop = let (out, q') = queue_pop q in (popped out, q')

  -- The replies of two queues.
  unfoldable pub two_queues : (q p : List (SmoothedMetrics F)) → List (At F) → List (Reply F)
  unfolding queue_call
  two_queues q p [] = []
  two_queues q p (at_rb c ∷ cs) = let (r, q') = queue_call q c in r ∷ two_queues q' p cs
  two_queues q p (at_dash c ∷ cs) = let (r, p') = queue_call p c in r ∷ two_queues q p' cs

  rb_call : RingBuffer F → Call F → Reply F × RingBuffer F
  rb_call rb (push m) = let (ok, rb') = rb_push rb m in (pushed ok, rb')
  rb_call rb pop = let (out, rb') = rb_pop rb in (popped out, rb')

  call_refines :
      (rb : RingBuffer F) (c : Call F)
      → IsValid rb
      → let (r, rb') = rb_call rb c in
        IsValid rb' × (queue_call (contents rb) c ≡ (r, contents rb'))
  unfolding rb_call queue_call
  call_refines rb (push m) v = (push-IsValid m v, rw (← push_refines m v) refl)
  call_refines rb pop v = (pop-IsValid v, rw (← pop_refines v) refl)

module _ {F : Type 0} (mem : SharedMemory F) where
  open mem use {State}

  call_at : (rb : ℕ) → Call F → State → Reply F × State
  call_at rb (push m) s = let (ok, s') = push_at mem rb m s in (pushed ok, s')
  call_at rb pop s = let (out, s') = pop_at mem rb s in (popped out, s')

  -- Calls at the addresses of the two ring buffers, in any order.
  pub run_rings : (rb dash : ℕ) → List (At F) → State → List (Reply F)
  unfolding call_at
  run_rings rb dash [] s = []
  run_rings rb dash (at_rb c ∷ cs) s = let (r, s') = call_at rb c s in r ∷ run_rings rb dash cs s'
  run_rings rb dash (at_dash c ∷ cs) s =
      let (r, s') = call_at dash c s in r ∷ run_rings rb dash cs s'

  module _ (laws : SharedLaws mem) where
    open laws use {view}

    call_at_lem :
        (a o : ℕ) (rb : RingBuffer F) (c : Call F) (s : State)
        → Shows mem laws a o rb s
        → call_at a c s ≡ ((rb_call rb c).0, mem.store a (rb_call rb c).1 s)
    unfolding call_at rb_call push_at pop_at
    call_at_lem a o rb (push m) s h = rw (load-Shows mem laws a o rb s h) refl
    call_at_lem a o rb pop s h = rw (load-Shows mem laws a o rb s h) refl

    -- A store leaves the other objects alone.
    other-Shows :
        (a b o p : ℕ) (rb rb' x : RingBuffer F) (s : State)
        → o ≢ p
        → Shows mem laws a o rb s
        → Shows mem laws b p rb' s
        → Shows mem laws b p rb' (mem.store a x s)
    other-Shows a b o p rb rb' x s ne (m, c) (n, e) =
        rw (laws.stores a x s m) (n, update-ne (view s).content x ne ∙ e)

    run_rings_lem :
        (a b o p : ℕ) (rb dash : RingBuffer F) (cs : List (At F)) (s : State)
        → o ≢ p
        → IsValid rb
        → IsValid dash
        → Shows mem laws a o rb s
        → Shows mem laws b p dash s
        → run_rings a b cs s ≡ two_queues (contents rb) (contents dash) cs
    unfolding run_rings two_queues
    run_rings_lem a b o p rb dash [] s ne v w ha hb = refl
    run_rings_lem a b o p rb dash (at_rb c ∷ cs) s ne v w ha hb =
        let (v', e) = call_refines rb c v in
        let (r, x) = rb_call rb c in
        rw (call_at_lem a o rb c s ha, e)
          (ap (λ rs. r ∷ rs)
            (run_rings_lem a b o p x dash cs (mem.store a x s) ne v' w
              (store-Shows mem laws a a o rb x s ha ha) (other-Shows a b o p rb dash x s ne ha hb)))
    run_rings_lem a b o p rb dash (at_dash c ∷ cs) s ne v w ha hb =
        let (w', e) = call_refines dash c w in
        let (r, x) = rb_call dash c in
        rw (call_at_lem b p dash c s hb, e)
          (ap (λ rs. r ∷ rs)
            (run_rings_lem a b o p rb x cs (mem.store b x s) ne v w'
              (other-Shows b a p o dash rb x s (λ h. ne (sym h)) hb ha)
              (store-Shows mem laws b b p dash x s hb hb)))

    module _ (zero : F) where
      -- Each ring buffer shows an object of its own, with its first contents, and `s` has neither address.
      pub record Ready (s : State) (rb dash : ℕ) (s' : State) : Type 0 where
        pub object : ℕ
        pub dash_object : ℕ
        pub old : RingBuffer F
        pub dash_old : RingBuffer F
        pub apart : object ≢ dash_object
        pub at_rb : Shows mem laws rb object (rb_init zero old) s'
        pub at_dash : Shows mem laws dash dash_object (rb_init zero dash_old) s'
        pub rb_free : (view s).mapped rb ≡ none
        pub dash_free : (view s).mapped dash ≡ none
        pub same_opened : (j : ℕ) → (view s').opened j ≡ (view s).opened j
        pub only_these :
            (j : ℕ)
            → (view s').mapped j
              ≡ update (update (view s).mapped rb (some object)) dash (some dash_object) j

      abbrev Inits : State → Option (ℕ × ℕ) × State → Type 0
      Inits s (none, s') = Unit {0}
      Inits s (some (rb, dash), s') = Ready s rb dash s'

      both-Ready :
          (rb dash : ℕ) (s s₁ s₂ : State)
          → Creates mem laws zero shm_name (view s) (some rb) (view s₁)
          → Creates mem laws zero shm_name_dash (view s₁) (some dash) (view s₂)
          → Ready s rb dash s₂
      both-Ready rb dash s s₁ s₂ (o, alone, (old, free, named, opened, mapped, content))
            (p, alone', (old', free', named', opened', mapped', content')) =
          let mapped_rb : (view s₁).mapped rb ≡ some o =
            mapped rb ∙ update_self (view s).mapped rb (some o) in
          let apart : o ≢ p = λ e. alone'.0 rb (mapped_rb ∙ ap some e) in
          let other : dash ≢ rb = λ e. ground (arith, mapped_rb, free', e) in
          let still : (view s₂).mapped rb ≡ some o =
            mapped' rb ∙ update-ne (view s₁).mapped (some p) other ∙ mapped_rb in
          let here : (view s₂).mapped dash ≡ some p =
            mapped' dash ∙ update_self (view s₁).mapped dash (some p) in
          record {
            object = o;
            dash_object = p;
            old = old;
            dash_old = old';
            apart = apart;
            at_rb = (
              still,
              content' o
                  ∙ update-ne (view s₁).content (rb_init zero old') (λ e. apart (sym e))
                  ∙ content o
                  ∙ update_self (view s).content o (rb_init zero old),
            );
            at_dash = (here, content' p ∙ update_self (view s₁).content p (rb_init zero old'));
            rb_free = free;
            dash_free =
                sym (mapped dash ∙ update-ne (view s).mapped (some o) (λ e. other (sym e))) ∙ free';
            same_opened = λ j. opened' j ∙ opened j;
            only_these = λ j. mapped' j ∙ ground (arith, mapped j);
          }

      pub init_shm-Ready :
          (s : State) {rb dash : ℕ} {s' : State}
          → init_shm mem zero s ≡ (some (rb, dash), s')
          → Ready s rb dash s'
      unfolding init_shm rb_created dash_created rb_create rb_create_dash
      init_shm-Ready s e =
          let done : Inits s (init_shm mem zero s) =
            first (rb_create mem zero s) (rb_create_named-Creates mem laws zero shm_name s) in
          rw e at done
        where
          second :
              (rb : ℕ) (s₁ : State)
              → Creates mem laws zero shm_name (view s) (some rb) (view s₁)
              → (r : Option ℕ × State)
              → Creates mem laws zero shm_name_dash (view s₁) r.0 (view r.1)
              → Inits s (dash_created mem zero rb r.0 r.1)
          second rb s₁ c (none, s₂) c' = tt
          second rb s₁ c (some dash, s₂) c' = both-Ready rb dash s s₁ s₂ c c'

          first :
              (r : Option ℕ × State)
              → Creates mem laws zero shm_name (view s) r.0 (view r.1)
              → Inits s (rb_created mem zero r.0 r.1)
          first (none, s₁) c = tt
          first (some rb, s₁) c =
              second rb s₁ c (rb_create_dash mem zero s₁)
                (rb_create_named-Creates mem laws zero shm_name_dash s₁)

      -- After an init_shm that succeeds, calls of rb_push and rb_pop at g_rb and g_rb_dash, in any
      -- order, answer as those of two queues that are empty at first: neither buffer's entries ever
      -- show in the other. It holds of a shared memory that behaves as documented.
      pub rings_are_two_queues :
          (s : State) {rb dash : ℕ} {s' : State}
          → init_shm mem zero s ≡ (some (rb, dash), s')
          → (cs : List (At F)) → run_rings rb dash cs s' ≡ two_queues [] [] cs
      rings_are_two_queues s {rb} {dash} {s'} e cs =
          let r = init_shm-Ready s e in
          run_rings_lem rb dash r.object r.dash_object (rb_init zero r.old)
            (rb_init zero r.dash_old) cs s' r.apart (init-IsValid zero r.old).0
            (init-IsValid zero r.dash_old).0 r.at_rb r.at_dash
          ∙ ap₂ (λ q p. two_queues q p cs) (init_contents zero r.old)
              (init_contents zero r.dash_old)

-- ===== src/Ring/Shared/Sharing.antt =====
-- What a producer and a consumer see of one segment, each at its own address (src/ring_buffer.c).
use capstone_monitor.Prelude.{ℕ, ◌≡◌, ◌∙◌, ap, refl, List, [], ◌∷◌, true, some, update_self, arith}
use capstone_monitor.Ring.{RingBuffer, rb_init, rb_push, rb_pop, rb_check_abi}
use capstone_monitor.Ring.Queue.{Call, push, pop, pushed, popped, rb_run, queue_run}
use capstone_monitor.Ring.Status.{init_is_empty_queue}
use capstone_monitor.Ring.Shared.{
  ShmName, SharedMemory, rb_create_named, rb_attach_named, push_at, pop_at, run_at,
}
use capstone_monitor.Ring.Shared.Laws.{SharedLaws, same_name_self}
use capstone_monitor.Ring.Shared.Created.{Creates, rb_create_named-Creates}
use capstone_monitor.Ring.Shared.Attached.{Attaches, rb_attach_named-Attaches}

module _ {F : Type 0} (mem : SharedMemory F) (laws : SharedLaws mem) where
  open mem use {State, load, store}
  open laws use {view}

  -- The object at an address, and what it holds.
  abbrev pub Shows : (address o : ℕ) → RingBuffer F → State → Type 0
  Shows address o rb s = ((view s).mapped address ≡ some o) × ((view s).content o ≡ rb)

  pub load-Shows : (a o : ℕ) (rb : RingBuffer F) (s : State) → Shows a o rb s → load a s ≡ rb
  load-Shows a o rb s (m, c) = laws.loads a s m ∙ c

  -- What is stored through one address shows at every address of the object.
  pub store-Shows :
      (a b o : ℕ) (rb rb' : RingBuffer F) (s : State)
      → Shows a o rb s
      → Shows b o rb s
      → Shows b o rb' (store a rb' s)
  store-Shows a b o rb rb' s (m, c) (n, d) =
      rw (laws.stores a rb' s m) (n, update_self (view s).content o rb')

  run_at_lem :
      (a b o : ℕ) (rb : RingBuffer F) (cs : List (Call F)) (s : State)
      → Shows a o rb s
      → Shows b o rb s
      → run_at mem a b cs s ≡ rb_run rb cs
  unfolding run_at rb_run push_at pop_at
  run_at_lem a b o rb [] s ha hb = refl
  run_at_lem a b o rb (push m ∷ cs) s ha hb =
      let after = (rb_push rb m).1 in
      rw (load-Shows a o rb s ha) (
        ap (λ rs. pushed ((rb_push rb m).0) ∷ rs)
          (run_at_lem a b o after cs (store a after s) (store-Shows a a o rb after s ha ha)
            (store-Shows a b o rb after s ha hb)))
  run_at_lem a b o rb (pop ∷ cs) s ha hb =
      let after = (rb_pop rb).1 in
      rw (load-Shows b o rb s hb) (
        ap (λ rs. popped ((rb_pop rb).0) ∷ rs)
          (run_at_lem a b o after cs (store b after s) (store-Shows b a o rb after s hb ha)
            (store-Shows b b o rb after s hb hb)))

  -- Once the producer has created a segment and the consumer has attached by its name, the
  -- consumer's check of the ABI passes, and the producer's pushes and the consumer's pops, each
  -- through its own address, answer as the pushes and pops of one queue that is empty at first. It
  -- holds of a shared memory that behaves as documented.
  pub attached_reads_created :
      (zero : F) (n : ShmName) (s : State) {a b : ℕ} {s' s'' : State}
      → rb_create_named mem zero n s ≡ (some a, s')
      → rb_attach_named mem n s' ≡ (some b, s'')
      → (cs : List (Call F))
      → (rb_check_abi (load b s'') ≡ true) × (run_at mem a b cs s'' ≡ queue_run [] cs)
  attached_reads_created zero n s {a} {b} {s'} {s''} created attached cs =
      let made : Creates mem laws zero n (view s) (some a) (view s') =
        rw created at (rb_create_named-Creates mem laws zero n s) in
      let found : Attaches mem laws n (view s') (some b) (view s'') =
        rw attached at (rb_attach_named-Attaches mem laws n s') in
      let (o, alone, (old, free, named, opened, mapped, content)) = made in
      let (p, named', free', opened', mapped', content') = found in
      let name : (view s').named n ≡ some o = named n ∙ rw (same_name_self n) refl in
      let one : p ≡ o = ground (arith, name, named') in
      let holds : (view s'').content o ≡ rb_init zero old =
        content' o ∙ content o ∙ update_self (view s).content o (rb_init zero old) in
      let at_b : Shows b o (rb_init zero old) s'' =
        (mapped' b ∙ update_self (view s').mapped b (some p) ∙ ap some one, holds) in
      let at_a : Shows a o (rb_init zero old) s'' =
        (mapped' a ∙ ground (arith, mapped a, one), holds) in
      let (abi, runs) = init_is_empty_queue zero old cs in
      (
        ap rb_check_abi (load-Shows b o (rb_init zero old) s'' at_b) ∙ abi,
        run_at_lem a b o (rb_init zero old) cs s'' at_a at_b ∙ runs,
      )

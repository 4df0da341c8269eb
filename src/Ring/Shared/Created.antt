-- ===== src/Ring/Shared/Created.antt =====
-- What the creation of a segment leaves (src/ring_buffer.c: rb_create_named).
use capstone_monitor.Prelude.{
  ℕ, ◌≡◌, ◌≢◌, ◌∙◌, ap, refl, Bool, true, false, Option, none, some, update, arith,
}
use capstone_monitor.Ring.{RingBuffer, rb_init}
use capstone_monitor.Ring.Shared.{
  ShmName, SharedMemory, sizeof_ring_buffer, rw_for_all, mmap_shm, create_mapped, create_truncated,
  create_opened, rb_create_named,
}
use capstone_monitor.Ring.Shared.Laws.{
  View, SharedLaws, same_name, same_name_self, naming, opening, mapping, holding,
}

-- A descriptor that is opened and closed again leaves no trace.
pub closed_again :
    (f : ℕ → Option ℕ) (fd o : ℕ)
    → f fd ≡ none
    → (j : ℕ) → update (update f fd (some o)) fd none j ≡ f j
closed_again f fd o e j = ground (arith, e)

module _ {F : Type 0} (mem : SharedMemory F) (laws : SharedLaws mem) (zero : F) where
  open mem use {State}
  open laws use {view}

  -- From a descriptor of the object `o` on, beside what `w` has: the descriptor is closed, and the
  -- object, with its first contents, is mapped at a free address, or nothing is mapped.
  abbrev pub Done : (w : View F) (o : ℕ) → Option ℕ → View F → Type 0
  Done w o none v =
      ((p : ShmName) → v.named p ≡ w.named p)
      × ((j : ℕ) → v.opened j ≡ w.opened j)
      × ((j : ℕ) → v.mapped j ≡ w.mapped j)
  Done w o (some a) v =
      (old : RingBuffer F) × (w.mapped a ≡ none)
      × ((p : ShmName) → v.named p ≡ w.named p)
      × ((j : ℕ) → v.opened j ≡ w.opened j)
      × ((j : ℕ) → v.mapped j ≡ update w.mapped a (some o) j)
      × ((q : ℕ) → v.content q ≡ update w.content o (rb_init zero old) q)

  -- The view with the descriptor open and some bytes in the object.
  abbrev Open : (w : View F) (o fd : ℕ) → RingBuffer F → View F
  Open w o fd x = holding o x (opening fd (some o) w)

  mapped-Done :
      (w : View F) (o fd a : ℕ) (x : RingBuffer F) (s : State)
      → w.opened fd ≡ none
      → w.mapped a ≡ none
      → view s ≡ opening fd none (mapping a (some o) (Open w o fd x))
      → let (r, s') = create_mapped mem zero (some a) s in Done w o r (view s')
  unfolding create_mapped
  mapped-Done w o fd a x s free empty e =
      let at_a : (view s).mapped a ≡ some o = rw e (ground arith) in
      let old = mem.load a s in
      rw (laws.stores a (rb_init zero old) s at_a, e)
        (old, empty, λ p. refl, closed_again w.opened fd o free, λ j. refl, λ q. ground arith)

  truncated-Done :
      (w : View F) (o fd : ℕ) (x : RingBuffer F) (ok : Bool) (s : State)
      → w.opened fd ≡ none
      → view s ≡ Open w o fd x
      → let (r, s') = create_truncated mem zero fd ok s in Done w o r (view s')
  unfolding create_truncated mmap_shm
  truncated-Done w o fd x false s free e =
      rw (laws.closed fd s, e) (λ p. refl, closed_again w.opened fd o free, λ j. refl)
  truncated-Done w o fd x true s free e = from (mem.mmap fd sizeof_ring_buffer s) refl
    where
      is_open : (view s).opened fd ≡ some o
      is_open = rw e (ground arith)

      from :
          (r : Option ℕ × State)
          → mem.mmap fd sizeof_ring_buffer s ≡ r
          → let (a, s') = create_mapped mem zero r.0 (mem.close fd r.1) in Done w o a (view s')
      from (none, s') h =
          rw (create_mapped, laws.closed fd s', laws.mmap_refused fd sizeof_ring_buffer s h, e)
            (λ p. refl, closed_again w.opened fd o free, λ j. refl)
      from (some a, s') h =
          let (empty, m) = laws.maps fd sizeof_ring_buffer s h is_open in
          mapped-Done w o fd a x (mem.close fd s') free (rw e at empty)
            (laws.closed fd s' ∙ ap (opening fd none) (m ∙ ap (mapping a (some o)) e))

  pub opened-Done :
      (w : View F) (o fd : ℕ) (s : State)
      → w.opened fd ≡ none
      → view s ≡ opening fd (some o) w
      → let (r, s') = create_opened mem zero (some fd) s in Done w o r (view s')
  unfolding create_opened
  opened-Done w o fd s free e =
      let s' = mem.fchmod fd rw_for_all s in
      let e' : view s' ≡ opening fd (some o) w = laws.fchmod_keeps fd rw_for_all s ∙ e in
      let is_open : (view s').opened fd ≡ some o = rw e' (ground arith) in
      let (x, t) = laws.truncates fd sizeof_ring_buffer s' is_open in
      let (ok, s'') = mem.ftruncate fd sizeof_ring_buffer s' in
      truncated-Done w o fd x ok s'' free (t ∙ ap (holding o x) e')

  -- A new object takes the name, and no address or other name stood for it.
  abbrev pub Alone : ShmName → (o : ℕ) → View F → Type 0
  Alone n o v =
      ((j : ℕ) → v.mapped j ≢ some o) × ((p : ShmName) → same_name n p ≡ false → v.named p ≢ some o)

  abbrev pub Creates : ShmName → View F → Option ℕ → View F → Type 0
  Creates n v none v' =
      ((p : ShmName) → same_name n p ≡ false → v'.named p ≡ v.named p)
      × ((j : ℕ) → v'.opened j ≡ v.opened j)
      × ((j : ℕ) → v'.mapped j ≡ v.mapped j)
  Creates n v (some a) v' =
      (o : ℕ) × Alone n o v × Done (naming n (some o) (naming n none v)) o (some a) v'

  Done-Creates :
      (n : ShmName) (o : ℕ) (v : View F) (r : Option ℕ) (v' : View F)
      → Alone n o v
      → Done (naming n (some o) (naming n none v)) o r v'
      → Creates n v r v'
  Done-Creates n o v none v' alone (named, opened, mapped) =
      (λ p other. named p ∙ rw other refl, opened, mapped)
  Done-Creates n o v (some a) v' alone done = (o, alone, done)

  pub rb_create_named-Creates :
      (n : ShmName) (s : State)
      → let (r, s') = rb_create_named mem zero n s in Creates n (view s) r (view s')
  unfolding rb_create_named
  rb_create_named-Creates n s = from (mem.shm_open n true rw_for_all t) refl
    where
      t : State
      t = mem.shm_unlink n s

      gone : view t ≡ naming n none (view s)
      gone = laws.unlinked n s

      nameless : (view t).named n ≡ none
      nameless = rw (gone, same_name_self n) refl

      from :
          (r : Option ℕ × State)
          → mem.shm_open n true rw_for_all t ≡ r
          → let (a, s') = create_opened mem zero r.0 r.1 in Creates n (view s) a (view s')
      from (none, s') h =
          rw (create_opened, laws.open_refused n true rw_for_all t h, gone)
            (λ p other. rw other refl, λ j. refl, λ j. refl)
      from (some fd, s') h =
          let (o, free, unmapped, unnamed, e) = laws.open_made n rw_for_all t h nameless in
          let (r, s'') = create_opened mem zero (some fd) s' in
          let alone : Alone n o (view s) = (
            rw gone at unmapped,
            λ p other h. let unnamed' = unnamed p in (rw (gone, other) at unnamed') h,
          ) in
          Done-Creates n o (view s) r (view s'') alone (
            opened-Done (naming n (some o) (naming n none (view s))) o fd s' (rw gone at free)
              (e ∙ ap (λ v. opening fd (some o) (naming n (some o) v)) gone))

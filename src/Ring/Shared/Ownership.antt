-- ===== src/Ring/Shared/Ownership.antt =====
-- What the ends of the ring buffer take and give back (src/ring_buffer.c: rb_create_named,
-- rb_destroy_named, rb_attach_named, rb_detach).
use capstone_monitor.Prelude.{ℕ, ◌≡◌, ◌∙◌, ap, Option, none, some, update, arith}
use capstone_monitor.Ring.Shared.{
  ShmName, SharedMemory, sizeof_ring_buffer, rb_create_named, rb_destroy_named, rb_attach_named,
  rb_detach,
}
use capstone_monitor.Ring.Shared.Laws.{View, SharedLaws, naming, mapping}
use capstone_monitor.Ring.Shared.Created.{Creates, rb_create_named-Creates}
use capstone_monitor.Ring.Shared.Attached.{Attaches, rb_attach_named-Attaches}

module _ {F : Type 0} (mem : SharedMemory F) where
  -- The producer's end after a call that gave a segment; a call that gave NULL left nothing to do.
  abbrev pub destroyed : ShmName → Option ℕ × mem.State → mem.State
  destroyed n (none, s) = s
  destroyed n (some rb, s) = rb_destroy_named mem rb n s

  abbrev pub detached : Option ℕ × mem.State → mem.State
  detached (none, s) = s
  detached (some rb, s) = rb_detach mem rb s

-- Both tables that a process could leak into.
abbrev pub SameTables : {F : Type 0} → View F → View F → Type 0
SameTables v v' = ((j : ℕ) → v'.opened j ≡ v.opened j) × ((j : ℕ) → v'.mapped j ≡ v.mapped j)

-- An address that is mapped and unmapped again leaves no trace.
unmapped_again :
    (f : ℕ → Option ℕ) (a o : ℕ) (g : ℕ → Option ℕ)
    → f a ≡ none
    → ((j : ℕ) → g j ≡ update f a (some o) j)
    → (j : ℕ) → update g a none j ≡ f j
unmapped_again f a o g e h j = ground (arith, e, h j)

module _ {F : Type 0} (mem : SharedMemory F) (laws : SharedLaws mem) where
  open mem use {State}
  open laws use {view}

  pub destroy_view :
      (n : ShmName) (a : ℕ) (s : State)
      → view (rb_destroy_named mem a n s) ≡ naming n none (mapping a none (view s))
  unfolding rb_destroy_named
  destroy_view n a s =
      laws.unlinked n (mem.munmap a sizeof_ring_buffer s)
      ∙ ap (naming n none) (laws.unmapped a sizeof_ring_buffer s)

  Creates-destroyed :
      (zero : F) (n : ShmName) (v : View F) (r : Option ℕ) (s : State)
      → Creates mem laws zero n v r (view s)
      → SameTables v (view (destroyed mem n (r, s)))
  Creates-destroyed zero n v none s (named, opened, mapped) = (opened, mapped)
  Creates-destroyed zero n v (some a) s (o, alone, (old, free, named, opened, mapped, content)) =
      rw (destroy_view n a s) (opened, unmapped_again v.mapped a o (view s).mapped free mapped)

  Attaches-detached :
      (n : ShmName) (v : View F) (r : Option ℕ) (s : State)
      → Attaches mem laws n v r (view s)
      → SameTables v (view (detached mem (r, s)))
  unfolding rb_detach
  Attaches-detached n v none s (opened, mapped) = (opened, mapped)
  Attaches-detached n v (some a) s (o, named, free, opened, mapped, content) =
      rw (laws.unmapped a sizeof_ring_buffer s)
        (opened, unmapped_again v.mapped a o (view s).mapped free mapped)

  -- Whichever calls fail in `rb_create_named` and `rb_attach_named`, the same descriptors are open
  -- and the same addresses mapped as before, once a segment that was created is destroyed and one
  -- that was attached is detached. It holds of a shared memory that behaves as documented.
  pub segments_are_given_back :
      (zero : F) (n : ShmName) (s : State)
      → SameTables (view s) (view (destroyed mem n (rb_create_named mem zero n s)))
        × SameTables (view s) (view (detached mem (rb_attach_named mem n s)))
  segments_are_given_back zero n s =
      let (r, s') = rb_create_named mem zero n s in
      let (q, s'') = rb_attach_named mem n s in
      (
        Creates-destroyed zero n (view s) r s' (rb_create_named-Creates mem laws zero n s),
        Attaches-detached n (view s) q s'' (rb_attach_named-Attaches mem laws n s),
      )

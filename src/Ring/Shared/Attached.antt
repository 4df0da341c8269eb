-- ===== src/Ring/Shared/Attached.antt =====
-- What an attachment leaves (src/ring_buffer.c: rb_attach_named).
use capstone_monitor.Prelude.{
  ℕ, ◌≡◌, refl, false, Option, none, some, update, Option-cases, inl, inr, arith,
}
use capstone_monitor.Ring.Shared.{
  ShmName, SharedMemory, sizeof_ring_buffer, rw_for_all, mmap_shm, attach_opened, rb_attach_named,
}
use capstone_monitor.Ring.Shared.Laws.{View, SharedLaws, opening}
use capstone_monitor.Ring.Shared.Created.{closed_again}

module _ {F : Type 0} (mem : SharedMemory F) (laws : SharedLaws mem) where
  open mem use {State}
  open laws use {view}

  -- The object of the name is mapped at a free address, or nothing is; the rest is as it was.
  abbrev pub Attaches : ShmName → View F → Option ℕ → View F → Type 0
  Attaches n v none v' = ((j : ℕ) → v'.opened j ≡ v.opened j) × ((j : ℕ) → v'.mapped j ≡ v.mapped j)
  Attaches n v (some a) v' =
      (o : ℕ) × (v.named n ≡ some o)
      × (v.mapped a ≡ none)
      × ((j : ℕ) → v'.opened j ≡ v.opened j)
      × ((j : ℕ) → v'.mapped j ≡ update v.mapped a (some o) j)
      × ((q : ℕ) → v'.content q ≡ v.content q)

  opened-Attaches :
      (n : ShmName) (v : View F) (o fd : ℕ) (s : State)
      → v.named n ≡ some o
      → v.opened fd ≡ none
      → view s ≡ opening fd (some o) v
      → let (r, s') = attach_opened mem (some fd) s in Attaches n v r (view s')
  unfolding attach_opened mmap_shm
  opened-Attaches n v o fd s named free e = from (mem.mmap fd sizeof_ring_buffer s) refl
    where
      is_open : (view s).opened fd ≡ some o
      is_open = rw e (ground arith)

      from :
          (r : Option ℕ × State)
          → mem.mmap fd sizeof_ring_buffer s ≡ r
          → Attaches n v r.0 (view (mem.close fd r.1))
      from (none, s') h =
          rw (laws.closed fd s', laws.mmap_refused fd sizeof_ring_buffer s h, e)
            (closed_again v.opened fd o free, λ j. refl)
      from (some a, s') h =
          let (empty, m) = laws.maps fd sizeof_ring_buffer s h is_open in
          rw (laws.closed fd s', m, e)
            (o, named, rw e at empty, closed_again v.opened fd o free, λ j. refl, λ q. refl)

  pub rb_attach_named-Attaches :
      (n : ShmName) (s : State)
      → let (r, s') = rb_attach_named mem n s in Attaches n (view s) r (view s')
  unfolding rb_attach_named
  rb_attach_named-Attaches n s = from (mem.shm_open n false rw_for_all s) refl
    where
      from :
          (r : Option ℕ × State)
          → mem.shm_open n false rw_for_all s ≡ r
          → let (a, s') = attach_opened mem r.0 r.1 in Attaches n (view s) a (view s')
      from (none, s') h =
          rw (attach_opened, laws.open_refused n false rw_for_all s h) (λ j. refl, λ j. refl)
      from (some fd, s') h = elim (Option-cases ((view s).named n)) [
        | inl missing ↦ absurd (laws.open_missing n rw_for_all s h missing)
        | inr (o, named) ↦
            let (free, e) = laws.open_found n false rw_for_all s h named in
            opened-Attaches n (view s) o fd s' named free e
      ]

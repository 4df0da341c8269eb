-- ===== src/Ring/Shared/Laws.antt =====
-- What the calls of the system do to names, descriptors and mappings (shm_open(3), mmap(2)).
use capstone_monitor.Prelude.{
  ℕ, ◌≡◌, ◌≢◌, refl, Bool, true, false, Option, none, some, update, if◌then◌else◌,
}
use capstone_monitor.Ring.{RingBuffer}
use capstone_monitor.Ring.Shared.{ShmName, shm_name, shm_name_dash, SharedMemory}

-- Which object each name, descriptor and address stands for, and what the objects hold.
pub record View (F : Type 0) : Type 0 where
  pub named : ShmName → Option ℕ
  pub opened : ℕ → Option ℕ
  pub mapped : ℕ → Option ℕ
  pub content : ℕ → RingBuffer F

abbrev pub same_name : ShmName → ShmName → Bool
same_name shm_name shm_name = true
same_name shm_name shm_name_dash = false
same_name shm_name_dash shm_name = false
same_name shm_name_dash shm_name_dash = true

pub same_name_self : (n : ShmName) → same_name n n ≡ true
same_name_self shm_name = refl
same_name_self shm_name_dash = refl

module _ {F : Type 0} where
  abbrev pub naming : ShmName → Option ℕ → View F → View F
  naming n o v = record v { named = λ p. if same_name n p then o else v.named p }

  abbrev pub opening : ℕ → Option ℕ → View F → View F
  opening fd o v = record v { opened = update v.opened fd o }

  abbrev pub mapping : ℕ → Option ℕ → View F → View F
  mapping address o v = record v { mapped = update v.mapped address o }

  abbrev pub holding : ℕ → RingBuffer F → View F → View F
  holding o rb v = record v { content = update v.content o rb }

-- shm_open opens the object of the name, or, if it may create one, an
-- object that nothing else stands for; the descriptor and the
-- address that a call hands out are new ones; a failed call changes nothing, but a failed ftruncate
-- may have changed the object.
pub record SharedLaws {F : Type 0} (mem : SharedMemory F) : Type 0 where
  pub view : mem.State → View F
  pub unlinked : (n : ShmName) (s : mem.State) → view (mem.shm_unlink n s) ≡ naming n none (view s)
  pub open_refused :
      (n : ShmName) (create : Bool) (mode : ℕ) (s : mem.State) {s' : mem.State}
      → mem.shm_open n create mode s ≡ (none, s')
      → view s' ≡ view s
  pub open_found :
      (n : ShmName) (create : Bool) (mode : ℕ) (s : mem.State) {fd o : ℕ} {s' : mem.State}
      → mem.shm_open n create mode s ≡ (some fd, s')
      → (view s).named n ≡ some o
      → ((view s).opened fd ≡ none) × (view s' ≡ opening fd (some o) (view s))
  pub open_missing :
      (n : ShmName) (mode : ℕ) (s : mem.State) {fd : ℕ} {s' : mem.State}
      → mem.shm_open n false mode s ≡ (some fd, s')
      → (view s).named n ≢ none
  pub open_made :
      (n : ShmName) (mode : ℕ) (s : mem.State) {fd : ℕ} {s' : mem.State}
      → mem.shm_open n true mode s ≡ (some fd, s')
      → (view s).named n ≡ none
      → (o : ℕ) × ((view s).opened fd ≡ none)
        × ((j : ℕ) → (view s).mapped j ≢ some o)
        × ((p : ShmName) → (view s).named p ≢ some o)
        × (view s' ≡ opening fd (some o) (naming n (some o) (view s)))
  pub fchmod_keeps : (fd mode : ℕ) (s : mem.State) → view (mem.fchmod fd mode s) ≡ view s
  pub truncates :
      (fd size : ℕ) (s : mem.State) {o : ℕ}
      → (view s).opened fd ≡ some o
      → (rb : RingBuffer F) × (view (mem.ftruncate fd size s).1 ≡ holding o rb (view s))
  pub mmap_refused :
      (fd size : ℕ) (s : mem.State) {s' : mem.State}
      → mem.mmap fd size s ≡ (none, s')
      → view s' ≡ view s
  pub maps :
      (fd size : ℕ) (s : mem.State) {o address : ℕ} {s' : mem.State}
      → mem.mmap fd size s ≡ (some address, s')
      → (view s).opened fd ≡ some o
      → ((view s).mapped address ≡ none) × (view s' ≡ mapping address (some o) (view s))
  pub closed : (fd : ℕ) (s : mem.State) → view (mem.close fd s) ≡ opening fd none (view s)
  pub unmapped :
      (address size : ℕ) (s : mem.State)
      → view (mem.munmap address size s) ≡ mapping address none (view s)
  pub loads :
      (address : ℕ) (s : mem.State) {o : ℕ}
      → (view s).mapped address ≡ some o
      → mem.load address s ≡ (view s).content o
  pub stores :
      (address : ℕ) (rb : RingBuffer F) (s : mem.State) {o : ℕ}
      → (view s).mapped address ≡ some o
      → view (mem.store address rb s) ≡ holding o rb (view s)

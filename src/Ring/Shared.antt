-- ===== src/Ring/Shared.antt =====
-- The life of a shared-memory segment (src/ring_buffer.c: rb_create_named, rb_attach_named,
-- rb_destroy_named and the functions that call them). The calls of the system are a parameter, on an
-- abstract state; the messages on stderr are left out.
pub mod Laws
pub mod Ownership
pub mod Created
pub mod Attached
pub mod Sharing
pub mod Small
mod Tests
use capstone_monitor.Prelude.{ℕ, ◌+◌, ◌*◌, List, [], ◌∷◌, Bool, true, false, Option, none, some}
use capstone_monitor.Metrics.{SmoothedMetrics, sizeof_smoothed_metrics}
use capstone_monitor.Ring.{RingBuffer, rb_capacity, rb_init, rb_push, rb_pop}
use capstone_monitor.Ring.Queue.{Call, push, pop, Reply, pushed, popped}

-- SHM_NAME and SHM_NAME_DASH, the only names in use.
pub data ShmName : Type 0 where
  shm_name : ShmName
  shm_name_dash : ShmName

-- `sizeof(RingBuffer)`: the slots, and four 4-byte fields.
abbrev pub sizeof_ring_buffer : ℕ
sizeof_ring_buffer = rb_capacity * sizeof_smoothed_metrics + 16

-- 0666, read and write for all.
abbrev pub rw_for_all : ℕ
rw_for_all = 438

-- The system calls and the memory below a mapping. A failed shm_open, and MAP_FAILED, are `none`; a
-- failed ftruncate is `false`; what fchmod returns decides on a message alone.
pub record SharedMemory (F : Type 0) : Type 1 where
  pub State : Type 0
  pub shm_unlink : ShmName → State → State
  pub shm_open : ShmName → (create : Bool) → (mode : ℕ) → State → Option ℕ × State
  pub fchmod : (fd mode : ℕ) → State → State
  pub ftruncate : (fd size : ℕ) → State → Bool × State
  pub mmap : (fd size : ℕ) → State → Option ℕ × State
  pub close : (fd : ℕ) → State → State
  pub munmap : (address size : ℕ) → State → State
  pub load : (address : ℕ) → State → RingBuffer F
  pub store : (address : ℕ) → RingBuffer F → State → State

module _ {F : Type 0} (mem : SharedMemory F) where
  open mem use {State, shm_unlink, shm_open, fchmod, ftruncate, mmap, close, munmap, load, store}

  unfoldable pub mmap_shm : (fd : ℕ) → State → Option ℕ × State
  mmap_shm fd s = mmap fd sizeof_ring_buffer s

  module _ (zero : F) where
    -- From `rb == MAP_FAILED` on.
    unfoldable pub create_mapped : Option ℕ → State → Option ℕ × State
    create_mapped none s = (none, s)
    create_mapped (some rb) s = (some rb, store rb (rb_init zero (load rb s)) s)

    -- From the test of ftruncate's result on.
    unfoldable pub create_truncated : (fd : ℕ) → Bool → State → Option ℕ × State
    unfolding mmap_shm create_mapped
    create_truncated fd false s = (none, close fd s)
    create_truncated fd true s = let (rb, s') = mmap_shm fd s in create_mapped rb (close fd s')

    -- From `fd < 0` on.
    unfoldable pub create_opened : Option ℕ → State → Option ℕ × State
    unfolding create_truncated
    create_opened none s = (none, s)
    create_opened (some fd) s =
        let (ok, s') = ftruncate fd sizeof_ring_buffer (fchmod fd rw_for_all s) in
        create_truncated fd ok s'

    unfoldable pub rb_create_named : ShmName → State → Option ℕ × State
    unfolding create_opened
    rb_create_named name s =
        let (fd, s') = shm_open name true rw_for_all (shm_unlink name s) in create_opened fd s'

    unfoldable pub rb_create : State → Option ℕ × State
    unfolding rb_create_named
    rb_create = rb_create_named shm_name

    unfoldable pub rb_create_dash : State → Option ℕ × State
    unfolding rb_create_named
    rb_create_dash = rb_create_named shm_name_dash

  unfoldable pub attach_opened : Option ℕ → State → Option ℕ × State
  unfolding mmap_shm
  attach_opened none s = (none, s)
  attach_opened (some fd) s = let (rb, s') = mmap_shm fd s in (rb, close fd s')

  unfoldable pub rb_attach_named : ShmName → State → Option ℕ × State
  unfolding attach_opened
  rb_attach_named name s = let (fd, s') = shm_open name false rw_for_all s in attach_opened fd s'

  unfoldable pub rb_destroy_named : (rb : ℕ) → ShmName → State → State
  rb_destroy_named rb name s = shm_unlink name (munmap rb sizeof_ring_buffer s)

  unfoldable pub rb_attach : State → Option ℕ × State
  unfolding rb_attach_named
  rb_attach = rb_attach_named shm_name

  unfoldable pub rb_destroy : (rb : ℕ) → State → State
  unfolding rb_destroy_named
  rb_destroy rb = rb_destroy_named rb shm_name

  unfoldable pub rb_attach_dash : State → Option ℕ × State
  unfolding rb_attach_named
  rb_attach_dash = rb_attach_named shm_name_dash

  unfoldable pub rb_destroy_dash : (rb : ℕ) → State → State
  unfolding rb_destroy_named
  rb_destroy_dash rb = rb_destroy_named rb shm_name_dash

  unfoldable pub rb_detach : (rb : ℕ) → State → State
  rb_detach rb s = munmap rb sizeof_ring_buffer s

  -- The calls through a mapping.
  unfoldable pub push_at : (rb : ℕ) → SmoothedMetrics F → State → Bool × State
  push_at rb m s = let (ok, after) = rb_push (load rb s) m in (ok, store rb after s)

  unfoldable pub pop_at : (rb : ℕ) → State → Option (SmoothedMetrics F) × State
  pop_at rb s = let (out, after) = rb_pop (load rb s) in (out, store rb after s)

  -- Calls of a producer that has the segment at `rb`, and of a consumer that has it at `other`.
  unfoldable pub run_at : (rb other : ℕ) → List (Call F) → State → List (Reply F)
  unfolding push_at pop_at
  run_at rb other [] s = []
  run_at rb other (push m ∷ cs) s =
      let (ok, s') = push_at rb m s in pushed ok ∷ run_at rb other cs s'
  run_at rb other (pop ∷ cs) s =
      let (out, s') = pop_at other s in popped out ∷ run_at rb other cs s'

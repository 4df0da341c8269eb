-- ===== src/Ring/Shared/Small.antt =====
-- A small memory, a value of the parameter, with tables of what it has handed out.
pub mod Laws
use capstone_monitor.Prelude.{
  ℕ, zero, suc, ◌+◌, ◌≡◌, ◌≢◌, ◌∙◌, ◌<◌, ap, refl, sym, List, [], ◌∷◌, ◌++◌, Bool, true, false,
  Option, none, some, update, if◌then◌else◌, arith, length,
}
use mathlib.Core.Path.{fun_ext}
use capstone_monitor.Metrics.{zero_metrics}
use capstone_monitor.Ring.{RingBuffer}
use capstone_monitor.Ring.Shared.{ShmName, shm_name, shm_name_dash, SharedMemory}
use capstone_monitor.Ring.Shared.Laws.{View, SharedLaws, same_name, naming, opening, mapping}

-- The object of each descriptor, and of each address, that was ever handed out.
pub record Tables : Type 0 where
  pub name : Option ℕ
  pub name_dash : Option ℕ
  pub fds : List (Option ℕ)
  pub addresses : List (Option ℕ)
  pub content : ℕ → RingBuffer ℕ

abbrev pub entry : List (Option ℕ) → ℕ → Option ℕ
entry [] j = none
entry (x ∷ xs) zero = x
entry (x ∷ xs) (suc j) = entry xs j

abbrev pub cleared : ℕ → List (Option ℕ) → List (Option ℕ)
cleared n [] = []
cleared zero (x ∷ xs) = none ∷ xs
cleared (suc n) (x ∷ xs) = x ∷ cleared n xs

abbrev pub above_entry : Option ℕ → ℕ
above_entry none = 0
above_entry (some o) = suc o

-- A number that is above every object of the list.
abbrev pub above : List (Option ℕ) → ℕ
above [] = 0
above (x ∷ xs) = above_entry x + above xs

abbrev pub either : (name name_dash : Option ℕ) → ShmName → Option ℕ
either o p shm_name = o
either o p shm_name_dash = p

abbrev pub object_of : ShmName → Tables → Option ℕ
object_of n t = either t.name t.name_dash n

abbrev pub renamed : ShmName → Option ℕ → Tables → Tables
renamed shm_name o t = record t { name = o }
renamed shm_name_dash o t = record t { name_dash = o }

abbrev pub unused : Tables → ℕ
unused t = above (t.name ∷ t.name_dash ∷ t.addresses)

abbrev pub take_fd : ℕ → Tables → Option ℕ × Tables
take_fd o t = (some (length t.fds), record t { fds = t.fds ++ some o ∷ [] })

abbrev pub open_object : ShmName → Bool → Option ℕ → Tables → Option ℕ × Tables
open_object n create (some o) t = take_fd o t
open_object n true none t = take_fd (unused t) (renamed n (some (unused t)) t)
open_object n false none t = (none, t)

abbrev pub blank : RingBuffer ℕ
blank = record { slots = λ i. zero_metrics 0; head = 0; tail = 0; abi_version = 0; slot_size = 0 }

abbrev pub write_object : Option ℕ → RingBuffer ℕ → Tables → Tables
write_object none rb t = t
write_object (some o) rb t = record t { content = update t.content o rb }

abbrev pub map_object : Option ℕ → Tables → Option ℕ × Tables
map_object none t = (none, t)
map_object (some o) t =
    (some (length t.addresses), record t { addresses = t.addresses ++ some o ∷ [] })

abbrev pub read_object : Option ℕ → Tables → RingBuffer ℕ
read_object none t = blank
read_object (some o) t = t.content o

abbrev pub small_memory : SharedMemory ℕ
small_memory = record {
  State = Tables;
  shm_unlink = λ n t. renamed n none t;
  shm_open = λ n create mode t. open_object n create (object_of n t) t;
  fchmod = λ fd mode t. t;
  ftruncate = λ fd size t. (true, write_object (entry t.fds fd) blank t);
  mmap = λ fd size t. map_object (entry t.fds fd) t;
  close = λ fd t. record t { fds = cleared fd t.fds };
  munmap = λ address size t. record t { addresses = cleared address t.addresses };
  load = λ address t. read_object (entry t.addresses address) t;
  store = λ address rb t. write_object (entry t.addresses address) rb t;
}

abbrev pub view_of : Tables → View ℕ
view_of t = record {
  named = λ n. object_of n t;
  opened = entry t.fds;
  mapped = entry t.addresses;
  content = t.content;
}

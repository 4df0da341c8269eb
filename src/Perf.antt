-- ===== src/Perf.antt =====
-- The performance counters of one process (src/perf_counter.c, src/perf_counter.h). The kernel is a
-- parameter: its system calls on an abstract state. The messages on stderr are left out.
pub mod Descriptors
pub mod Opening
pub mod Reading
pub mod Values
pub mod Small
mod Tests
use capstone_monitor.Prelude.{
  ℕ, zero, suc, ◌*◌, List, [], ◌∷◌, ◌++◌, Bool, true, false, Option, none, some, not, ◌&&◌,
  if◌then◌else◌, ◌==◌, ltb, length, drop,
}
use capstone_monitor.Prelude.Int.{ℤ, pos, negsuc}

pub data PerfType : Type 0 where
  hardware : PerfType
  software : PerfType

pub data Config : Type 0 where
  cpu_cycles : Config
  instructions : Config
  cache_misses : Config
  cpu_clock : Config

-- The members of struct perf_event_attr that the code sets; `group_and_id` is the read format
-- PERF_FORMAT_GROUP | PERF_FORMAT_ID, the format 0 otherwise.
pub record PerfEventAttr : Type 0 where
  pub type : PerfType
  pub config : Config
  pub disabled : Bool
  pub exclude_hv : Bool
  pub group_and_id : Bool

pub data Errno : Type 0 where
  emfile : Errno
  enfile : Errno
  other : ℕ → Errno

-- What perf_event_open returns: a descriptor, or -1 with errno.
pub data Opened : Type 0 where
  opened : (fd : ℕ) → Opened
  refused : (errno : Errno) → Opened

pub data Request : Type 0 where
  reset : Request
  enable : Request
  disable : Request

-- The system calls. `ioctl_id` is PERF_EVENT_IOC_ID: `none` when it fails and writes nothing. `read`
-- gives the 8-byte words that it read, `none` on an error.
pub record Kernel : Type 1 where
  pub State : Type 0
  pub perf_event_open :
      PerfEventAttr → (pid : ℕ) → (cpu : ℤ) → (group_fd : ℤ) → State → Opened × State
  pub ioctl : (fd : ℤ) → Request → (group : Bool) → State → State
  pub ioctl_id : (fd : ℤ) → State → Option ℕ × State
  pub read : (fd : ℤ) → (size : ℕ) → State → Option (List ℕ) × State
  pub close : (fd : ℤ) → State → State

pub record RawCounters : Type 0 where
  pub cycles : ℕ
  pub instr : ℕ
  pub llc_misses : ℕ

pub record PerfCounter : Type 0 where
  pub pid : ℕ
  pub cpu_id : ℤ
  pub fd_cycles : ℤ
  pub fd_instr : ℤ
  pub fd_llc : ℤ
  pub hw_available : Bool
  pub id_cycles : ℕ
  pub id_instr : ℕ
  pub id_llc : ℕ

-- What memset and the three assignments of -1 leave.
abbrev pub closed_counter : PerfCounter
closed_counter = record {
  pid = 0;
  cpu_id = pos 0;
  fd_cycles = negsuc 0;
  fd_instr = negsuc 0;
  fd_llc = negsuc 0;
  hw_available = false;
  id_cycles = 0;
  id_instr = 0;
  id_llc = 0;
}

abbrev pub is_fd : ℤ → Bool
is_fd (pos n) = true
is_fd (negsuc n) = false

-- The value after an ioctl that writes through a pointer.
abbrev pub written : ℕ → Option ℕ → ℕ
written old none = old
written old (some new) = new

-- What perf_counter_open leaves: its return value, the counter and the kernel's state.
pub record OpenResult (State : Type 0) : Type 0 where
  pub ret : ℤ
  pub counter : PerfCounter
  pub kernel : State

module _ (k : Kernel) where
  open k use {State, perf_event_open, ioctl, ioctl_id, read, close}

  -- The errno is handed back with the refusal.
  unfoldable pub open_counter :
      PerfType
      → Config
      → (pid : ℕ) → (cpu_id leader_fd : ℤ) → (is_group_leader : Bool) → State
      → Opened × State
  open_counter type config pid cpu_id leader_fd is_group_leader s =
      perf_event_open
        (record {
          type = type;
          config = config;
          disabled = true;
          exclude_hv = true;
          group_and_id = is_group_leader;
        })
        pid cpu_id leader_fd s

  -- Closes a descriptor unless it is -1.
  unfoldable pub close_fd : ℤ → State → State
  close_fd fd s = if is_fd fd then close fd s else s

  unfoldable pub perf_counter_close : PerfCounter → State → PerfCounter × State
  unfolding close_fd
  perf_counter_close pc s =
      let s₁ = if is_fd pc.fd_cycles then ioctl pc.fd_cycles disable pc.hw_available s else s in
      let s₂ = close_fd pc.fd_cycles s₁ in
      let s₃ = close_fd pc.fd_instr s₂ in (closed_counter, close_fd pc.fd_llc s₃)

  abbrev pub Result : Type 0
  Result = OpenResult State

  unfoldable pub give_up : PerfCounter → State → Result
  unfolding perf_counter_close
  give_up pc s =
      let (closed, s') = perf_counter_close pc s in
      record { ret = negsuc 0; counter = closed; kernel = s' }

  -- The end of a successful opening of the group: its ids, then reset and enable.
  unfoldable pub start_group : PerfCounter → State → Result
  start_group pc s =
      let (id₁, s₁) = ioctl_id pc.fd_cycles s in
      let (id₂, s₂) = ioctl_id pc.fd_instr s₁ in
      let (id₃, s₃) = ioctl_id pc.fd_llc s₂ in
      let s₄ = ioctl pc.fd_cycles reset true s₃ in
      record {
        ret = pos 0;
        counter = record pc {
          id_cycles = written pc.id_cycles id₁;
          id_instr = written pc.id_instr id₂;
          id_llc = written pc.id_llc id₃;
        };
        kernel = ioctl pc.fd_cycles enable true s₄;
      }

  unfoldable pub llc_opened : PerfCounter → Opened × State → Result
  llc_opened pc (refused e, s) = give_up pc s
  llc_opened pc (opened fd, s) = start_group (record pc { fd_llc = pos fd }) s

  unfoldable pub instr_opened : PerfCounter → Opened × State → Result
  unfolding open_counter llc_opened
  instr_opened pc (refused e, s) = give_up pc s
  instr_opened pc (opened fd, s) =
      llc_opened (record pc { fd_instr = pos fd })
        (open_counter hardware cache_misses pc.pid pc.cpu_id pc.fd_cycles false s)

  unfoldable pub software_opened : PerfCounter → Opened × State → Result
  software_opened pc (refused e, s) = record { ret = negsuc 0; counter = pc; kernel = s }
  software_opened pc (opened fd, s) = record {
    ret = pos 0;
    counter = record pc { fd_cycles = pos fd };
    kernel = ioctl (pos fd) enable false (ioctl (pos fd) reset false s);
  }

  unfoldable pub out_of_descriptors : PerfCounter → State → Result
  out_of_descriptors pc s = record {
    ret = negsuc 0;
    counter = record pc { hw_available = false };
    kernel = s;
  }

  unfoldable pub fall_back : PerfCounter → Errno → State → Result
  unfolding open_counter software_opened out_of_descriptors
  fall_back pc emfile s = out_of_descriptors pc s
  fall_back pc enfile s = out_of_descriptors pc s
  fall_back pc (other e) s =
      software_opened (record pc { hw_available = false })
        (open_counter software cpu_clock pc.pid pc.cpu_id (negsuc 0) false s)

  unfoldable pub cycles_opened : PerfCounter → Opened × State → Result
  unfolding open_counter instr_opened fall_back
  cycles_opened pc (refused e, s) = fall_back pc e s
  cycles_opened pc (opened fd, s) =
      instr_opened (record pc { fd_cycles = pos fd })
        (open_counter hardware instructions pc.pid pc.cpu_id (pos fd) false s)

  unfoldable pub perf_counter_open : (pid : ℕ) → (cpu_id : ℤ) → State → Result
  unfolding open_counter cycles_opened
  perf_counter_open pid cpu_id s =
      cycles_opened (record closed_counter { pid = pid; cpu_id = cpu_id; hw_available = true })
        (open_counter hardware cpu_cycles pid cpu_id (negsuc 0) true s)

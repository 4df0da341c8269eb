-- ===== src/Daemon/Slots/Descriptors.antt =====
-- The descriptors of the slots (src/schedmon.c: add_pid, remove_slot). What is open is counted, so
-- that an equation says at once that no two slots share a descriptor and that none is lost.
use capstone_monitor.Prelude.{
  ℕ, ◌+◌, ◌≡◌, ◌∙◌, ap, sym, refl, List, Bool, true, false, Option, none, some, arith,
  if◌then◌else◌, ◌==◌, ==_iff,
}
use capstone_monitor.Prelude.Bits.{bit, bit_opened}
use capstone_monitor.Prelude.Int.{ℤ, pos}
use capstone_monitor.BpfMap.{BpfMaps}
use capstone_monitor.Bpf.{Maps}
use capstone_monitor.Perf.{Kernel, PerfCounter, Opened, opened, refused, Errno}
use capstone_monitor.Perf.Reading.{perf_counter_read}
use capstone_monitor.Perf.Descriptors.{KernelLaws, is_at, holds}
use capstone_monitor.Tracer.{EbpfTracer, ebpf_tracer_pop_exec_comm}
use capstone_monitor.Daemon.{Slot, System, ProcFile}
use capstone_monitor.Daemon.Monad.{look, change, read_counters}
use capstone_monitor.Daemon.Slots.{
  open_proc_io_fd, fd_of, read_io, comm_opened, read_proc_comm, comm_popped, first_comm,
}

-- What the other calls do to the process's descriptors: open hands out one that was not open, and the
-- rest leave them alone.
pub record SystemLaws {b : BpfMaps} {k : Kernel} (laws : KernelLaws k) (sys : System b k)
    : Type 0 where
  pub put_maps_keeps :
      (ms : Maps b) (s : k.State) (j : ℕ) → laws.is_open (sys.put_maps ms s) j ≡ laws.is_open s j
  pub later_keeps : (s : k.State) (j : ℕ) → laws.is_open (sys.later s) j ≡ laws.is_open s j
  pub read_keeps :
      (fd : ℤ) (size : ℕ) (s : k.State) (j : ℕ)
      → laws.is_open (k.read fd size s).1 j ≡ laws.is_open s j
  pub read_proc_keeps :
      (fd : ℤ) (size : ℕ) (s : k.State) (j : ℕ)
      → laws.is_open (sys.read_proc fd size s).1 j ≡ laws.is_open s j
  pub open_proc_takes :
      (f : ProcFile) (pid : ℕ) (s : k.State) {fd : ℕ} {s' : k.State}
      → sys.open_proc f pid s ≡ (opened fd, s')
      → (laws.is_open s fd ≡ false)
        × ((j : ℕ) → laws.is_open s' j ≡ (if fd == j then true else laws.is_open s j))
  pub open_proc_refusal :
      (f : ProcFile) (pid : ℕ) (s : k.State) {e : Errno} {s' : k.State}
      → sys.open_proc f pid s ≡ (refused e, s')
      → (j : ℕ) → laws.is_open s' j ≡ laws.is_open s j
  pub open_dir_takes :
      (s : k.State) {fd : ℕ} {s' : k.State}
      → sys.open_dir s ≡ (opened fd, s')
      → (laws.is_open s fd ≡ false)
        × ((j : ℕ) → laws.is_open s' j ≡ (if fd == j then true else laws.is_open s j))
  pub open_dir_refusal :
      (s : k.State) {e : Errno} {s' : k.State}
      → sys.open_dir s ≡ (refused e, s')
      → (j : ℕ) → laws.is_open s' j ≡ laws.is_open s j

-- How often the slot holds the descriptor `j`.
module _ {F : Type 0} where
  abbrev pub held : ℕ → Slot F → ℕ
  held j x = bit (holds x.perf j) + bit (is_at x.state.io_fd j)

pub closed_again :
    (o o' o'' t : Bool)
    → o' ≡ (if t then true else o)
    → (t ≡ true → o ≡ false)
    → o'' ≡ (if t then false else o')
    → o'' ≡ o
closed_again o o' o'' t e h c = ground arith

module _ (b : BpfMaps) (k : Kernel) (laws : KernelLaws k) (sys : System b k)
    (more : SystemLaws laws sys) where
  open k use {State}
  open laws use {is_open}

  pub change_keeps :
      {A : Type 0} (f : Maps b → A × Maps b) (s : State) (j : ℕ)
      → is_open (change b k sys f s).1 j ≡ is_open s j
  unfolding change
  change_keeps f s j = more.later_keeps _ j ∙ more.put_maps_keeps _ s j

  pub look_keeps :
      {A : Type 0} (f : Maps b → A) (s : State) (j : ℕ)
      → is_open (look b k sys f s).1 j ≡ is_open s j
  unfolding look
  look_keeps f s j = more.later_keeps s j

  pub read_counters_keeps :
      (pc : PerfCounter) (s : State) (j : ℕ)
      → is_open (read_counters b k sys pc s).1 j ≡ is_open s j
  unfolding read_counters perf_counter_read
  read_counters_keeps pc s j =
      ground (arith, more.read_keeps pc.fd_cycles 56 s j, more.read_keeps pc.fd_cycles 8 s j)

  pub read_io_keeps :
      (fd : ℤ) (old : ℕ) (s : State) (j : ℕ) → is_open (read_io b k sys fd old s).1 j ≡ is_open s j
  unfolding read_io
  read_io_keeps fd old s j = ground (arith, more.read_proc_keeps fd 511 s j)

  opened_bit :
      (f : ProcFile) (pid : ℕ) (s : State) {fd : ℕ} {s' : State}
      → sys.open_proc f pid s ≡ (opened fd, s')
      → (j : ℕ) → bit (is_open s' j) ≡ bit (is_open s j) + bit (fd == j)
  opened_bit f pid s {fd} {s'} h j =
      let (fresh, opens) = more.open_proc_takes f pid s h in
      let same : (fd == j) ≡ true → is_open s j ≡ false =
        λ e. ap (is_open s) (sym ((==_iff fd j).0 e)) ∙ fresh in
      bit_opened (is_open s j) (is_open s' j) (fd == j) (opens j) same

  pub open_io_bit :
      (pid : ℕ) (s : State) (j : ℕ)
      → bit (is_open (open_proc_io_fd b k sys pid s).1 j)
        ≡ bit (is_open s j) + bit (is_at (open_proc_io_fd b k sys pid s).0 j)
  unfolding open_proc_io_fd
  open_io_bit pid s j = after (sys.open_proc ProcFile.io pid s) refl
    where
      after :
          (r : Opened × State)
          → sys.open_proc ProcFile.io pid s ≡ r
          → bit (is_open r.1 j) ≡ bit (is_open s j) + bit (is_at (fd_of r.0) j)
      after (opened fd, s') h = opened_bit ProcFile.io pid s h j
      after (refused e, s') h =
          let kept = more.open_proc_refusal ProcFile.io pid s h j in ground arith

  comm_opened_keeps :
      (pid : ℕ) (s : State) (r : Opened × State)
      → sys.open_proc ProcFile.comm pid s ≡ r
      → (j : ℕ) → is_open (comm_opened b k sys r.0 r.1).1 j ≡ is_open s j
  unfolding comm_opened
  comm_opened_keeps pid s (refused e, s') h j = more.open_proc_refusal ProcFile.comm pid s h j
  comm_opened_keeps pid s (opened fd, s') h j =
      let (fresh, opens) = more.open_proc_takes ProcFile.comm pid s h in
      let same : (fd == j) ≡ true → is_open s j ≡ false =
        λ e. ap (is_open s) (sym ((==_iff fd j).0 e)) ∙ fresh in
      let s'' = (sys.read_proc (pos fd) 16 s').1 in
      closed_again (is_open s j) (is_open s'' j) (is_open (k.close (pos fd) s'') j) (fd == j)
        (more.read_proc_keeps (pos fd) 16 s' j ∙ opens j) same (laws.close_ends fd s'' j)

  comm_popped_keeps :
      (pid : ℕ) (found : Option (List ℕ)) (s : State) (j : ℕ)
      → is_open (comm_popped b k sys pid found s).1 j ≡ is_open s j
  unfolding comm_popped read_proc_comm
  comm_popped_keeps pid none s j = comm_opened_keeps pid s _ refl j
  comm_popped_keeps pid (some bytes) s j = refl

  pub first_comm_keeps :
      (et : EbpfTracer) (pid : ℕ) (s : State) (j : ℕ)
      → is_open (first_comm b k sys et pid s).1 j ≡ is_open s j
  unfolding first_comm
  first_comm_keeps et pid s j =
      comm_popped_keeps pid _ _ j ∙ change_keeps (ebpf_tracer_pop_exec_comm b et pid 17) s j

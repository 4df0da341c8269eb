-- ===== src/Daemon/Sample/Ownership.antt =====
-- What a sample does to the descriptors (src/schedmon.c: the body of the loop over the slots): it closes
-- /proc/<pid>/io and opens it anew when a read of it fails, and leaves the others alone.
use capstone_monitor.Prelude.{
  ℕ, ◌+◌, ◌≡◌, ◌∙◌, ap, refl, Option, none, some, arith, ◌==◌, Bool-cases, inl, inr,
}
use capstone_monitor.Prelude.Bits.{bit, bit_closed}
use capstone_monitor.Prelude.Int.{ℤ, pos, negsuc}
use capstone_monitor.Double.{Double}
use capstone_monitor.BpfMap.{BpfMaps}
use capstone_monitor.Perf.{Kernel, RawCounters}
use capstone_monitor.Perf.Descriptors.{KernelLaws, is_at, holds}
use capstone_monitor.Tracer.{
  EbpfTracer, ebpf_tracer_read_switches, ebpf_tracer_read_io, ebpf_tracer_read_io_wait_ns,
  ebpf_tracer_read_rq_wait_ns, ebpf_tracer_read_last_cpu,
}
use capstone_monitor.ProcIo.{proc_io_read_fail}
use capstone_monitor.Daemon.{Slot, System}
use capstone_monitor.Daemon.Monad.{look}
use capstone_monitor.Daemon.Slots.{open_proc_io_fd, read_io}
use capstone_monitor.Daemon.Slots.Descriptors.{
  SystemLaws, held, look_keeps, read_counters_keeps, read_io_keeps, open_io_bit,
}
use capstone_monitor.Daemon.Deltas.{Reading, went_back, rebase, advance, end_migration}
use capstone_monitor.Daemon.Sample.{
  push_sample, smooth, read_again, reopen, io_was_read, sample_io, Sampled, gone, skipped, measured,
  measure, accept, counters_read, sample,
}

module _ (b : BpfMaps) (k : Kernel) (laws : KernelLaws k) (sys : System b k)
    (more : SystemLaws laws sys) where
  open k use {State}
  open laws use {is_open}

  read_again_bit :
      (fd : ℤ) (old : ℕ) (s : State) (j : ℕ)
      → let (io, s') = read_again b k sys fd old s in (io.fd ≡ fd) × (is_open s' j ≡ is_open s j)
  unfolding read_again
  read_again_bit (negsuc n) old s j = (refl, refl)
  read_again_bit (pos n) old s j =
      let kept = read_io_keeps b k laws sys more (pos n) old s j in
      elim (Bool-cases ((read_io b k sys (pos n) old s).0.0 == proc_io_read_fail)) [
        | inl failed ↦ rw failed (refl, kept)
        | inr read ↦ rw read (refl, kept)
      ]

  reopen-bit :
      (pid n old : ℕ) (s : State) (j c : ℕ)
      → bit (is_open s j) ≡ c + bit (n == j)
      → let (io, s') = reopen b k sys pid (pos n) old s in
        bit (is_open s' j) ≡ c + bit (is_at io.fd j)
  unfolding reopen
  reopen-bit pid n old s j c h =
      let s₁ = k.close (pos n) s in
      let fd = (open_proc_io_fd b k sys pid s₁).0 in
      let (same, kept) = read_again_bit fd old (open_proc_io_fd b k sys pid s₁).1 j in
      let closed = bit_closed (is_open s j) (is_open s₁ j) (n == j) c (laws.close_ends n s j) h in
      let at = ap (λ q. bit (is_at q j)) same in
      omega (arith, ap bit kept, open_io_bit b k laws sys more pid s₁ j, closed, at)

  -- The slot's descriptor is the one that is open afterwards, if any is.
  pub sample_io-bit :
      (pid : ℕ) (fd : ℤ) (s : State) (j c : ℕ)
      → bit (is_open s j) ≡ c + bit (is_at fd j)
      → let (io, s') = sample_io b k sys pid fd s in bit (is_open s' j) ≡ c + bit (is_at io.fd j)
  unfolding sample_io io_was_read
  sample_io-bit pid (negsuc n) s j c h = h
  sample_io-bit pid (pos n) s j c h =
      let r = read_io b k sys (pos n) 0 s in
      let h' : bit (is_open r.1 j) ≡ c + bit (n == j) =
        ap bit (read_io_keeps b k laws sys more (pos n) 0 s j) ∙ h in
      elim (Bool-cases (r.0.0 == proc_io_read_fail)) [
        | inl failed ↦ rw failed (reopen-bit pid n r.0.1 r.1 j c h')
        | inr read ↦ rw read h'
      ]

module _ (b : BpfMaps) (k : Kernel) (laws : KernelLaws k) (sys : System b k)
    (more : SystemLaws laws sys) (d : Double) (et : EbpfTracer) (dt : d.F) where
  open k use {State}
  open laws use {is_open}
  open d use {F}

  -- How often the slot that comes of a sample holds the descriptor `j`; a slot that is to go is as it was.
  abbrev pub held_after : ℕ → Slot F → Sampled F → ℕ
  held_after j x gone = held j x
  held_after j x (skipped y) = held j y
  held_after j x (measured y) = held j y

  measure-bit :
      (x : Slot F) (r : Reading) (s : State) (j c : ℕ)
      → bit (is_open s j) ≡ c + held j x
      → let (y, s') = measure b k sys d et dt x r s in bit (is_open s' j) ≡ c + held j y
  unfolding measure push_sample smooth advance end_migration
  measure-bit x r s j c h =
      let pid = x.state.pid in
      let io = sample_io b k sys pid x.state.io_fd s in
      let after =
        sample_io-bit b k laws sys more pid x.state.io_fd s j (c + bit (holds x.perf j))
          (omega (arith, h)) in
      let s₂ = (look b k sys (ebpf_tracer_read_io b et pid) io.1).1 in
      let kept =
        look_keeps b k laws sys more (ebpf_tracer_read_last_cpu b et pid) s₂ j
        ∙ look_keeps b k laws sys more (ebpf_tracer_read_io b et pid) io.1 j in
      omega (arith, ap bit kept, after)

  accept-bit :
      (x : Slot F) (r : Reading) (s : State) (j c : ℕ)
      → bit (is_open s j) ≡ c + held j x
      → let (y, s') = accept b k sys d et dt x r s in bit (is_open s' j) ≡ c + held_after j x y
  unfolding accept rebase
  accept-bit x r s j c h = elim (Bool-cases (went_back x.state r)) [
    | inl back ↦ rw back h
    | inr on ↦ rw on (measure-bit x r s j c h)
  ]

  counters_read-bit :
      (x : Slot F) (hw : Option RawCounters) (s : State) (j c : ℕ)
      → bit (is_open s j) ≡ c + held j x
      → let (y, s') = counters_read b k sys d et dt x hw s in
        bit (is_open s' j) ≡ c + held_after j x y
  unfolding counters_read
  counters_read-bit x none s j c h = h
  counters_read-bit x (some hw) s j c h =
      let pid = x.state.pid in
      let s₁ = (look b k sys (ebpf_tracer_read_switches b et pid) s).1 in
      let s₂ = (look b k sys (ebpf_tracer_read_io_wait_ns b et pid) s₁).1 in
      let s₃ = (look b k sys (ebpf_tracer_read_rq_wait_ns b et pid) s₂).1 in
      let kept =
        look_keeps b k laws sys more (ebpf_tracer_read_rq_wait_ns b et pid) s₂ j
        ∙ look_keeps b k laws sys more (ebpf_tracer_read_io_wait_ns b et pid) s₁ j
        ∙ look_keeps b k laws sys more (ebpf_tracer_read_switches b et pid) s j in
      accept-bit x _ s₃ j c (ap bit kept ∙ h)

  -- A sample opens and closes what the slot gains and loses.
  pub sample-bit :
      (x : Slot F) (s : State) (j c : ℕ)
      → bit (is_open s j) ≡ c + held j x
      → let (y, s') = sample b k sys d et dt x s in bit (is_open s' j) ≡ c + held_after j x y
  unfolding sample
  sample-bit x s j c h =
      counters_read-bit x _ _ j c (ap bit (read_counters_keeps b k laws sys more x.perf s j) ∙ h)

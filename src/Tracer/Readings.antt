-- ===== src/Tracer/Readings.antt =====
-- Registration and the readers (src/ebpf_tracer.c).
use capstone_monitor.Prelude.{
  ℕ, ◌≡◌, ◌∙◌, ap, false, none, some, arith, Option-cases, Bool-cases, ==_iff, sym, refl, inl, inr,
  if◌then◌else◌, ◌==◌,
}
use capstone_monitor.Prelude.Int.{ℤ}
use capstone_monitor.BpfMap.{BpfMaps, MapLaws}
use capstone_monitor.Bpf.{Maps}
use capstone_monitor.Tracer.{
  EbpfTracer, is_missing, or_zero, ebpf_tracer_read_switches, ebpf_tracer_read_io,
  ebpf_tracer_read_io_wait_ns, ebpf_tracer_read_rq_wait_ns, ebpf_tracer_read_last_cpu,
  start_at_zero, ebpf_tracer_register_pid, ebpf_tracer_unregister_pid,
}

module _ (b : BpfMaps) (laws : MapLaws b) where
  -- All that the daemon reads of a process.
  pub record Readings : Type 0 where
    pub switches : ℕ
    pub io : ℕ
    pub io_wait : ℕ
    pub rq_wait : ℕ
    pub last_cpu : ℤ

  abbrev pub readings : EbpfTracer → ℕ → Maps b → Readings
  readings et pid ms = record {
    switches = ebpf_tracer_read_switches b et pid ms;
    io = ebpf_tracer_read_io b et pid ms;
    io_wait = ebpf_tracer_read_io_wait_ns b et pid ms;
    rq_wait = ebpf_tracer_read_rq_wait_ns b et pid ms;
    last_cpu = ebpf_tracer_read_last_cpu b et pid ms;
  }

  put_zero :
      (p q : ℕ) (m m' : b.Map ℕ)
      → b.lookup m p ≡ none
      → b.lookup m' q ≡ (if p == q then some 0 else b.lookup m q)
      → or_zero (b.lookup m' q) ≡ or_zero (b.lookup m q)
  put_zero p q m m' absent e = elim (Bool-cases (p == q)) [
    | inl same ↦
        let here : b.lookup m q ≡ none = ap (b.lookup m) (sym ((==_iff p q).0 same)) ∙ absent in
        rw (e, same, here) refl
    | inr other ↦ rw (e, other) refl
  ]

  -- A missing entry reads as 0, so that an entry of 0 put in its place changes no reading.
  noexist_keeps :
      (p q : ℕ) (m : b.Map ℕ)
      → or_zero (b.lookup (b.update_noexist m p 0) q) ≡ or_zero (b.lookup m q)
  noexist_keeps p q m = elim (Option-cases (b.lookup m p)) [
    | inl absent ↦ rw (laws.noexist_absent m p 0 absent) (elim (laws.update_outcome m p 0) [
      | inl (_, same) ↦ ap (λ x. or_zero (b.lookup x q)) same
      | inr h ↦ put_zero p q m (b.update m p 0) absent (h q)
    ])
    | inr (v, present) ↦ ap (λ x. or_zero (b.lookup x q)) (laws.noexist_present m p 0 present)
  ]

  start_at_zero_keeps :
      (fd : ℤ) (p : ℕ) (m : b.Map ℕ) (q : ℕ)
      → or_zero (b.lookup (start_at_zero b fd p m) q) ≡ or_zero (b.lookup m q)
  unfolding start_at_zero
  start_at_zero_keeps fd p m q = ground (arith, noexist_keeps p q m)

  -- ebpf_tracer_register_pid changes none of what the daemon reads, of the process or of another,
  -- whichever maps are missing.
  pub register_keeps_readings :
      (et : EbpfTracer) (p q : ℕ) (ms : Maps b)
      → readings et q (ebpf_tracer_register_pid b et p ms) ≡ readings et q ms
  unfolding ebpf_tracer_read_switches ebpf_tracer_read_io ebpf_tracer_read_io_wait_ns
      ebpf_tracer_read_rq_wait_ns ebpf_tracer_read_last_cpu ebpf_tracer_register_pid
  register_keeps_readings et p q ms =
      let i = start_at_zero_keeps et.map_fd_io p ms.io_counts q in
      let w = start_at_zero_keeps et.map_fd_io_wait p ms.io_wait_ns q in
      let r = start_at_zero_keeps et.map_fd_rq_wait p ms.rq_wait_ns q in ground arith

  -- Neither does ebpf_tracer_unregister_pid, which ends the watching of the process alone: it is then
  -- no longer among the active ones, and any other process is if and only if it was.
  unregister_keeps_readings :
      (et : EbpfTracer) (p q : ℕ) (ms : Maps b)
      → is_missing et.map_fd_pids ≡ false
      → (readings et q (ebpf_tracer_unregister_pid b et p ms) ≡ readings et q ms)
        × (b.lookup (ebpf_tracer_unregister_pid b et p ms).active_pids q
            ≡ (if p == q then none else b.lookup ms.active_pids q))
  unfolding ebpf_tracer_read_switches ebpf_tracer_read_io ebpf_tracer_read_io_wait_ns
      ebpf_tracer_read_rq_wait_ns ebpf_tracer_read_last_cpu ebpf_tracer_unregister_pid
  unregister_keeps_readings et p q ms found = rw found (refl, laws.lookup-delete ms.active_pids p q)

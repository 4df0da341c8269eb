-- ===== src/Daemon/Deltas/Switches.antt =====
-- From the switches of a process to the daemon's count of them in an interval (bpf/ctx_switch.bpf.c:
-- handle_sched_switch; src/ebpf_tracer.c: ebpf_tracer_read_switches; src/schedmon.c: the test of the counters, d_ctx).
use capstone_monitor.Prelude.{
  ℕ, ◌+◌, ◌%◌, ◌^◌, ◌≤◌, ◌<◌, ◌≡◌, ◌∙◌, ap, refl, List, true, false, none, some, arith,
  if◌then◌else◌, ltb, Bool-cases, inl, inr,
}
use capstone_monitor.BpfMap.{BpfMaps, MapLaws}
use capstone_monitor.Bpf.{Maps, Event, handle_all}
use capstone_monitor.Bpf.Switches.{switches_of, SurvivesAll, voluntary_switches_counted}
use capstone_monitor.Tracer.{EbpfTracer, is_missing, ebpf_tracer_read_switches}
use capstone_monitor.Daemon.{PidState}
use capstone_monitor.Daemon.Deltas.{Reading, went_back, IoReading, deltas}

module _ (b : BpfMaps) (laws : MapLaws b) (et : EbpfTracer) (p : ℕ) where
  read_found :
      (ms : Maps b) {v : ℕ}
      → is_missing et.map_fd_switches ≡ false
      → b.lookup ms.vol_ctx_switch p ≡ some v
      → ebpf_tracer_read_switches b et p ms ≡ v
  unfolding ebpf_tracer_read_switches
  read_found ms has h = rw (has, h) refl

  -- Between two readings of a process that lives on and has a counter in the kernel's map, which
  -- the daemon has found, fewer than 2^64 switches happen, and no other counter of the process goes
  -- back. Then the interval is skipped exactly when the counter of the switches wraps around, and
  -- otherwise the daemon counts exactly the times that the process gave up the CPU.
  pub interval_counts_switches :
      (es : List Event) (ms : Maps b) (st : PidState) (r : Reading) (io : IoReading) (cur_io : ℕ)
      {v : ℕ}
      → is_missing et.map_fd_switches ≡ false
      → v < 2 ^ 64
      → b.lookup ms.vol_ctx_switch p ≡ some v
      → SurvivesAll p es
      → switches_of p es < 2 ^ 64
      → st.prev_ctx ≡ ebpf_tracer_read_switches b et p ms
      → r.ctx ≡ ebpf_tracer_read_switches b et p (handle_all b es ms)
      → st.prev_io_wait_ns ≤ r.io_wait_ns
      → st.prev_rq_wait_ns ≤ r.rq_wait_ns
      → st.prev_cycles ≤ r.hw.cycles
      → (if went_back st r then none else some (deltas st r io cur_io).ctx)
        ≡ (if ltb (v + switches_of p es) (2 ^ 64) then some (switches_of p es) else none)
  unfolding deltas went_back
  interval_counts_switches es ms st r io cur_io {v} has lt h lives few before now io_up rq_up
        cyc_up =
      let counted = voluntary_switches_counted b laws p es ms lt lives h in
      let old : st.prev_ctx ≡ v = before ∙ read_found ms has h in
      let new : r.ctx ≡ (v + switches_of p es) % 2 ^ 64 =
        now ∙ read_found (handle_all b es ms) has counted in
      let io_ok : ltb r.io_wait_ns st.prev_io_wait_ns ≡ false = ground arith in
      let rq_ok : ltb r.rq_wait_ns st.prev_rq_wait_ns ≡ false = ground arith in
      let cyc_ok : ltb r.hw.cycles st.prev_cycles ≡ false = ground arith in
      elim (Bool-cases (ltb (v + switches_of p es) (2 ^ 64))) [
        | inl plain ↦
            let same : r.ctx ≡ v + switches_of p es = ground arith in
            let up : ltb r.ctx st.prev_ctx ≡ false = ground arith in
            rw (plain, up, io_ok, rq_ok, cyc_ok) (ap (λ n. some n) (omega (arith, old, new)))
        | inr wraps ↦
            let down : ltb r.ctx st.prev_ctx ≡ true = ground arith in rw (wraps, down) refl
      ]

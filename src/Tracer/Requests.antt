-- ===== src/Tracer/Requests.antt =====
-- What the daemon reads of a process that it has registered (src/ebpf_tracer.c) once the handlers of
-- bpf/ctx_switch.bpf.c have seen a request of it.
use capstone_monitor.Prelude.{
  ℕ, ◌-◌, ◌^◌, ◌≤◌, ◌<◌, ◌≡◌, ◌∙◌, ap, sym, refl, List, false, some, if◌then◌else◌, ltb, leb, arith,
}
use capstone_monitor.BpfMap.{BpfMaps, MapLaws}
use capstone_monitor.Bpf.{
  Maps, Event, add64, io_wait_limit, handle_block_rq_issue, handle_block_rq_complete, handle_all,
}
use capstone_monitor.Bpf.Frame.{SparesAll}
use capstone_monitor.Bpf.Block.{LeavesRequestAll, latency_is_charged}
use capstone_monitor.Tracer.{
  EbpfTracer, is_missing, ebpf_tracer_read_io, ebpf_tracer_read_io_wait_ns,
  ebpf_tracer_register_pid, start_at_zero,
}
use capstone_monitor.Tracer.Readings.{Readings, register_keeps_readings}

module _ (b : BpfMaps) (laws : MapLaws b) where
  read_found :
      (et : EbpfTracer) (p v : ℕ) (ms : Maps b)
      → is_missing et.map_fd_io ≡ false
      → b.lookup ms.io_counts p ≡ some v
      → ebpf_tracer_read_io b et p ms ≡ v
  unfolding ebpf_tracer_read_io
  read_found et p v ms found h = rw (found, h) refl

  read_wait_found :
      (et : EbpfTracer) (p v : ℕ) (ms : Maps b)
      → is_missing et.map_fd_io_wait ≡ false
      → b.lookup ms.io_wait_ns p ≡ some v
      → ebpf_tracer_read_io_wait_ns b et p ms ≡ v
  unfolding ebpf_tracer_read_io_wait_ns
  read_wait_found et p v ms found h = rw (found, h) refl

  module _ (et : EbpfTracer) (p : ℕ) (ms : Maps b) where
    register_marks :
        is_missing et.map_fd_pids ≡ false
        → b.lookup (b.update ms.active_pids p 1) p ≡ some 1
        → b.lookup (ebpf_tracer_register_pid b et p ms).active_pids p ≡ some 1
    unfolding ebpf_tracer_register_pid
    register_marks has room = rw has room

    register_starts_io :
        {c : ℕ}
        → is_missing et.map_fd_pids ≡ false
        → is_missing et.map_fd_io ≡ false
        → b.lookup (b.update_noexist ms.io_counts p 0) p ≡ some c
        → b.lookup (ebpf_tracer_register_pid b et p ms).io_counts p ≡ some c
    unfolding ebpf_tracer_register_pid start_at_zero
    register_starts_io has found room = rw (has, found) room

    register_starts_wait :
        {w : ℕ}
        → is_missing et.map_fd_pids ≡ false
        → is_missing et.map_fd_io_wait ≡ false
        → b.lookup (b.update_noexist ms.io_wait_ns p 0) p ≡ some w
        → b.lookup (ebpf_tracer_register_pid b et p ms).io_wait_ns p ≡ some w
    unfolding ebpf_tracer_register_pid start_at_zero
    register_starts_wait has found room = rw (has, found) room

    issue_stores :
        (t0 rq : ℕ)
        → is_missing et.map_fd_pids ≡ false
        → 1 < p
        → b.lookup (b.update ms.bio_inflight rq (record { issue_ts = t0; pid = p })) rq
          ≡ some (record { issue_ts = t0; pid = p })
        → b.lookup
            (handle_block_rq_issue b t0 p rq (ebpf_tracer_register_pid b et p ms)).bio_inflight
            rq
          ≡ some (record { issue_ts = t0; pid = p })
    unfolding ebpf_tracer_register_pid handle_block_rq_issue
    issue_stores t0 rq has user room =
        let user : leb p 1 ≡ false = ground arith in rw (has, user) room

  -- The daemon has found the maps of the watched processes, of the requests and of their waits. It
  -- registers a process `p`, not one of the first two, whose entries these maps take. The process then
  -- issues a request at `t0` that the map of requests takes, and the request completes at `t1`, with
  -- any events in between that are about other processes and other requests. Then the daemon reads one
  -- request more than before the registration, and the latency `t1 - t0` more if it is shorter than
  -- thirty seconds.
  pub registered_request_is_read :
      (et : EbpfTracer) (t0 t1 p rq : ℕ) (es : List Event) (ms : Maps b) {w c : ℕ}
      → is_missing et.map_fd_pids ≡ false
      → is_missing et.map_fd_io ≡ false
      → is_missing et.map_fd_io_wait ≡ false
      → 1 < p
      → 0 < t0
      → t0 ≤ t1
      → t1 < 2 ^ 64
      → b.lookup (b.update ms.active_pids p 1) p ≡ some 1
      → b.lookup (b.update_noexist ms.io_counts p 0) p ≡ some c
      → b.lookup (b.update_noexist ms.io_wait_ns p 0) p ≡ some w
      → b.lookup (b.update ms.bio_inflight rq (record { issue_ts = t0; pid = p })) rq
        ≡ some (record { issue_ts = t0; pid = p })
      → SparesAll b p es (handle_block_rq_issue b t0 p rq (ebpf_tracer_register_pid b et p ms))
      → LeavesRequestAll rq es
      → let before = ebpf_tracer_read_io_wait_ns b et p ms in
        let after = handle_block_rq_complete b t1 rq (
          handle_all b es (handle_block_rq_issue b t0 p rq (ebpf_tracer_register_pid b et p ms))) in
        (ebpf_tracer_read_io b et p after ≡ add64 (ebpf_tracer_read_io b et p ms) 1)
        × (ebpf_tracer_read_io_wait_ns b et p after
            ≡ (if ltb (t1 - t0) io_wait_limit then add64 before (t1 - t0) else before))
  registered_request_is_read et t0 t1 p rq es ms {w} {c} has f g user pos le lt mark room_io
        room_wait room_rq sp lv =
      let reg = ebpf_tracer_register_pid b et p ms in
      let act = register_marks et p ms has mark in
      let cnt = register_starts_io et p ms has f room_io in
      let wt = register_starts_wait et p ms has g room_wait in
      let issued = issue_stores et p ms t0 rq has user room_rq in
      let (n, l) = latency_is_charged b laws t0 t1 p rq es reg pos le lt act cnt wt issued sp lv in
      let same = register_keeps_readings b laws et p p ms in
      let counted : c ≡ ebpf_tracer_read_io b et p ms =
        sym (read_found et p c reg f cnt) ∙ ap (λ (r : Readings b laws). r.io) same in
      let waited : w ≡ ebpf_tracer_read_io_wait_ns b et p ms =
        sym (read_wait_found et p w reg g wt) ∙ ap (λ (r : Readings b laws). r.io_wait) same in
      (
        read_found et p _ _ f n ∙ ap (λ q. add64 q 1) counted,
        read_wait_found et p _ _ g l
            ∙ ap (λ q. if ltb (t1 - t0) io_wait_limit then add64 q (t1 - t0) else q) waited,
      )

-- ===== src/Daemon/Deltas/Bounds.antt =====
-- How large the differences of a sample can be (src/schedmon.c: the body of the loop over the slots).
use capstone_monitor.Prelude.{ℕ, ◌*◌, ◌≤◌, arith, if◌then◌else◌}
use capstone_monitor.Bpf.{sub64, rq_wait_limit, io_wait_limit}
use capstone_monitor.Daemon.{PidState}
use capstone_monitor.Daemon.Deltas.{Reading, IoReading, clamp, forward, deltas}

clamp-le : (limit n x : ℕ) → (clamp limit n x ≤ n * limit) × (clamp limit n x ≤ x)
unfolding clamp
clamp-le limit n x = ground arith

forward-le : (cur prev : ℕ) → forward cur prev ≤ cur
unfolding forward
forward-le cur prev = ground arith

-- Whatever the counters are: per switch the wait for a CPU counts as at most RQ_WAIT_MAX_NS, per
-- request the wait for a disk as at most IO_WAIT_MAX_NS, and the bytes of an interval are at most
-- the bytes of the process.
deltas_bounded :
    (st : PidState) (r : Reading) (io : IoReading) (cur_io : ℕ)
    → let x = deltas st r io cur_io in
      (x.rq_wait_ns ≤ x.ctx * rq_wait_limit)
      × (x.io_wait_ns ≤ x.io_for_wait * io_wait_limit)
      × (x.io_proc ≤ io.proc)
      × (x.io_syscall ≤ io.syscall_bytes)
unfolding deltas
deltas_bounded st r io cur_io =
    let ctx = sub64 r.ctx st.prev_ctx in
    let requests = sub64 cur_io st.prev_io_count in
    (
      (clamp-le rq_wait_limit ctx (sub64 r.rq_wait_ns st.prev_rq_wait_ns)).0,
      (clamp-le io_wait_limit requests (sub64 r.io_wait_ns st.prev_io_wait_ns)).0,
      forward-le io.proc (if io.fresh then io.proc else st.prev_io_proc),
      forward-le io.syscall_bytes (if io.fresh then io.syscall_bytes else st.prev_io_syscall),
    )

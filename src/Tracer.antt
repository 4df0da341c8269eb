-- ===== src/Tracer.antt =====
-- The user side of the BPF maps (src/ebpf_tracer.c): the readers, the registration of a process, and
-- the names of new programs. A map is read through its descriptor, -1 when it could not be found; the
-- maps are those of the BPF programs.
pub mod Readings
pub mod Requests
pub mod ExecNames
pub mod Loading
mod Tests
use capstone_monitor.Prelude.{
  ℕ, zero, suc, ◌-◌, List, [], ◌∷◌, ◌++◌, Bool, true, false, Option, none, some, ◌||◌,
  if◌then◌else◌, ◌==◌, ltb, leb, min,
}
use capstone_monitor.Prelude.Int.{ℤ, pos, negsuc, ltb_ℤ}
use capstone_monitor.BpfMap.{BpfMaps}
use capstone_monitor.Bpf.{Maps}

-- The descriptors of `ebpf_tracer_t`.
pub record EbpfTracer : Type 0 where
  pub map_fd_switches : ℤ
  pub map_fd_pids : ℤ
  pub map_fd_io : ℤ
  pub map_fd_io_wait : ℤ
  pub map_fd_rq_wait : ℤ
  pub map_fd_last_cpu : ℤ
  pub map_fd_exec : ℤ

abbrev pub is_missing : ℤ → Bool
is_missing fd = ltb_ℤ fd (pos 0)

-- The value that a lookup leaves in `v`, 0 at first.
abbrev pub or_zero : Option ℕ → ℕ
or_zero none = 0
or_zero (some v) = v

-- The copy of a name up to its end, `n` bytes at most.
unfoldable pub copy_comm : (n : ℕ) → List ℕ → List ℕ
copy_comm zero cs = []
copy_comm (suc n) [] = []
copy_comm (suc n) (c ∷ cs) = if c == 0 then [] else c ∷ copy_comm n cs

abbrev pub cpu_or_minus_one : Option ℕ → ℤ
cpu_or_minus_one none = negsuc 0
cpu_or_minus_one (some cpu) = pos cpu

module _ (b : BpfMaps) where
  open b use {Map, lookup, update, update_noexist, delete}

  unfoldable pub ebpf_tracer_read_switches : EbpfTracer → (pid : ℕ) → Maps b → ℕ
  ebpf_tracer_read_switches et pid ms =
      if is_missing et.map_fd_switches then 0 else or_zero (lookup ms.vol_ctx_switch pid)

  unfoldable pub ebpf_tracer_read_io : EbpfTracer → (pid : ℕ) → Maps b → ℕ
  ebpf_tracer_read_io et pid ms =
      if is_missing et.map_fd_io then 0 else or_zero (lookup ms.io_counts pid)

  unfoldable pub ebpf_tracer_read_io_wait_ns : EbpfTracer → (pid : ℕ) → Maps b → ℕ
  ebpf_tracer_read_io_wait_ns et pid ms =
      if is_missing et.map_fd_io_wait then 0 else or_zero (lookup ms.io_wait_ns pid)

  unfoldable pub ebpf_tracer_read_rq_wait_ns : EbpfTracer → (pid : ℕ) → Maps b → ℕ
  ebpf_tracer_read_rq_wait_ns et pid ms =
      if is_missing et.map_fd_rq_wait then 0 else or_zero (lookup ms.rq_wait_ns pid)

  unfoldable pub ebpf_tracer_read_last_cpu : EbpfTracer → (pid : ℕ) → Maps b → ℤ
  ebpf_tracer_read_last_cpu et pid ms =
      if is_missing et.map_fd_last_cpu
      then negsuc 0
      else cpu_or_minus_one (lookup ms.pid_last_cpu pid)

  -- `if (fd >= 0) bpf_map_update_elem(fd, &pid, &zero, BPF_NOEXIST)`
  unfoldable pub start_at_zero : (fd : ℤ) → (pid : ℕ) → Map ℕ → Map ℕ
  start_at_zero fd pid m = if is_missing fd then m else update_noexist m pid 0

  unfoldable pub ebpf_tracer_register_pid : EbpfTracer → (pid : ℕ) → Maps b → Maps b
  unfolding start_at_zero
  ebpf_tracer_register_pid et pid ms = if is_missing et.map_fd_pids then ms else record ms {
    active_pids = update ms.active_pids pid 1;
    io_counts = start_at_zero et.map_fd_io pid ms.io_counts;
    io_wait_ns = start_at_zero et.map_fd_io_wait pid ms.io_wait_ns;
    rq_wait_ns = start_at_zero et.map_fd_rq_wait pid ms.rq_wait_ns;
  }

  unfoldable pub ebpf_tracer_unregister_pid : EbpfTracer → (pid : ℕ) → Maps b → Maps b
  ebpf_tracer_unregister_pid et pid ms =
      if is_missing et.map_fd_pids
      then ms
      else record ms { active_pids = delete ms.active_pids pid }

  -- What is found goes into the caller's buffer of `len` bytes, with its NUL, and out of the map.
  unfoldable pub pop_found : Option (List ℕ) → (pid len : ℕ) → Maps b → Option (List ℕ) × Maps b
  unfolding copy_comm
  pop_found none pid len ms = (none, ms)
  pop_found (some comm) pid len ms =
      let copy_len = if ltb (len - 1) 16 then len - 1 else 16 in
      (
        some (copy_comm copy_len comm ++ 0 ∷ []),
        record ms { exec_comms = delete ms.exec_comms pid },
      )

  -- `some` is the return of 1 with the bytes that are written to `buf`, `none` that of 0. The caller
  -- passes a buffer of `len` bytes.
  unfoldable pub ebpf_tracer_pop_exec_comm :
      EbpfTracer → (pid len : ℕ) → Maps b → Option (List ℕ) × Maps b
  unfolding pop_found
  ebpf_tracer_pop_exec_comm et pid len ms =
      if is_missing et.map_fd_exec || len == 0
      then (none, ms)
      else pop_found (lookup ms.exec_comms pid) pid len ms

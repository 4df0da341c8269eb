-- ===== src/Tracer/Loading.antt =====
-- How the BPF programs come and go (src/ebpf_tracer.c: ebpf_tracer_load, ebpf_tracer_attach,
-- ebpf_tracer_destroy; src/schedmon.c: init_ebpf). libbpf is a parameter: its calls on an abstract state,
-- which name objects, programs and links by numbers. The messages are left out.
pub mod Handles
pub mod Ownership
pub mod Small
mod Tests
use capstone_monitor.Prelude.{
  ℕ, List, Bool, true, false, not, ◌&&◌, ◌||◌, Option, none, some, if◌then◌else◌,
}
use capstone_monitor.Prelude.Int.{ℤ, negsuc}
use capstone_monitor.Tracer.{EbpfTracer, is_missing}

pub data MapName : Type 0 where
  vol_ctx_switch active_pids io_counts io_wait_ns rq_wait_ns pid_last_cpu exec_comms : MapName

pub data ProgName : Type 0 where
  handle_sched_switch handle_fork handle_exit handle_sched_wakeup : ProgName
  handle_block_rq_issue handle_block_rq_complete handle_exec : ProgName

pub record Libbpf : Type 1 where
  pub State : Type 0
  -- none is NULL
  pub object_open : (path : List ℕ) → State → Option ℕ × State
  -- whether the result is 0
  pub object_load : (obj : ℕ) → State → Bool × State
  pub object_close : (obj : ℕ) → State → State
  pub find_map_by_name : (obj : ℕ) → MapName → State → Option ℕ
  pub map_fd : (map : ℕ) → State → ℤ
  pub find_program_by_name : (obj : ℕ) → ProgName → State → Option ℕ
  pub program_attach : (prog : ℕ) → State → Option ℕ × State
  pub link_destroy : (link : ℕ) → State → State

-- ebpf_tracer_t, whose descriptors are `fds`. A pointer that is NULL is none.
pub record Handle : Type 0 where
  pub obj : Option ℕ
  pub link_sched_switch : Option ℕ
  pub link_sched_wakeup : Option ℕ
  pub link_fork : Option ℕ
  pub link_exit : Option ℕ
  pub link_block_issue : Option ℕ
  pub link_block : Option ℕ
  pub link_exec : Option ℕ
  pub fds : EbpfTracer
  pub loaded : Bool

abbrev pub no_fds : EbpfTracer
no_fds = record {
  map_fd_switches = negsuc 0;
  map_fd_pids = negsuc 0;
  map_fd_io = negsuc 0;
  map_fd_io_wait = negsuc 0;
  map_fd_rq_wait = negsuc 0;
  map_fd_last_cpu = negsuc 0;
  map_fd_exec = negsuc 0;
}

-- What memset and the assignments of -1 leave.
abbrev pub cleared : Handle
cleared = record {
  obj = none;
  link_sched_switch = none;
  link_sched_wakeup = none;
  link_fork = none;
  link_exit = none;
  link_block_issue = none;
  link_block = none;
  link_exec = none;
  fds = no_fds;
  loaded = false;
}

abbrev pub is_null : Option ℕ → Bool
is_null none = true
is_null (some n) = false

module _ (lib : Libbpf) where
  open lib use {State}

  unfoldable pub found_map_fd : Option ℕ → State → ℤ
  found_map_fd none s = negsuc 0
  found_map_fd (some map) s = lib.map_fd map s

  unfoldable pub find_map_fd : (obj : ℕ) → MapName → State → ℤ
  unfolding found_map_fd
  find_map_fd obj name s = found_map_fd (lib.find_map_by_name obj name s) s

  unfoldable pub found_prog : Option ℕ → State → Option ℕ × State
  found_prog none s = (none, s)
  found_prog (some prog) s = lib.program_attach prog s

  unfoldable pub attach_prog : (obj : ℕ) → ProgName → State → Option ℕ × State
  unfolding found_prog
  attach_prog obj name s = found_prog (lib.find_program_by_name obj name s) s

  unfoldable pub maps_of : (obj : ℕ) → State → EbpfTracer
  unfolding find_map_fd
  maps_of obj s = record {
    map_fd_switches = find_map_fd obj vol_ctx_switch s;
    map_fd_pids = find_map_fd obj active_pids s;
    map_fd_io = find_map_fd obj io_counts s;
    map_fd_io_wait = find_map_fd obj io_wait_ns s;
    map_fd_rq_wait = find_map_fd obj rq_wait_ns s;
    map_fd_last_cpu = find_map_fd obj pid_last_cpu s;
    map_fd_exec = find_map_fd obj exec_comms s;
  }

  -- What a load gives: whether the result is 0, and the handle.
  abbrev pub Outcome : Type 0
  Outcome = (Bool × Handle) × State

  -- The two maps that are required.
  unfoldable pub object_loaded : (obj : ℕ) → State → Outcome
  unfolding maps_of
  object_loaded obj s =
      let fds = maps_of obj s in
      if is_missing fds.map_fd_switches || is_missing fds.map_fd_pids
      then (
        (
          false,
          record cleared {
            fds = record no_fds {
              map_fd_switches = fds.map_fd_switches;
              map_fd_pids = fds.map_fd_pids;
            };
          },
        ),
        lib.object_close obj s,
      )
      else ((true, record cleared { obj = some obj; fds = fds; loaded = true }), s)

  unfoldable pub object_opened : Option ℕ → State → Outcome
  unfolding object_loaded
  object_opened none s = ((false, cleared), s)
  object_opened (some obj) s =
      let (ok, s') = lib.object_load obj s in
      if ok then object_loaded obj s' else ((false, cleared), lib.object_close obj s')

  unfoldable pub ebpf_tracer_load : (bpf_path : List ℕ) → State → Outcome
  unfolding object_opened
  ebpf_tracer_load bpf_path s = let (obj, s') = lib.object_open bpf_path s in object_opened obj s'

  -- The programs without which a metric is lost.
  unfoldable pub attach_optional : (obj : ℕ) → Handle → State → Outcome
  unfolding attach_prog
  attach_optional obj et s =
      let (wakeup, s₁) = attach_prog obj handle_sched_wakeup s in
      let (issue, s₂) = attach_prog obj handle_block_rq_issue s₁ in
      let (block, s₃) = attach_prog obj handle_block_rq_complete s₂ in
      let (exec, s₄) = attach_prog obj handle_exec s₃ in
      (
        (
          true,
          record et {
            link_sched_wakeup = wakeup;
            link_block_issue = issue;
            link_block = block;
            link_exec = exec;
          },
        ),
        s₄,
      )

  unfoldable pub attach_required : (obj : ℕ) → Handle → State → Outcome
  unfolding attach_prog attach_optional
  attach_required obj et s =
      let (switch, s₁) = attach_prog obj handle_sched_switch s in
      let (fork, s₂) = attach_prog obj handle_fork s₁ in
      let (exit, s₃) = attach_prog obj handle_exit s₂ in
      let et' = record et { link_sched_switch = switch; link_fork = fork; link_exit = exit } in
      if is_null switch || is_null fork || is_null exit
      then ((false, et'), s₃)
      else attach_optional obj et' s₃

  -- A handle that is loaded has an object.
  unfoldable pub attach_to : Option ℕ → Handle → State → Outcome
  unfolding attach_required
  attach_to none et s = ((false, et), s)
  attach_to (some obj) et s = attach_required obj et s

  unfoldable pub ebpf_tracer_attach : Handle → State → Outcome
  unfolding attach_to
  ebpf_tracer_attach et s = if et.loaded then attach_to et.obj et s else ((false, et), s)

  unfoldable pub destroy_link : Option ℕ → State → State
  destroy_link none s = s
  destroy_link (some link) s = lib.link_destroy link s

  unfoldable pub close_object : Option ℕ → State → State
  close_object none s = s
  close_object (some obj) s = lib.object_close obj s

  unfoldable pub ebpf_tracer_destroy : Handle → State → Handle × State
  unfolding destroy_link close_object
  ebpf_tracer_destroy et s =
      let s₁ = destroy_link et.link_sched_switch s in
      let s₂ = destroy_link et.link_sched_wakeup s₁ in
      let s₃ = destroy_link et.link_fork s₂ in
      let s₄ = destroy_link et.link_exit s₃ in
      let s₅ = destroy_link et.link_block_issue s₄ in
      let s₆ = destroy_link et.link_block s₅ in
      let s₇ = destroy_link et.link_exec s₆ in (cleared, close_object et.obj s₇)

  unfoldable pub load_done : Bool × Handle → State → Option Handle × State
  unfolding ebpf_tracer_attach ebpf_tracer_destroy
  load_done (false, et) s = (none, s)
  load_done (true, et) s =
      let ((ok, et'), s') = ebpf_tracer_attach et s in
      if ok then (some et', s') else (none, (ebpf_tracer_destroy et' s').1)

  -- init_ebpf; none is the call of exit(1).
  unfoldable pub init_ebpf : (bpf_path : List ℕ) → State → Option Handle × State
  unfolding ebpf_tracer_load load_done
  init_ebpf bpf_path s = let (r, s') = ebpf_tracer_load bpf_path s in load_done r s'

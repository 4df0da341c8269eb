-- ===== src/Lib.antt =====
-- A verification development for schedmon, a Linux daemon that samples hardware counters, kernel
-- events and /proc for each process, smooths them over a window of ten samples and hands them to a
-- classifier and a dashboard through two ring buffers in shared memory.
--
-- How the parts work together. The BPF programs (bpf/ctx_switch.bpf.c) run in the kernel at
-- tracepoints and keep counters by process in hash maps. The daemon (src/schedmon.c) reads those maps,
-- the performance counters and /proc every fourth tick, pushes each metric into a sliding window
-- (src/sliding_window.c), takes the means and pushes a record of them (src/smoothed_metrics.h) into
-- the ring buffers (src/ring_buffer.c), which the consumers pop.
--
-- Which file models what.
--   Prelude          shared names, Boolean tests, lists, arrays as functions of the index, and
--                    circular buffers (Prelude/Circular), which the ring buffer and the window share.
--   Double           the C type double, as a parameter.
--   Metrics          src/smoothed_metrics.h (SmoothedMetrics) and sm_is_active of src/schedmon.c.
--   Ring             src/ring_buffer.c: rb_push, rb_pop, rb_is_full, rb_is_empty and rb_check_abi under
--                    their own names. A function that changes the segment returns the new one beside
--                    its result. Ring/Queue compares them with a bounded queue, Ring/Spsc splits push
--                    and pop into their atomic accesses and interleaves them. Ring/Shared: the
--                    functions that create, attach and destroy a segment, cut at the calls that can
--                    fail; Ring/Shared/Small is a memory that they can run on.
--   Window           src/sliding_window.c: sw_init, sw_push (in three parts) and sw_mean.
--   BpfMap           the kernel's hash maps, as a parameter with the documented laws of their
--                    operations; BpfMap/Assoc is a value of it.
--   Bpf              bpf/ctx_switch.bpf.c: one function for each handler, and Event, a tracepoint that
--                    fires with what its handler reads.
--   Tracer           src/ebpf_tracer.c: the readers, ebpf_tracer_register_pid,
--                    ebpf_tracer_unregister_pid and ebpf_tracer_pop_exec_comm, over the maps of Bpf.
--                    Tracer/Loading: ebpf_tracer_load, ebpf_tracer_attach and ebpf_tracer_destroy, cut
--                    at the calls that can fail, with init_ebpf of src/schedmon.c.
--   CString          the C library's string functions that the daemon calls (strtoul, strtol, atoi, strchr,
--                    strrchr, strcmp, strncmp, strtok_r, fgets), on lists of bytes.
--   Scanner          src/proc_scanner.c. Scanner/Stat: skip_fields, read_proc_stat, read_proc_uid.
--                    Scanner/Table: find_or_alloc and the two scans; entries[0 .. n_entries) is a list,
--                    and the code that both scans repeat is modelled once. Scanner/TopN: the ranking.
--   ProcIo           read_proc_io_fd of src/schedmon.c: its two nested loops are one recursion over the
--                    text that knows whether it is at the start of a line.
--   Perf             src/perf_counter.c. perf_counter_open is cut at its calls of open_counter, one
--                    function for what follows each; Perf/Descriptors and Perf/Opening follow the
--                    descriptors; Perf/Reading is perf_counter_read, of which Perf/Values tells.
--   Daemon           the rest of src/schedmon.c. The arrays with an entry for each process are one list
--                    of slots, [0 .. g_n_active), and a call takes the state of the system and returns
--                    it (Daemon/Monad). Daemon/Slots: find_slot, add_pid, remove_slot and the readers
--                    of /proc/<pid> that they call; Daemon/Scan: the two scans of Scanner/Table with
--                    the files and the directory that they open, read and close, as sync_pids runs
--                    them; Daemon/Sync: sync_pids, whose two loops that remove
--                    slots are one (prune); Daemon/Deltas and Daemon/Sample: the visit of a slot up to
--                    its means, cut where it reads; Daemon/Ticks: run_sampling_loop, with the rb_push
--                    calls listed in their order, and the first loop of cleanup; Daemon/Options: parse_args
--                    and raise_fd_limit; Daemon/Start: init_shm and check_proc_io_access; Daemon/Main:
--                    main and cleanup, over the states of the kernel, of libbpf and of the shared
--                    memory, with exit(1) as a result. Daemon/Small is a system that it can run on.
--
-- Bounds and recursion. C integers are natural numbers with the wrap-around written out where the code
-- can reach it (% 2 ^ 32, % 2 ^ 64); arrays are functions of the index, and the invariants show that
-- the indices stay in range. Every loop is a structural recursion but three. The loop
-- over the lines of a status file has one more round than there are bytes in the text, of which each
-- round takes one or more. The loops that remove slots (prune, slow_loop) have a round for each slot:
-- each round ends with one slot less to visit. The times are nanoseconds below 2 ^ 64.
--
-- What is a parameter. The arithmetic of doubles: nothing is assumed of it but, in Window/Exact, that
-- sums of whole numbers up to a limit are exact. The kernel's hash maps: an update of a key that is
-- there succeeds, an update of a new key succeeds or changes nothing, a deletion makes room for one
-- key. The kernel's calls for performance counters: perf_event_open hands out a descriptor that was
-- not open, close ends the one that it is given (Perf/Small is a value). libbpf: it hands out objects
-- and links that were not alive, and ends the ones that it is given. What else the daemon asks of the
-- system: open, fopen and opendir hand out a descriptor that was not open, and reading a file or a map changes none;
-- files, processes and maps may change between any two calls. /proc, as the names and texts that the
-- scanner reads. Shared memory: shm_open opens the object of a name or, where it may create one, a new
-- object; the descriptors and addresses that are handed out are new ones; a store through an address
-- shows at every address of the same object; a failed call changes nothing but, if it is ftruncate,
-- the object. qsort, which returns the same elements in order (Scanner/TopN/Insertion is a value of
-- it).
--
-- What is not modelled. Weak memory orders (sequential consistency stands for the release and acquire
-- accesses of the ring buffer), the interleaving of the BPF handlers on several CPUs (each runs as one
-- step), what a consumer takes out of the segments while the daemon runs (Daemon/Main pushes to them
-- at the end of the loop), ebpf_tracer_get_active_pids, which nothing calls, the signal handlers (the
-- list of ticks ends where one would end the loop), the lines of the CSV file, proc_scanner_print and
-- all other printing, and the Python tools (calibrate.py, dashboard.py, hw_profile.py).
pub mod Bpf
pub mod BpfMap
pub mod CString
pub mod Daemon
pub mod Double
pub mod Metrics
pub mod Perf
pub mod Prelude
pub mod ProcIo
pub mod Ring
pub mod Scanner
pub mod Tracer
pub mod Window

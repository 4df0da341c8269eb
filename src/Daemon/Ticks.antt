-- ===== src/Daemon/Ticks.antt =====
-- The sampling loop (src/schedmon.c: run_sampling_loop, cleanup). What goes to the two ring buffers is
-- listed in its order: Ring says what a push does, whatever a reader pops in between. The lines for the
-- terminal and the CSV file are left out.
pub mod Visits
pub mod Loops
pub mod Runs
pub mod Each
pub mod Outcomes
pub mod Active
pub mod Sent
pub mod Windows
pub mod Ownership
pub mod Fresh
mod Tests
use capstone_monitor.Prelude.{
  ℕ, zero, suc, ◌+◌, ◌-◌, ◌*◌, ◌/◌, ◌%◌, ◌^◌, List, [], ◌∷◌, ◌++◌, Bool, true, false, not, ◌&&◌,
  ◌||◌, Option, none, some, if◌then◌else◌, ◌==◌, ltb, leb, length, set, get_elem?,
}
use capstone_monitor.Prelude.Int.{negsuc}
use capstone_monitor.Double.{Double}
use capstone_monitor.Metrics.{SmoothedMetrics, sm_is_active}
use capstone_monitor.BpfMap.{BpfMaps}
use capstone_monitor.Bpf.{sub64}
use capstone_monitor.Perf.{Kernel, close_fd, perf_counter_close}
use capstone_monitor.Tracer.{EbpfTracer, ebpf_tracer_pop_exec_comm}
use capstone_monitor.Scanner.Table.{Proc}
use capstone_monitor.Scanner.TopN.{Qsort}
use capstone_monitor.Daemon.{Slot, System}
use capstone_monitor.Daemon.Monad.{M, pure, ◌>>=◌, ◌>>◌, change}
use capstone_monitor.Daemon.Slots.{remove_slot}
use capstone_monitor.Daemon.Sync.{DaemonConfig, Timespec, to_ns, Syncing, sync_pids}
use capstone_monitor.Daemon.Sample.{Sampled, gone, skipped, measured, sample}

abbrev pub stale_ns : ℕ
stale_ns = 1000000000

-- A call of rb_push, with g_rb or with g_rb_dash.
pub data Push (F : Type 0) : Type 0 where
  to_rb to_rb_dash : SmoothedMetrics F → Push F

-- What the loop over the slots keeps.
pub record Round (F : Type 0) : Type 0 where
  pub slots : List (Slot F)
  pub displayed : ℕ
  pub sent : List (Push F)

-- The first wake-up time after `t` that the interval allows.
unfoldable pub deadline : (interval_ms : ℕ) → Timespec → Timespec
deadline interval_ms t =
    let interval_ns = interval_ms * 1000000 in
    let sec = t.tv_sec + interval_ns / 1000000000 in
    let nsec = t.tv_nsec + interval_ns % 1000000000 in
    if leb 1000000000 nsec
    then record { tv_sec = sec + 1; tv_nsec = nsec - 1000000000 }
    else record { tv_sec = sec; tv_nsec = nsec }

module _ {F : Type 0} where
  abbrev pub stamp : (now_ns : ℕ) → SmoothedMetrics F → SmoothedMetrics F
  stamp now_ns m = record m { timestamp_ns = now_ns }

  -- The fast path, every 50 ms: the slots that were active in the last second are sent again.
  unfoldable pub is_fresh : (now_ns : ℕ) → Slot F → Bool
  is_fresh now_ns x = x.last_sm_valid && not (ltb stale_ns (sub64 now_ns x.last_sm_updated_ns))

  unfoldable pub fast_slot : (now_ns : ℕ) → Slot F → Slot F × List (Push F)
  unfolding is_fresh
  fast_slot now_ns x =
      if is_fresh now_ns x
      then (record x { last_sm = stamp now_ns x.last_sm }, to_rb (stamp now_ns x.last_sm) ∷ [])
      else (x, [])

  unfoldable pub fast_path : (now_ns : ℕ) → List (Slot F) → List (Slot F) × List (Push F)
  unfolding fast_slot
  fast_path now_ns [] = ([], [])
  fast_path now_ns (x ∷ xs) =
      let (y, sent) = fast_slot now_ns x in
      let (ys, more) = fast_path now_ns xs in (y ∷ ys, sent ++ more)

module _ (d : Double) where
  open d use {F, mul, of_nat, decimal}

  -- Both ring buffers get the slot's entry when some metric is above 0.
  unfoldable pub publish : (now_ns : ℕ) → Slot F → Slot F × List (Push F)
  unfolding sm_is_active
  publish now_ns x =
      if sm_is_active d x.last_sm
      then (
        record x {
          last_sm = stamp now_ns x.last_sm;
          last_sm_updated_ns = now_ns;
          last_sm_valid = true;
        },
        to_rb (stamp now_ns x.last_sm) ∷ to_rb_dash (stamp now_ns x.last_sm) ∷ [],
      )
      else (record x { last_sm_valid = false }, [])

  -- The seconds since the last round of the slow path, 0.2 for the first.
  unfoldable pub slow_dt : (first_slow : Bool) → (last_slow t_start : Timespec) → F
  slow_dt first_slow last_slow t_start =
      if not first_slow && ltb (to_ns last_slow) (to_ns t_start)
      then mul (of_nat (to_ns t_start - to_ns last_slow)) (decimal 1 9)
      else decimal 200 3

-- The name that a slot has after ebpf_tracer_pop_exec_comm.
unfoldable pub renamed : {F : Type 0} → Option (List ℕ) → Slot F → Slot F
renamed none x = x
renamed (some bytes) x = record x { comm = bytes }

-- What comes of a visit of a slot: none when the slot is to be removed.
abbrev pub Visit : Type 0 → Type 0
Visit F = Option (Slot F × ℕ × List (Push F))

module _ (b : BpfMaps) (k : Kernel) (sys : System b k) (d : Double) (et : EbpfTracer) where
  open k use {State}
  open d use {F}

  -- The part of the visit that --top limits: the name of a process that did exec is read.
  unfoldable pub display : (display_limit displayed : ℕ) → Slot F → M State (Slot F × ℕ)
  unfolding change renamed
  display display_limit displayed x s =
      if ltb displayed display_limit
      then (do
        popped ← change b k sys (ebpf_tracer_pop_exec_comm b et x.state.pid 17)
        pure (renamed popped x, displayed + 1))
          s
      else ((x, displayed), s)

  unfoldable pub sampled : (now_ns display_limit displayed : ℕ) → Sampled F → M State (Visit F)
  unfolding publish display
  sampled now_ns display_limit displayed gone = pure none
  sampled now_ns display_limit displayed (skipped x) = pure (some (x, displayed, []))
  sampled now_ns display_limit displayed (measured x) = do
    let published = publish d now_ns x
    shown ← display display_limit displayed published.0
    pure (some (shown.0, shown.1, published.1))

  unfoldable pub visit :
      (dt : F) → (now_ns display_limit displayed : ℕ) → Slot F → M State (Visit F)
  unfolding sampled
  visit dt now_ns display_limit displayed x = do
    y ← sample b k sys d et dt x
    sampled now_ns display_limit displayed y

  module _ (dt : F) (now_ns display_limit : ℕ) where
    -- The loop over the slots, from slot `i` on. Each round ends with one slot less to visit, so that
    -- `g_n_active` rounds are enough.
    unfoldable pub slow_loop : (fuel i : ℕ) → Round F → M State (Round F)
    slow_loop zero i r s = (r, s)
    slow_loop (suc fuel) i r s = elim (get_elem? r.slots i) [
      | none ↦ (r, s)
      | some x ↦
          let (v, s') = visit dt now_ns display_limit r.displayed x s in
          elim v [
            | none ↦
                (do
                  left ← remove_slot b k sys et i r.slots
                  slow_loop fuel i (record r { slots = left }))
                  s'
            | some (y, displayed, sent) ↦
                slow_loop fuel (suc i)
                  (record { slots = set r.slots i y; displayed = displayed; sent = r.sent ++ sent })
                  s'
          ]
    ]

-- The variables of run_sampling_loop, and the static ones of sync_pids.
pub record Loop (F : Type 0) : Type 0 where
  pub syncing : Syncing F
  pub sample_num : ℕ
  pub first_slow : Bool
  pub last_slow : Timespec
  pub sent : List (Push F)

-- The end of a tick, after which the daemon sleeps until the deadline.
unfoldable pub end_tick : {F : Type 0} → (t_start : Timespec) → Loop F → Loop F
unfolding fast_path
end_tick t_start l =
    let (slots, sent) = fast_path (to_ns t_start) l.syncing.slots in
    record l {
      syncing = record l.syncing { slots = slots };
      sample_num = (l.sample_num + 1) % 4;
      sent = l.sent ++ sent;
    }

module _ (b : BpfMaps) (k : Kernel) (sys : System b k) (d : Double) (et : EbpfTracer) (q : Qsort)
    (proc : k.State → Proc) (names : k.State → Option (List (List ℕ))) (cfg : DaemonConfig) where
  open k use {State}
  open d use {F}

  -- The slow path, every 200 ms; `synced` is the time that sync_pids reads.
  unfoldable pub slow_path : (t_start synced : Timespec) → Loop F → M State (Loop F)
  unfolding sync_pids slow_dt slow_loop
  slow_path t_start synced l = do
    let dt = slow_dt d l.first_slow l.last_slow t_start
    syncing ← sync_pids b k sys d et q proc names cfg synced l.syncing
    let n = length syncing.slots
    let display_limit = if ltb 0 cfg.top_n then cfg.top_n else n
    r ←
        slow_loop b k sys d et dt (to_ns t_start) display_limit n 0
          (record { slots = syncing.slots; displayed = 0; sent = l.sent })
    pure (record l {
      syncing = record syncing { slots = r.slots };
      first_slow = false;
      last_slow = t_start;
      sent = r.sent;
    })

  unfoldable pub every_fourth : (t_start synced : Timespec) → Loop F → M State (Loop F)
  unfolding slow_path
  every_fourth t_start synced l s =
      if l.sample_num % 4 == 0 then slow_path t_start synced l s else (l, s)

  -- One tick for each pair of times, until g_running is 0. The system goes on while the daemon sleeps.
  unfoldable pub run_sampling_loop : List (Timespec × Timespec) → Loop F → M State (Loop F)
  unfolding every_fourth end_tick
  run_sampling_loop [] l = pure l
  run_sampling_loop ((t_start, synced) ∷ times) l = do
    l' ← every_fourth t_start synced l
    λ s. (tt, sys.later s)
    run_sampling_loop times (end_tick t_start l')

module _ (k : Kernel) {F : Type 0} where
  -- The first loop of cleanup. ebpf_tracer_destroy, rb_destroy and fclose follow.
  unfoldable pub close_slots : List (Slot F) → k.State → k.State
  unfolding close_fd
  close_slots [] s = s
  close_slots (x ∷ xs) s =
      close_slots xs (perf_counter_close k x.perf (close_fd k x.state.io_fd s)).1

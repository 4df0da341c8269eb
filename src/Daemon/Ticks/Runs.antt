-- ===== src/Daemon/Ticks/Runs.antt =====
-- A run of the sampling loop keeps what its steps keep (src/schedmon.c: run_sampling_loop).
use capstone_monitor.Prelude.{
  ℕ, ◌≡◌, List, [], ◌∷◌, Option, none, some, length, set, get_elem?, Bool-cases, inl, inr, ◌==◌,
  ◌%◌, if◌then◌else◌, ltb,
}
use capstone_monitor.Double.{Double}
use capstone_monitor.BpfMap.{BpfMaps}
use capstone_monitor.Perf.{Kernel}
use capstone_monitor.Tracer.{EbpfTracer}
use capstone_monitor.Scanner.Table.{Proc, ProcScanner}
use capstone_monitor.Scanner.TopN.{Qsort}
use capstone_monitor.Daemon.{Slot, System}
use capstone_monitor.Daemon.Scan.{scan}
use capstone_monitor.Daemon.Sync.{DaemonConfig, Timespec, to_ns, sync_pids}
use capstone_monitor.Daemon.Sync.Loops.{Kept, sync_pids_keeps}
use capstone_monitor.Daemon.Ticks.{
  Push, visit, slow_dt, fast_path, Loop, slow_path, every_fourth, end_tick, run_sampling_loop,
}
use capstone_monitor.Daemon.Ticks.Loops.{slow_loop_keeps}

module _ (b : BpfMaps) (k : Kernel) (sys : System b k) (d : Double) (et : EbpfTracer) where
  open k use {State}
  open d use {F}

  -- What the steps of the loop leave true of the table and the system.
  pub record Steady (P : List (Slot F) → State → Type 0) : Type 0 where
    pub kept : Kept b k sys d et P
    pub leaving :
        (dt : F) (now_ns limit i n : ℕ) (slots : List (Slot F)) (s : State) (x : Slot F)
        → get_elem? slots i ≡ some x
        → (visit b k sys d et dt now_ns limit n x s).0 ≡ none
        → P slots s
        → P slots (visit b k sys d et dt now_ns limit n x s).1
    pub staying :
        (dt : F) (now_ns limit i n : ℕ) (slots : List (Slot F)) (s : State) (x : Slot F)
        (v : Slot F × ℕ × List (Push F))
        → get_elem? slots i ≡ some x
        → (visit b k sys d et dt now_ns limit n x s).0 ≡ some v
        → P slots s
        → P (set slots i v.0) (visit b k sys d et dt now_ns limit n x s).1
    pub waiting : (slots : List (Slot F)) (s : State) → P slots s → P slots (sys.later s)
    pub scanning :
        (proc : State → Proc) (names : State → Option (List (List ℕ))) (pids : List ℕ)
        (ps : ProcScanner) (slots : List (Slot F)) (s : State)
        → P slots s
        → P slots (scan b k sys proc names pids ps s).1
    pub stamping :
        (now_ns : ℕ) (slots : List (Slot F)) (s : State)
        → P slots s
        → P (fast_path now_ns slots).0 s

  module _ (P : List (Slot F) → State → Type 0) (steady : Steady P) (q : Qsort)
      (proc : State → Proc) (names : State → Option (List (List ℕ))) (cfg : DaemonConfig) where
    pub slow_path_keeps :
        (t_start synced : Timespec) (l : Loop F) (s : State)
        → P l.syncing.slots s
        → P
            (slow_path b k sys d et q proc names cfg t_start synced l s).0.syncing.slots
            (slow_path b k sys d et q proc names cfg t_start synced l s).1
    unfolding slow_path
    slow_path_keeps t_start synced l s h =
        let dt = slow_dt d l.first_slow l.last_slow t_start in
        let synchronised = sync_pids b k sys d et q proc names cfg synced l.syncing s in
        let n = length synchronised.0.slots in
        let limit = if ltb 0 cfg.top_n then cfg.top_n else n in
        let h' =
          sync_pids_keeps b k sys d et P steady.kept q proc names cfg
            (steady.scanning proc names cfg.pids) synced l.syncing s h in
        slow_loop_keeps b k sys d et dt (to_ns t_start) limit P steady.kept.removing
          (steady.leaving dt (to_ns t_start) limit) (steady.staying dt (to_ns t_start) limit) n 0
          (record { slots = synchronised.0.slots; displayed = 0; sent = l.sent }) synchronised.1 h'

    pub every_fourth_keeps :
        (t_start synced : Timespec) (l : Loop F) (s : State)
        → P l.syncing.slots s
        → P
            (every_fourth b k sys d et q proc names cfg t_start synced l s).0.syncing.slots
            (every_fourth b k sys d et q proc names cfg t_start synced l s).1
    unfolding every_fourth
    every_fourth_keeps t_start synced l s h = elim (Bool-cases (l.sample_num % 4 == 0)) [
      | inl slow ↦ rw slow (slow_path_keeps t_start synced l s h)
      | inr fast ↦ rw fast h
    ]

    pub run_keeps :
        (times : List (Timespec × Timespec)) (l : Loop F) (s : State)
        → P l.syncing.slots s
        → P
            (run_sampling_loop b k sys d et q proc names cfg times l s).0.syncing.slots
            (run_sampling_loop b k sys d et q proc names cfg times l s).1
    unfolding run_sampling_loop end_tick
    run_keeps [] l s h = h
    run_keeps ((t_start, synced) ∷ times) l s h =
        let ticked = every_fourth b k sys d et q proc names cfg t_start synced l s in
        let h' = steady.waiting _ _ (every_fourth_keeps t_start synced l s h) in
        run_keeps times (end_tick t_start ticked.0) (sys.later ticked.1)
          (steady.stamping (to_ns t_start) ticked.0.syncing.slots (sys.later ticked.1) h')

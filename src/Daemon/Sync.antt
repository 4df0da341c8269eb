-- ===== src/Daemon/Sync.antt =====
-- Which processes have a slot (src/schedmon.c: sync_pids). What the scans of
-- Daemon/Scan read of /proc, and the order that qsort gives, are parameters.
pub mod Loops
pub mod Prune
pub mod Tracked
pub mod Ownership
pub mod Top
pub mod Newcomers
pub mod Full
mod Tests
use capstone_monitor.Prelude.{
  ℕ, zero, suc, ◌+◌, ◌*◌, List, [], ◌∷◌, map, Bool, true, false, ◌||◌, Option, none, some,
  if◌then◌else◌, ◌==◌, ltb, leb, length, set, get_elem?,
}
use capstone_monitor.Prelude.Int.{ℤ}
use capstone_monitor.Double.{Double}
use capstone_monitor.BpfMap.{BpfMaps}
use capstone_monitor.Perf.{Kernel}
use capstone_monitor.Tracer.{EbpfTracer}
use capstone_monitor.Scanner.Table.{Proc, ProcScanner}
use capstone_monitor.Scanner.TopN.{Qsort, proc_scanner_top_n}
use capstone_monitor.Daemon.{Slot, System, max_pids}
use capstone_monitor.Daemon.Monad.{M, pure, ◌>>=◌, ◌>>◌}
use capstone_monitor.Daemon.Scan.{scan}
use capstone_monitor.Daemon.Slots.{find_slot, add_pid, remove_slot}

module _ {F : Type 0} where
  -- g_states[i].active = a
  abbrev pub mark : (a : ℕ) → Slot F → Slot F
  mark a x = record x { state = record x.state { active = a } }

  unfoldable pub mark_at : (a i : ℕ) → List (Slot F) → Option (Slot F) → List (Slot F)
  mark_at a i slots none = slots
  mark_at a i slots (some x) = set slots i (mark a x)

  unfoldable pub set_active : (a i : ℕ) → List (Slot F) → List (Slot F)
  unfolding mark_at
  set_active a i slots = mark_at a i slots (get_elem? slots i)

  unfoldable pub mark_added : Option ℕ → List (Slot F) → List (Slot F)
  unfolding set_active
  mark_added none slots = slots
  mark_added (some i) slots = set_active 1 i slots

-- The loop that removes slots: at each round slot `i` goes, and the last one comes in its place, or
-- `i` goes up, so that `g_n_active` rounds are enough.
module _ (b : BpfMaps) (k : Kernel) (sys : System b k) {F : Type 0} (et : EbpfTracer)
    (goes : Slot F → k.State → Bool) where
  open k use {State}

  unfoldable pub prune : (fuel i : ℕ) → List (Slot F) → M State (List (Slot F))
  prune zero i slots s = (slots, s)
  prune (suc fuel) i slots s = elim (get_elem? slots i) [
    | none ↦ (slots, s)
    | some x ↦ elim (goes x s) [
      | true ↦ (do left ← remove_slot b k sys et i slots; prune fuel i left) s
      | false ↦ prune fuel (suc i) slots s
    ]
  ]

module _ (b : BpfMaps) (k : Kernel) (sys : System b k) (d : Double) (et : EbpfTracer) where
  open k use {State}
  open d use {F}

  -- `slot = find_slot(p); if (slot < 0) slot = add_pid(p); if (slot >= 0) active = 1;`
  unfoldable pub track_found : (pid : ℕ) → List (Slot F) → Option ℕ → M State (List (Slot F))
  unfolding set_active mark_added
  track_found pid slots (some i) = pure (set_active 1 i slots)
  track_found pid slots none = do r ← add_pid b k sys d et pid slots; pure (mark_added r.0 r.1)

  unfoldable pub track_all : (top : List ℕ) → List (Slot F) → M State (List (Slot F))
  unfolding track_found
  track_all [] slots = pure slots
  track_all (p ∷ top) slots = do
    slots' ← track_found p slots (find_slot p slots)
    track_all top slots'

  -- The branch of sync_pids for the processes that use most.
  unfoldable pub sync_top : (top : List ℕ) → List (Slot F) → M State (List (Slot F))
  unfolding track_all prune
  sync_top top slots = do
    marked ← track_all top (map (mark 0) slots)
    prune b k sys et (λ x s. x.state.active == 0) (length marked) 0 marked

  unfoldable pub add_found : (pid : ℕ) → List (Slot F) → Option ℕ → M State (List (Slot F))
  add_found pid slots (some i) = pure slots
  add_found pid slots none = do r ← add_pid b k sys d et pid slots; pure r.1

  unfoldable pub add_missing : (pids : List ℕ) → List (Slot F) → M State (List (Slot F))
  unfolding add_found
  add_missing [] slots = pure slots
  add_missing (p ∷ pids) slots = do
    slots' ← add_found p slots (find_slot p slots)
    add_missing pids slots'

  -- The branch for the processes that the user named; those that kill does not find lose their slots.
  unfoldable pub sync_named : (pids : List ℕ) → List (Slot F) → M State (List (Slot F))
  unfolding add_missing prune
  sync_named pids slots = do
    all ← add_missing pids slots
    prune b k sys et (λ x s. sys.is_gone x.state.pid s) (length all) 0 all

-- The options of the command line, whose `n_pids` is the length of `pids`; `running` is written and
-- never read.
pub record DaemonConfig : Type 0 where
  pub pids : List ℕ
  pub top_n : ℕ
  pub min_uid : ℤ
  pub interval_ms : ℕ
  pub csv_path : Option (List ℕ)
  pub label : Option (List ℕ)
  pub terminal_mode : Bool
  pub show_zero : Bool

pub record Timespec : Type 0 where
  pub tv_sec : ℕ
  pub tv_nsec : ℕ

abbrev pub to_ns : Timespec → ℕ
to_ns t = t.tv_sec * 1000000000 + t.tv_nsec

-- The state that sync_pids keeps from call to call.
pub record Syncing (F : Type 0) : Type 0 where
  pub slots : List (Slot F)
  pub scanner : ProcScanner
  pub first_run : Bool
  pub last_sync : Timespec

module _ (b : BpfMaps) (k : Kernel) (sys : System b k) (d : Double) (et : EbpfTracer) (q : Qsort)
    (proc : k.State → Proc) (names : k.State → Option (List (List ℕ))) (cfg : DaemonConfig) where
  open k use {State}
  open d use {F}

  unfoldable pub sync_slots : ProcScanner → List (Slot F) → M State (List (Slot F))
  unfolding sync_top sync_named
  sync_slots ps slots =
      if ltb 0 (length cfg.pids)
      then sync_named b k sys d et cfg.pids slots
      else (let fetch_n = if ltb max_pids cfg.top_n then max_pids else cfg.top_n in
          sync_top b k sys d et (proc_scanner_top_n q ps fetch_n cfg.min_uid) slots)

  -- `now` is what clock_gettime gives. Less than a second after the last time nothing is done.
  unfoldable pub sync_pids : (now : Timespec) → Syncing F → M State (Syncing F)
  unfolding scan sync_slots
  sync_pids now st s =
      if leb (to_ns st.last_sync + 1000000000) (to_ns now) || st.first_run
      then (do
        ps ← scan b k sys proc names cfg.pids st.scanner
        slots ← sync_slots ps st.slots
        pure (record { slots = slots; scanner = ps; first_run = false; last_sync = now }))
          s
      else (st, s)

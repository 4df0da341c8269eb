-- ===== src/Daemon/Ticks/Each.antt =====
-- Predicates of single slots over a run of the sampling loop (src/schedmon.c: the calls that write a
-- slot).
use capstone_monitor.Prelude.{
  ℕ, zero, suc, ◌≡◌, sym, refl, subst, List, [], ◌∷◌, ◌++◌, map, some, arith, length, set,
  get_elem?, Bool-cases, Option-cases, inl, inr, leb,
}
use capstone_monitor.Prelude.Int.{pos, negsuc, eq_ℤ}
use capstone_monitor.Prelude.Indexed.{get-append_cases}
use capstone_monitor.Double.{Double}
use capstone_monitor.BpfMap.{BpfMaps}
use capstone_monitor.Perf.{Kernel, PerfCounter, OpenResult, perf_counter_open}
use capstone_monitor.Tracer.{EbpfTracer}
use capstone_monitor.Daemon.{Slot, System, max_pids}
use capstone_monitor.Daemon.Slots.{fill_slot, counters_opened, add_pid, remove_slot, remove_found}
use capstone_monitor.Daemon.Slots.Members.{In, get_set_cases, swap_out-In}
use capstone_monitor.Daemon.Slots.Valid.{remove_slot_lem}
use capstone_monitor.Daemon.Sync.{mark, mark_at, set_active}
use capstone_monitor.Daemon.Ticks.{Push, visit, fast_slot, fast_path}
use capstone_monitor.Daemon.Ticks.Runs.{Steady}

module _ {F : Type 0} (Q : Slot F → Type 0) where
  abbrev pub Each : List (Slot F) → Type 0
  Each slots = (y : Slot F) → In y slots → Q y

  set-Each :
      (i : ℕ) (slots : List (Slot F)) (v : Slot F) {x : Slot F}
      → get_elem? slots i ≡ some x
      → Q v
      → Each slots
      → Each (set slots i v)
  set-Each i slots v hx q e y (m, h) = elim (get_set_cases i m slots v hx h) [
    | inl old ↦ e y (m, old)
    | inr new ↦ subst Q (sym new) q
  ]

  append-Each : (slots : List (Slot F)) (x : Slot F) → Q x → Each slots → Each (slots ++ x ∷ [])
  append-Each slots x q e y (m, h) = elim (get-append_cases m slots x h) [
    | inl old ↦ e y (m, old)
    | inr new ↦ subst Q new q
  ]

  pub cons-Each : (x : Slot F) (slots : List (Slot F)) → Q x → Each slots → Each (x ∷ slots)
  cons-Each x slots q e y (zero, h) = let it : x ≡ y = cc in subst Q it q
  cons-Each x slots q e y (suc m, h) = e y (m, h)

  map-Each :
      (f : Slot F → Slot F) (slots : List (Slot F))
      → ((x : Slot F) → Q x → Q (f x))
      → Each slots
      → Each (map f slots)
  map-Each f [] step e = λ y (m, h). absurd (ground arith)
  map-Each f (x ∷ xs) step e =
      cons-Each (f x) (map f xs) (step x (e x (0, refl)))
        (map-Each f xs step (λ y (m, h). e y (suc m, h)))

  fast_path-Each :
      (now_ns : ℕ) (slots : List (Slot F))
      → ((x : Slot F) → Q x → Q (fast_slot now_ns x).0)
      → Each slots
      → Each (fast_path now_ns slots).0
  unfolding fast_path
  fast_path-Each now_ns [] step e = e
  fast_path-Each now_ns (x ∷ xs) step e =
      cons-Each _ _ (step x (e x (0, refl)))
        (fast_path-Each now_ns xs step (λ y (m, h). e y (suc m, h)))

module _ (b : BpfMaps) (k : Kernel) (sys : System b k) (d : Double) (et : EbpfTracer) where
  open k use {State}
  open d use {F}

  -- What the calls that write a slot leave true of it.
  pub record Slotwise (Q : Slot F → Type 0) : Type 0 where
    pub filling : (pid : ℕ) (pc : PerfCounter) (s : State) → Q (fill_slot b k sys d et pid pc s).0
    pub marking : (a : ℕ) (x : Slot F) → Q x → Q (mark a x)
    pub visiting :
        (dt : F) (now_ns limit n : ℕ) (x : Slot F) (s : State) (v : Slot F × ℕ × List (Push F))
        → (visit b k sys d et dt now_ns limit n x s).0 ≡ some v
        → Q x
        → Q v.0
    pub stamping : (now_ns : ℕ) (x : Slot F) → Q x → Q (fast_slot now_ns x).0

  module _ (Q : Slot F → Type 0) (slotwise : Slotwise Q) where
    counters_opened-Each :
        (pid : ℕ) (slots : List (Slot F)) (r : OpenResult State)
        → Each Q slots
        → Each Q (counters_opened b k sys d et pid slots r).0.1
    unfolding counters_opened
    counters_opened-Each pid slots r e = elim (Bool-cases (eq_ℤ r.ret (pos 0))) [
      | inl ok ↦ rw ok (append-Each Q slots _ (slotwise.filling pid r.counter r.kernel) e)
      | inr failed ↦ rw failed e
    ]

    add_pid-Each :
        (pid : ℕ) (slots : List (Slot F)) (s : State)
        → Each Q slots
        → Each Q (add_pid b k sys d et pid slots s).0.1
    unfolding add_pid
    add_pid-Each pid slots s e = elim (Bool-cases (leb max_pids (length slots))) [
      | inl full ↦ rw full e
      | inr room ↦ rw room (counters_opened-Each pid slots (perf_counter_open k pid (negsuc 0) s) e)
    ]

    remove_slot-Each :
        (i : ℕ) (slots : List (Slot F)) (s : State)
        → Each Q slots
        → Each Q (remove_slot b k sys et i slots s).0
    unfolding remove_slot
    remove_slot-Each i slots s e = elim (Option-cases (get_elem? slots i)) [
      | inl h ↦ rw (h, remove_found) e
      | inr (x, h) ↦
          rw (remove_slot_lem b k sys d et i slots s h)
            (λ y there. e y (swap_out-In i slots h there))
    ]

    set_active-Each :
        (a i : ℕ) (slots : List (Slot F)) → Each Q slots → Each Q (set_active a i slots)
    unfolding set_active
    set_active-Each a i slots e = elim (Option-cases (get_elem? slots i)) [
      | inl h ↦ rw (h, mark_at) e
      | inr (x, h) ↦
          rw (h, mark_at) (set-Each Q i slots (mark a x) h (slotwise.marking a x (e x (i, h))) e)
    ]

    pub Each-Steady : Steady b k sys d et (λ slots s. Each Q slots)
    Each-Steady = record {
      kept = record {
        adding = λ p slots s new e. add_pid-Each p slots s e;
        removing = remove_slot-Each;
        marking = λ a i slots s e. set_active-Each a i slots e;
        clearing = λ slots s e. map-Each Q (mark 0) slots (slotwise.marking 0) e;
      };
      leaving = λ dt now_ns limit i n slots s x h goes e. e;
      staying = λ dt now_ns limit i n slots s x v h stays e.
          set-Each Q i slots v.0 h (slotwise.visiting dt now_ns limit n x s v stays (e x (i, h))) e;
      waiting = λ slots s e. e;
      scanning = λ proc names pids ps slots s e. e;
      stamping = λ now_ns slots s e. fast_path-Each Q now_ns slots (slotwise.stamping now_ns) e;
    }

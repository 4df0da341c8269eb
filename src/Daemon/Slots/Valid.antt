-- ===== src/Daemon/Slots/Valid.antt =====
-- The table stays within its arrays, with one slot for a process at most (src/schedmon.c: find_slot,
-- add_pid, remove_slot).
use capstone_monitor.Prelude.{
  ℕ, suc, ◌+◌, ◌≤◌, ◌<◌, ◌≡◌, ◌∙◌, ap, sym, refl, List, [], ◌∷◌, ◌++◌, Option, none, some, arith,
  if◌then◌else◌, ◌==◌, leb, length, get_elem?, Bool-cases, ==_iff, inl, inr, length-append,
}
use capstone_monitor.Prelude.Int.{pos, negsuc, eq_ℤ}
use capstone_monitor.Prelude.Indexed.{sum_of, sum_of-append, sum_of_ones}
use capstone_monitor.Double.{Double}
use capstone_monitor.BpfMap.{BpfMaps}
use capstone_monitor.Perf.{Kernel, OpenResult, perf_counter_open}
use capstone_monitor.Tracer.{EbpfTracer}
use capstone_monitor.Daemon.{Slot, System, max_pids}
use capstone_monitor.Daemon.Slots.{
  find_from, find_slot, swap_out, fill_slot, counters_opened, add_pid, remove_found, remove_slot,
}
use capstone_monitor.Daemon.Slots.Table.{sum_of-swap_out}

module _ {F : Type 0} where
  abbrev pub is_of : ℕ → Slot F → ℕ
  is_of p x = if x.state.pid == p then 1 else 0

  -- The number of slots that a process has.
  abbrev pub count_pid : ℕ → List (Slot F) → ℕ
  count_pid p slots = sum_of (is_of p) slots

  pub record IsTable (slots : List (Slot F)) : Type 0 where
    pub distinct : (p : ℕ) → count_pid p slots ≤ 1
    pub within : length slots ≤ max_pids

  pub find_from-none :
      (i p : ℕ) (slots : List (Slot F)) → find_from i p slots ≡ none → count_pid p slots ≡ 0
  unfolding find_from
  find_from-none i p [] h = refl
  find_from-none i p (x ∷ xs) h = ground (arith, find_from-none (i + 1) p xs)

  pub find_from-some :
      (i p : ℕ) (slots : List (Slot F)) {n : ℕ}
      → find_from i p slots ≡ some n
      → (m : ℕ) × (x : Slot F) × (n ≡ i + m) × (get_elem? slots m ≡ some x) × (x.state.pid ≡ p)
  unfolding find_from
  find_from-some i p [] h = absurd (ground arith)
  find_from-some i p (x ∷ xs) {n} h = elim (Bool-cases (x.state.pid == p)) [
    | inl here ↦ (0, x, ground arith, refl, (==_iff (x.state.pid) p).0 here)
    | inr there ↦
        let (m, y, e, g, q) = find_from-some (i + 1) p xs {n = n} (ground arith) in
        (suc m, y, omega arith, g, q)
  ]

  -- A process that is found nowhere has no slot, and what is found is its slot.
  pub find_slot-none :
      (p : ℕ) (slots : List (Slot F)) → find_slot p slots ≡ none → count_pid p slots ≡ 0
  unfolding find_slot
  find_slot-none p slots h = find_from-none 0 p slots h

  pub find_slot-some :
      (p : ℕ) (slots : List (Slot F)) {i : ℕ}
      → find_slot p slots ≡ some i
      → (x : Slot F) × (get_elem? slots i ≡ some x) × (x.state.pid ≡ p)
  unfolding find_slot
  find_slot-some p slots {i} h =
      let (m, x, e, g, q) = find_from-some 0 p slots h in
      let at : i ≡ m = omega arith in (x, ap (get_elem? slots) at ∙ g, q)

  pub swap_out-IsTable :
      (i : ℕ) (slots : List (Slot F)) {x : Slot F}
      → get_elem? slots i ≡ some x
      → IsTable slots
      → IsTable (swap_out i slots)
  swap_out-IsTable i slots hx t = record {
    distinct = λ p. omega (arith, sum_of-swap_out (is_of p) i slots hx, t.distinct p);
    within =
        let one : Slot F → ℕ = λ _. 1 in
        omega (
          arith,
          sum_of-swap_out one i slots hx,
          sum_of_ones (swap_out i slots),
          sum_of_ones slots,
          t.within,
        );
  }

  append_distinct :
      (p : ℕ) (slots : List (Slot F)) (x : Slot F)
      → count_pid x.state.pid slots ≡ 0
      → count_pid p slots ≤ 1
      → count_pid p (slots ++ x ∷ []) ≤ 1
  append_distinct p slots x new h = elim (Bool-cases (x.state.pid == p)) [
    | inl same ↦
        let none_yet : count_pid p slots ≡ 0 =
          ap (λ q. count_pid q slots) (sym ((==_iff x.state.pid p).0 same)) ∙ new in
        ground (arith, sum_of-append (is_of p) slots (x ∷ []))
    | inr other ↦ ground (arith, sum_of-append (is_of p) slots (x ∷ []))
  ]

  pub append-IsTable :
      (slots : List (Slot F)) (x : Slot F)
      → length slots < max_pids
      → count_pid x.state.pid slots ≡ 0
      → IsTable slots
      → IsTable (slots ++ x ∷ [])
  append-IsTable slots x room new t = record {
    distinct = λ p. append_distinct p slots x new (t.distinct p);
    within = omega (arith, length-append slots (x ∷ []));
  }

module _ (b : BpfMaps) (k : Kernel) (sys : System b k) (d : Double) (et : EbpfTracer) where
  open k use {State}
  open d use {F}

  -- add_pid leaves the table as it was and returns -1, or puts a slot of the process, marked active,
  -- behind the others and returns its index.
  pub data Added (pid : ℕ) (slots : List (Slot F)) : Option ℕ × List (Slot F) → Type 0 where
    refused : Added pid slots (none, slots)
    added :
        (x : Slot F)
        → x.state.pid ≡ pid
        → x.state.active ≡ 1
        → length slots < max_pids
        → Added pid slots (some (length slots), slots ++ x ∷ [])

  counters_opened-Added :
      (pid : ℕ) (slots : List (Slot F)) (r : OpenResult State)
      → length slots < max_pids
      → Added pid slots (counters_opened b k sys d et pid slots r).0
  unfolding counters_opened fill_slot
  counters_opened-Added pid slots r h = elim (Bool-cases (eq_ℤ r.ret (pos 0))) [
    | inl ok ↦ rw ok (added _ refl refl h)
    | inr failed ↦ rw failed refused
  ]

  pub add_pid-Added :
      (pid : ℕ) (slots : List (Slot F)) (s : State)
      → Added pid slots (add_pid b k sys d et pid slots s).0
  unfolding add_pid
  add_pid-Added pid slots s = elim (Bool-cases (leb max_pids (length slots))) [
    | inl full ↦ rw full refused
    | inr room ↦
        rw room
          (counters_opened-Added pid slots (perf_counter_open k pid (negsuc 0) s) (ground arith))
  ]

  Added-IsTable :
      {pid : ℕ} {slots : List (Slot F)} {r : Option ℕ × List (Slot F)}
      → Added pid slots r
      → count_pid pid slots ≡ 0
      → IsTable slots
      → IsTable r.1
  Added-IsTable refused new t = t
  Added-IsTable {slots = slots} (added x p a room) new t =
      append-IsTable slots x room (ap (λ q. count_pid q slots) p ∙ new) t

  -- A process is added to a valid table that has no slot of it.
  pub add_pid-IsTable :
      (pid : ℕ) (slots : List (Slot F)) (s : State)
      → count_pid pid slots ≡ 0
      → IsTable slots
      → IsTable (add_pid b k sys d et pid slots s).0.1
  add_pid-IsTable pid slots s new t = Added-IsTable (add_pid-Added pid slots s) new t

  pub remove_slot_lem :
      (i : ℕ) (slots : List (Slot F)) (s : State) {x : Slot F}
      → get_elem? slots i ≡ some x
      → (remove_slot b k sys et i slots s).0 ≡ swap_out i slots
  unfolding remove_slot remove_found
  remove_slot_lem i slots s {x} h = ap (λ o. (remove_found b k sys et i slots o s).0) h

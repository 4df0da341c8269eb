-- ===== src/Daemon/Ticks/Fresh.antt =====
-- The fast path and the deadline of a tick (src/schedmon.c: run_sampling_loop).
use capstone_monitor.Prelude.{
  ℕ, ◌+◌, ◌*◌, ◌%◌, ◌≤◌, ◌<◌, ◌≡◌, ◌∙◌, ap, sym, refl, List, [], ◌∷◌, ◌++◌, map, filter, Bool, ◌&&◌,
  ◌^◌, append-nil, append_assoc, length-append, arith, length, leb, Bool-cases, inl, inr,
}
use capstone_monitor.Metrics.{SmoothedMetrics}
use capstone_monitor.Ring.{RingBuffer, rb_capacity, rb_push}
use capstone_monitor.Ring.Valid.{IsValid, push-IsValid}
use capstone_monitor.Ring.Queue.{contents, queue_push, push_refines}
use capstone_monitor.Daemon.{Slot}
use capstone_monitor.Daemon.Sync.{Timespec, to_ns}
use capstone_monitor.Daemon.Ticks.{
  Push, to_rb, to_rb_dash, stamp, is_fresh, fast_slot, fast_path, deadline,
}

-- A wake-up time is a proper time, the interval after the start of the tick.
pub deadline_lem :
    (interval_ms : ℕ) (t : Timespec)
    → t.tv_nsec < 1000000000
    → ((deadline interval_ms t).tv_nsec < 1000000000)
      × (to_ns (deadline interval_ms t) ≡ to_ns t + interval_ms * 1000000)
unfolding deadline
deadline_lem interval_ms t h =
    elim (Bool-cases (leb 1000000000 (t.tv_nsec + (interval_ms * 1000000) % 1000000000))) [
      | inl over ↦ rw over (ground arith)
      | inr within ↦ rw within (ground arith)
    ]

-- The two ring buffers, g_rb and g_rb_dash.
pub record Rings (F : Type 0) : Type 0 where
  pub rb : RingBuffer F
  pub dash : RingBuffer F

module _ {F : Type 0} where
  -- Calls of rb_push in their order; a full buffer drops the entry.
  unfoldable pub push_sent : Rings F → List (Push F) → Rings F
  push_sent rings [] = rings
  push_sent rings (to_rb m ∷ sent) = push_sent (record rings { rb = (rb_push rings.rb m).1 }) sent
  push_sent rings (to_rb_dash m ∷ sent) =
      push_sent (record rings { dash = (rb_push rings.dash m).1 }) sent

  -- The slots whose last active sample is at most a second old.
  abbrev pub is_recent : (now_ns : ℕ) → Slot F → Bool
  is_recent now_ns x = x.last_sm_valid && leb now_ns (x.last_sm_updated_ns + 1000000000)

  abbrev pub recent_entries : (now_ns : ℕ) → List (Slot F) → List (SmoothedMetrics F)
  recent_entries now_ns slots = map (λ x. stamp now_ns x.last_sm) (filter (is_recent now_ns) slots)

  -- Every update lies in the past.
  abbrev pub Past : (now_ns : ℕ) → List (Slot F) → Type 0
  Past now_ns [] = Unit {0}
  Past now_ns (x ∷ xs) = (x.last_sm_updated_ns ≤ now_ns) × Past now_ns xs

  is_fresh_lem :
      (now_ns : ℕ) (x : Slot F)
      → now_ns < 2 ^ 64
      → x.last_sm_updated_ns ≤ now_ns
      → is_fresh now_ns x ≡ is_recent now_ns x
  unfolding is_fresh
  is_fresh_lem now_ns x w past = ground arith

  fast_path_sends :
      (now_ns : ℕ) (slots : List (Slot F))
      → now_ns < 2 ^ 64
      → Past now_ns slots
      → (fast_path now_ns slots).1 ≡ map to_rb (recent_entries now_ns slots)
  unfolding fast_path fast_slot
  fast_path_sends now_ns [] w past = refl
  fast_path_sends now_ns (x ∷ xs) w (at, past) =
      let rest = fast_path_sends now_ns xs w past in
      let same = is_fresh_lem now_ns x w at in
      elim (Bool-cases (is_recent now_ns x)) [
        | inl on ↦ rw (same ∙ on, on) (ap (λ q. to_rb (stamp now_ns x.last_sm) ∷ q) rest)
        | inr off ↦ rw (same ∙ off, off) rest
      ]

  push_fits :
      {rb : RingBuffer F} (m : SmoothedMetrics F)
      → IsValid rb
      → length (contents rb) + 1 < rb_capacity
      → contents (rb_push rb m).1 ≡ contents rb ++ m ∷ []
  unfolding queue_push
  push_fits {rb} m v room = ground (arith, push_refines m v)

  push_sent_fits :
      (rings : Rings F) (ms : List (SmoothedMetrics F))
      → IsValid rings.rb
      → length (contents rings.rb) + length ms < rb_capacity
      → let after = push_sent rings (map to_rb ms) in
        IsValid after.rb × (contents after.rb ≡ contents rings.rb ++ ms) × (after.dash ≡ rings.dash)
  unfolding push_sent
  push_sent_fits rings [] v room = (v, sym (append-nil (contents rings.rb)), refl)
  push_sent_fits rings (m ∷ ms) v room =
      let rings' : Rings F = record rings { rb = (rb_push rings.rb m).1 } in
      let pushed = push_fits m v (omega (arith, room)) in
      let longer = ap length pushed ∙ length-append (contents rings.rb) (m ∷ []) in
      let (v', c, same) =
        push_sent_fits rings' ms (push-IsValid m v) (omega (arith, room, longer)) in
      (v', c ∙ ap (λ q. q ++ ms) pushed ∙ append_assoc (contents rings.rb) (m ∷ []) ms, same)

  -- The fast path gives the readers of g_rb the last entry of each process that was active within
  -- the last second, stamped anew, in the order of the slots, and no other; g_rb_dash gets nothing.
  -- It holds for a valid g_rb with room for these entries, a time below 2 ^ 64 ns, and slots that
  -- were updated in the past.
  pub fast_path_feeds :
      (now_ns : ℕ) (slots : List (Slot F)) (rings : Rings F)
      → now_ns < 2 ^ 64
      → Past now_ns slots
      → IsValid rings.rb
      → length (contents rings.rb) + length (recent_entries now_ns slots) < rb_capacity
      → let after = push_sent rings (fast_path now_ns slots).1 in
        IsValid after.rb
        × (contents after.rb ≡ contents rings.rb ++ recent_entries now_ns slots)
        × (after.dash ≡ rings.dash)
  fast_path_feeds now_ns slots rings w past v room =
      rw (fast_path_sends now_ns slots w past)
        (push_sent_fits rings (recent_entries now_ns slots) v room)

-- ===== src/Daemon/Sync/Tracked.antt =====
-- The loop of sync_pids that finds or adds the slot of each listed process (src/schedmon.c: sync_pids).
use capstone_monitor.Prelude.{
  ℕ, ◌≡◌, ◌≢◌, ◌∙◌, ◌⊎◌, ap, sym, refl, List, [], ◌∷◌, ◌++◌, Option, none, some, arith, length, set,
  get_elem?, Bool-cases, inl, inr, ◌==◌, ==_iff,
}
use capstone_monitor.Prelude.Indexed.{
  get-set_self, get-set-ne, get-append_left, get-append_last, get-append_cases, get-le-sum_of,
}
use capstone_monitor.Double.{Double}
use capstone_monitor.BpfMap.{BpfMaps}
use capstone_monitor.Perf.{Kernel}
use capstone_monitor.Tracer.{EbpfTracer}
use capstone_monitor.Daemon.{Slot, System}
use capstone_monitor.Daemon.Slots.{find_slot}
use capstone_monitor.Daemon.Slots.Table.{sum_of-swap_out, swap_out_keeps}
use capstone_monitor.Daemon.Slots.Members.{In, get_set_cases}
use capstone_monitor.Daemon.Slots.Valid.{
  IsTable, is_of, count_pid, find_slot-none, find_slot-some, Added, added, refused, add_pid-Added,
}
use capstone_monitor.Daemon.Sync.{mark, mark_at, set_active, mark_added, track_found, track_all}
use capstone_monitor.Daemon.Sync.Loops.{track_found_keeps}
use capstone_monitor.Daemon.Sync.Ownership.{IsTable-Kept}

-- The number is on the list.
abbrev pub Listed : ℕ → List ℕ → Type 0
Listed p [] = ⊥
Listed p (q ∷ qs) = (p ≡ q) ⊎ Listed p qs

module _ {F : Type 0} where
  abbrev pid_of : Slot F → ℕ
  pid_of x = x.state.pid

  -- Two slots of one process are the same slot.
  only_slot :
      (p i j : ℕ) (slots : List (Slot F)) {x y : Slot F}
      → IsTable slots
      → get_elem? slots i ≡ some x
      → get_elem? slots j ≡ some y
      → x.state.pid ≡ p
      → y.state.pid ≡ p
      → i ≡ j
  only_slot p i j slots {x} {y} t hx hy px py = elim (Bool-cases (i == j)) [
    | inl same ↦ (==_iff i j).0 same
    | inr other ↦
        let (m, kept) = swap_out_keeps i j slots hx hy (ground arith) in
        let one : is_of p x ≡ 1 = ground arith in
        let more : is_of p y ≡ 1 = ground arith in
        absurd (
          omega (
            arith,
            t.distinct p,
            sum_of-swap_out (is_of p) i slots hx,
            get-le-sum_of (is_of p) m _ kept,
          ))
  ]

  pub set_active_lem :
      (i : ℕ) (slots : List (Slot F)) {x : Slot F}
      → get_elem? slots i ≡ some x
      → set_active 1 i slots ≡ set slots i (mark 1 x)
  unfolding set_active
  set_active_lem i slots h = ap (mark_at 1 i slots) h

  -- Who is marked in a table after a mark at `i`.
  pub set_active_cases :
      (i : ℕ) (slots : List (Slot F)) {x y : Slot F}
      → get_elem? slots i ≡ some x
      → In y (set_active 1 i slots)
      → In y slots ⊎ (y ≡ mark 1 x)
  set_active_cases i slots {x} h (m, hy) =
      elim (get_set_cases i m slots (mark 1 x) h (rw (set_active_lem i slots h) at hy)) [
        | inl e ↦ inl (m, e)
        | inr e ↦ inr e
      ]

  set_active_other :
      (i : ℕ) (slots : List (Slot F)) {x y : Slot F}
      → get_elem? slots i ≡ some x
      → x.state.pid ≢ y.state.pid
      → In y slots
      → In y (set_active 1 i slots)
  set_active_other i slots {x} {y} h ne (m, hy) =
      let apart : i ≢ m = λ e. let it : x ≡ y = cc (h, hy, e) in ne (ap pid_of it) in
      (m, rw (set_active_lem i slots h) (get-set-ne i m slots (mark 1 x) apart ∙ hy))

module _ (b : BpfMaps) (k : Kernel) (sys : System b k) (d : Double) (et : EbpfTracer) where
  open k use {State}
  open d use {F}

  -- What the body of the loop for `p` makes of the table.
  record Tracks (p : ℕ) (slots slots' : List (Slot F)) : Type 0 where
    from : (y : Slot F) → In y slots' → (y.state.pid ≡ p) ⊎ In y slots
    other : (y : Slot F) → y.state.pid ≢ p → In y slots → In y slots'
    same : (y : Slot F) → y.state.pid ≡ p → In y slots → In (mark 1 y) slots'

  marked-Tracks :
      (p i : ℕ) (slots : List (Slot F)) (x : Slot F)
      → IsTable slots
      → get_elem? slots i ≡ some x
      → x.state.pid ≡ p
      → Tracks p slots (set_active 1 i slots)
  marked-Tracks p i slots x t h px = record {
    from = λ y e. elim (set_active_cases i slots h e) [
      | inl old ↦ inr old
      | inr new ↦ inl (ap pid_of new ∙ px)
    ];
    other = λ y ne e. set_active_other i slots h (λ q. ne (sym q ∙ px)) e;
    same = λ y py (m, hy).
        let at : i ≡ m = only_slot p i m slots t h hy px py in
        let slot : x ≡ y = cc (h, hy, at) in
        (
          i,
          ap (λ q. get_elem? q i) (set_active_lem i slots h)
              ∙ get-set_self i slots (mark 1 x) h
              ∙ ap (λ q. some (mark 1 q)) slot,
        );
  }

  no_slot :
      (p : ℕ) (slots : List (Slot F)) (y : Slot F)
      → count_pid p slots ≡ 0
      → y.state.pid ≡ p
      → In y slots
      → ⊥
  no_slot p slots y new py (m, h) =
      let one : is_of p y ≡ 1 = ground arith in omega (arith, get-le-sum_of (is_of p) m slots h)

  Added-Tracks :
      (p : ℕ) (slots : List (Slot F)) {r : Option ℕ × List (Slot F)}
      → count_pid p slots ≡ 0
      → Added b k sys d et p slots r
      → Tracks p slots (mark_added r.0 r.1)
  unfolding mark_added
  Added-Tracks p slots new refused = record {
    from = λ y e. inr e;
    other = λ y ne e. e;
    same = λ y py e. absurd (no_slot p slots y new py e);
  }
  Added-Tracks p slots new (added x px a room) =
      let last = get-append_last slots x in
      record {
        from = λ y e. elim (set_active_cases (length slots) (slots ++ x ∷ []) last e) [
          | inl (m, h) ↦ elim (get-append_cases m slots x h) [
            | inl old ↦ inr (m, old)
            | inr it ↦ inl (ap pid_of (sym it) ∙ px)
          ]
          | inr marked ↦ inl (ap pid_of marked ∙ px)
        ];
        other = λ y ne (m, h).
            set_active_other (length slots) (slots ++ x ∷ []) last (λ q. ne (sym q ∙ px))
              (m, get-append_left m slots (x ∷ []) h);
        same = λ y py e. absurd (no_slot p slots y new py e);
      }

  track_found-Tracks :
      (p : ℕ) (slots : List (Slot F)) (r : Option ℕ) (s : State)
      → IsTable slots
      → find_slot p slots ≡ r
      → Tracks p slots (track_found b k sys d et p slots r s).0
  unfolding track_found
  track_found-Tracks p slots none s t e =
      Added-Tracks p slots (find_slot-none p slots e) (add_pid-Added b k sys d et p slots s)
  track_found-Tracks p slots (some i) s t e =
      let (x, h, px) = find_slot-some p slots e in marked-Tracks p i slots x t h px

  unfoldable pub body : ℕ → List (Slot F) → State → List (Slot F) × State
  body p slots s = track_found b k sys d et p slots (find_slot p slots) s

  pub body-IsTable :
      (p : ℕ) (slots : List (Slot F)) (s : State) → IsTable slots → IsTable (body p slots s).0
  unfolding body
  body-IsTable p slots s t =
      track_found_keeps b k sys d et (λ slots s. IsTable slots) (IsTable-Kept b k sys d et) p slots
        _ s refl t

  -- Any slot after the loop is of a listed process, or is a slot from before.
  pub track_all_from :
      (top : List ℕ) (slots : List (Slot F)) (s : State) (y : Slot F)
      → IsTable slots
      → In y (track_all b k sys d et top slots s).0
      → Listed y.state.pid top ⊎ In y slots
  unfolding track_all body
  track_all_from [] slots s y t e = inr e
  track_all_from (p ∷ top) slots s y t e =
      let tracks = track_found-Tracks p slots (find_slot p slots) s t refl in
      elim (track_all_from top _ _ y (body-IsTable p slots s t) e) [
        | inl listed ↦ inl (inr listed)
        | inr there ↦ elim (tracks.from y there) [ inl it ↦ inl (inl it) | inr old ↦ inr old ]
      ]

  -- A slot stays in the loop, marked or not.
  pub track_all_stays :
      (top : List ℕ) (slots : List (Slot F)) (s : State) (y : Slot F)
      → IsTable slots
      → In y slots
      → In y (track_all b k sys d et top slots s).0
        ⊎ In (mark 1 y) (track_all b k sys d et top slots s).0
  unfolding track_all body
  track_all_stays [] slots s y t e = inl e
  track_all_stays (p ∷ top) slots s y t e =
      let tracks = track_found-Tracks p slots (find_slot p slots) s t refl in
      let t' = body-IsTable p slots s t in
      elim (Bool-cases (y.state.pid == p)) [
        | inl it ↦
            let e' = tracks.same y ((==_iff y.state.pid p).0 it) e in
            elim (track_all_stays top _ _ (mark 1 y) t' e') [ inl q ↦ inr q | inr q ↦ inr q ]
        | inr apart ↦ track_all_stays top _ _ y t' (tracks.other y (ground arith) e)
      ]

  -- The slot of a listed process is marked.
  pub track_all_marks :
      (top : List ℕ) (slots : List (Slot F)) (s : State) (y : Slot F)
      → IsTable slots
      → In y slots
      → Listed y.state.pid top
      → In (mark 1 y) (track_all b k sys d et top slots s).0
  unfolding track_all body
  track_all_marks [] slots s y t e l = absurd l
  track_all_marks (p ∷ top) slots s y t e l =
      let tracks = track_found-Tracks p slots (find_slot p slots) s t refl in
      let t' = body-IsTable p slots s t in
      elim (Bool-cases (y.state.pid == p)) [
        | inl it ↦
            let e' = tracks.same y ((==_iff y.state.pid p).0 it) e in
            elim (track_all_stays top _ _ (mark 1 y) t' e') [ inl q ↦ q | inr q ↦ q ]
        | inr apart ↦
            let ne : y.state.pid ≢ p = ground arith in
            elim l [
              | inl is ↦ absurd (ne is)
              | inr later ↦ track_all_marks top _ _ y t' (tracks.other y ne e) later
            ]
      ]

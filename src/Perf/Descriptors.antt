-- ===== src/Perf/Descriptors.antt =====
-- The descriptors that a counter opens and closes (src/perf_counter.c: perf_counter_open,
-- perf_counter_close).
use capstone_monitor.Prelude.{
  ℕ, ◌≡◌, ◌∙◌, ap, sym, Bool, true, false, not, ◌&&◌, ◌||◌, if◌then◌else◌, ◌==◌, arith, ==_iff,
}
use capstone_monitor.Prelude.Int.{ℤ, pos, negsuc}
use capstone_monitor.Perf.{
  Kernel, PerfEventAttr, PerfCounter, opened, refused, Errno, Request, disable, is_fd, close_fd,
  perf_counter_close,
}

-- Which descriptors the process has open, and what the system calls do to them: perf_event_open
-- hands out one that was not open, close ends the one that it is given, and ioctl leaves all alone.
pub record KernelLaws (k : Kernel) : Type 1 where
  pub is_open : k.State → ℕ → Bool
  pub open_takes :
      (attr : PerfEventAttr) (pid : ℕ) (cpu group_fd : ℤ) (s : k.State) {fd : ℕ} {s' : k.State}
      → k.perf_event_open attr pid cpu group_fd s ≡ (opened fd, s')
      → (is_open s fd ≡ false) × ((j : ℕ) → is_open s' j ≡ (if fd == j then true else is_open s j))
  pub refusal_keeps :
      (attr : PerfEventAttr) (pid : ℕ) (cpu group_fd : ℤ) (s : k.State) {e : Errno} {s' : k.State}
      → k.perf_event_open attr pid cpu group_fd s ≡ (refused e, s')
      → (j : ℕ) → is_open s' j ≡ is_open s j
  pub ioctl_keeps :
      (fd : ℤ) (r : Request) (group : Bool) (s : k.State) (j : ℕ)
      → is_open (k.ioctl fd r group s) j ≡ is_open s j
  pub ioctl_id_keeps : (fd : ℤ) (s : k.State) (j : ℕ) → is_open (k.ioctl_id fd s).1 j ≡ is_open s j
  pub close_ends :
      (fd : ℕ) (s : k.State) (j : ℕ)
      → is_open (k.close (pos fd) s) j ≡ (if fd == j then false else is_open s j)

-- Whether the descriptor `j` is in the field.
abbrev pub is_at : ℤ → ℕ → Bool
is_at (pos n) j = n == j
is_at (negsuc n) j = false

-- Whether the counter holds the descriptor `j`.
abbrev pub holds : PerfCounter → ℕ → Bool
holds pc j = is_at pc.fd_cycles j || (is_at pc.fd_instr j || is_at pc.fd_llc j)

not_or : (o a b c : Bool) → (((o && not a) && not b) && not c) ≡ (o && not (a || (b || c)))
not_or o a b c = ground arith

added :
    (s s' s₀ h h' t : Bool)
    → s' ≡ (if t then true else s)
    → (t ≡ true → s ≡ false)
    → (s ≡ (s₀ || h)) × ((s₀ && h) ≡ false)
    → h' ≡ (h || t)
    → (s' ≡ (s₀ || h')) × ((s₀ && h') ≡ false)
added s s' s₀ h h' t e fresh (o, n) e' = ground arith

pub taken_away : (s s₀ h : Bool) → (s ≡ (s₀ || h)) × ((s₀ && h) ≡ false) → (s && not h) ≡ s₀
taken_away s s₀ h (o, n) = ground arith

module _ (k : Kernel) (laws : KernelLaws k) where
  open k use {State}
  open laws use {is_open, open_takes, refusal_keeps, ioctl_keeps, ioctl_id_keeps, close_ends}

  -- Beside what was open in `s₀`, exactly the descriptors of the counter are open in `s`.
  abbrev pub Owns : State → PerfCounter → State → Type 0
  Owns s₀ pc s =
      (j : ℕ)
      → (is_open s j ≡ (is_open s₀ j || holds pc j)) × ((is_open s₀ j && holds pc j) ≡ false)

  pub close_fd_lem :
      (fd : ℤ) (s : State) (j : ℕ) → is_open (close_fd k fd s) j ≡ (is_open s j && not (is_at fd j))
  unfolding close_fd
  close_fd_lem (pos fd) s j = ground (arith, close_ends fd s j)
  close_fd_lem (negsuc n) s j = ground arith

  disable_keeps :
      (pc : PerfCounter) (s : State) (j : ℕ)
      → is_open (if is_fd pc.fd_cycles then k.ioctl pc.fd_cycles disable pc.hw_available s else s) j
        ≡ is_open s j
  disable_keeps pc s j = ground (arith, ioctl_keeps pc.fd_cycles disable pc.hw_available s j)

  -- perf_counter_close closes the descriptors of the counter and no other.
  pub close_ends_held :
      (pc : PerfCounter) (s : State) (j : ℕ)
      → is_open (perf_counter_close k pc s).1 j ≡ (is_open s j && not (holds pc j))
  unfolding perf_counter_close
  close_ends_held pc s j =
      let s₁ = if is_fd pc.fd_cycles then k.ioctl pc.fd_cycles disable pc.hw_available s else s in
      let s₂ = close_fd k pc.fd_cycles s₁ in
      let s₃ = close_fd k pc.fd_instr s₂ in
      let d = disable_keeps pc s j in
      let c₁ = close_fd_lem pc.fd_cycles s₁ j in
      let c₂ = close_fd_lem pc.fd_instr s₂ j in
      let c₃ = close_fd_lem pc.fd_llc s₃ j in
      c₃
      ∙ ap (λ x. x && not (is_at pc.fd_llc j))
          (c₂
            ∙ ap (λ x. x && not (is_at pc.fd_instr j))
                (c₁ ∙ ap (λ x. x && not (is_at pc.fd_cycles j)) d))
      ∙ not_or (is_open s j) (is_at pc.fd_cycles j) (is_at pc.fd_instr j) (is_at pc.fd_llc j)

  -- The next descriptor is none that the counter holds.
  pub opened-Owns :
      (s₀ : State) {s s' : State} (pc pc' : PerfCounter) {fd : ℕ}
      → Owns s₀ pc s
      → (is_open s fd ≡ false) × ((j : ℕ) → is_open s' j ≡ (if fd == j then true else is_open s j))
      → ((j : ℕ) → holds pc' j ≡ (holds pc j || fd == j))
      → Owns s₀ pc' s'
  opened-Owns s₀ {s} {s'} pc pc' {fd} o (fresh, opens) h j =
      let same : (fd == j) ≡ true → is_open s j ≡ false =
        λ e. ap (is_open s) (sym ((==_iff fd j).0 e)) ∙ fresh in
      added (is_open s j) (is_open s' j) (is_open s₀ j) (holds pc j) (holds pc' j) (fd == j)
        (opens j) same (o j) (h j)

  pub kept-Owns :
      (s₀ : State) {s s' : State} (pc : PerfCounter)
      → Owns s₀ pc s
      → ((j : ℕ) → is_open s' j ≡ is_open s j)
      → Owns s₀ pc s'
  kept-Owns s₀ pc o h j = let (e, n) = o j in (h j ∙ e, n)

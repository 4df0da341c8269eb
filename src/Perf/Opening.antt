-- ===== src/Perf/Opening.antt =====
-- What perf_counter_open leaves open (src/perf_counter.c).
use capstone_monitor.Prelude.{ℕ, ◌≡◌, ◌≢◌, ◌∙◌, refl, ap, true, false, ◌||◌, ◌&&◌, ◌==◌, arith}
use capstone_monitor.Prelude.Int.{ℤ, pos, negsuc}
use capstone_monitor.Perf.{
  Kernel, PerfCounter, Opened, opened, refused, Errno, emfile, enfile, other, reset, enable,
  hardware, software, cpu_cycles, instructions, cache_misses, cpu_clock, closed_counter, OpenResult,
  open_counter, perf_counter_close, give_up, start_group, llc_opened, instr_opened, software_opened,
  out_of_descriptors, fall_back, cycles_opened, perf_counter_open,
}
use capstone_monitor.Perf.Descriptors.{
  KernelLaws, is_at, holds, Owns, opened-Owns, kept-Owns, close_ends_held, taken_away,
}

module _ (k : Kernel) (laws : KernelLaws k) where
  open k use {State}
  open laws use {is_open, open_takes, refusal_keeps, ioctl_keeps, ioctl_id_keeps}

  -- The outcome owns what is open beside `s₀`, and that is nothing when the return value is not 0.
  abbrev pub Opens : State → OpenResult State → Type 0
  Opens s₀ r =
      Owns k laws s₀ r.counter r.kernel × (r.ret ≢ pos 0 → (j : ℕ) → holds r.counter j ≡ false)

  give_up-Opens :
      (s₀ : State) {s : State} (pc : PerfCounter) → Owns k laws s₀ pc s → Opens s₀ (give_up k pc s)
  unfolding give_up perf_counter_close
  give_up-Opens s₀ {s} pc o = (owns, λ h j. refl)
    where
      owns : Owns k laws s₀ closed_counter (perf_counter_close k pc s).1
      owns j =
          let e =
            close_ends_held k laws pc s j
            ∙ taken_away (is_open s j) (is_open s₀ j) (holds pc j) (o j) in
          ground arith

  start_group-Opens :
      (s₀ : State) {s : State} (pc : PerfCounter)
      → Owns k laws s₀ pc s
      → Opens s₀ (start_group k pc s)
  unfolding start_group
  start_group-Opens s₀ {s} pc o =
      let s₁ = (k.ioctl_id pc.fd_cycles s).1 in
      let s₂ = (k.ioctl_id pc.fd_instr s₁).1 in
      let s₃ = (k.ioctl_id pc.fd_llc s₂).1 in
      let s₄ = k.ioctl pc.fd_cycles reset true s₃ in
      let kept : (j : ℕ) → is_open (k.ioctl pc.fd_cycles enable true s₄) j ≡ is_open s j = λ j.
        ioctl_keeps pc.fd_cycles enable true s₄ j
        ∙ ioctl_keeps pc.fd_cycles reset true s₃ j
        ∙ ioctl_id_keeps pc.fd_llc s₂ j
        ∙ ioctl_id_keeps pc.fd_instr s₁ j
        ∙ ioctl_id_keeps pc.fd_cycles s j in
      (kept-Owns k laws s₀ pc o kept, λ h. absurd (h refl))

  llc_opened-Opens :
      (s₀ : State) {s : State} (pc : PerfCounter)
      → pc.fd_llc ≡ negsuc 0
      → Owns k laws s₀ pc s
      → (r : Opened × State)
      → open_counter k hardware cache_misses pc.pid pc.cpu_id pc.fd_cycles false s ≡ r
      → Opens s₀ (llc_opened k pc r)
  unfolding llc_opened open_counter
  llc_opened-Opens s₀ {s} pc l o (refused e, s') eq =
      give_up-Opens s₀ pc (kept-Owns k laws s₀ pc o (refusal_keeps _ _ _ _ s eq))
  llc_opened-Opens s₀ {s} pc l o (opened fd, s') eq =
      let pc' = record pc { fd_llc = pos fd } in
      let more : (j : ℕ) → holds pc' j ≡ (holds pc j || fd == j) =
        λ j. let e = ap (λ x. is_at x j) l in ground arith in
      start_group-Opens s₀ pc' (opened-Owns k laws s₀ pc pc' o (open_takes _ _ _ _ s eq) more)

  instr_opened-Opens :
      (s₀ : State) {s : State} (pc : PerfCounter)
      → pc.fd_instr ≡ negsuc 0
      → pc.fd_llc ≡ negsuc 0
      → Owns k laws s₀ pc s
      → (r : Opened × State)
      → open_counter k hardware instructions pc.pid pc.cpu_id pc.fd_cycles false s ≡ r
      → Opens s₀ (instr_opened k pc r)
  unfolding instr_opened open_counter
  instr_opened-Opens s₀ {s} pc i l o (refused e, s') eq =
      give_up-Opens s₀ pc (kept-Owns k laws s₀ pc o (refusal_keeps _ _ _ _ s eq))
  instr_opened-Opens s₀ {s} pc i l o (opened fd, s') eq =
      let pc' = record pc { fd_instr = pos fd } in
      let more : (j : ℕ) → holds pc' j ≡ (holds pc j || fd == j) =
        λ j. let e = ap (λ x. is_at x j) i in ground arith in
      llc_opened-Opens s₀ pc' l (opened-Owns k laws s₀ pc pc' o (open_takes _ _ _ _ s eq) more) _
        refl

  software_opened-Opens :
      (s₀ : State) {s : State} (pc : PerfCounter)
      → ((j : ℕ) → holds pc j ≡ false)
      → (pc.fd_instr ≡ negsuc 0) × (pc.fd_llc ≡ negsuc 0)
      → Owns k laws s₀ pc s
      → (r : Opened × State)
      → open_counter k software cpu_clock pc.pid pc.cpu_id (negsuc 0) false s ≡ r
      → Opens s₀ (software_opened k pc r)
  unfolding software_opened open_counter
  software_opened-Opens s₀ {s} pc h f o (refused e, s') eq =
      (kept-Owns k laws s₀ pc o (refusal_keeps _ _ _ _ s eq), λ n. h)
  software_opened-Opens s₀ {s} pc h (i, l) o (opened fd, s') eq =
      let pc' = record pc { fd_cycles = pos fd } in
      let more : (j : ℕ) → holds pc' j ≡ (holds pc j || fd == j) = λ j.
        let e = h j in
        let e₁ = ap (λ x. is_at x j) i in let e₂ = ap (λ x. is_at x j) l in ground arith in
      let kept : (j : ℕ)
          → is_open (k.ioctl (pos fd) enable false (k.ioctl (pos fd) reset false s')) j
            ≡ is_open s' j =
        λ j. ioctl_keeps (pos fd) enable false _ j ∙ ioctl_keeps (pos fd) reset false s' j in
      let o' = opened-Owns k laws s₀ pc pc' o (open_takes _ _ _ _ s eq) more in
      (kept-Owns k laws s₀ pc' o' kept, λ n. absurd (n refl))

  fall_back-Opens :
      (s₀ : State) {s : State} (pc : PerfCounter)
      → ((j : ℕ) → holds pc j ≡ false)
      → (pc.fd_instr ≡ negsuc 0) × (pc.fd_llc ≡ negsuc 0)
      → Owns k laws s₀ pc s
      → (e : Errno) → Opens s₀ (fall_back k pc e s)
  unfolding fall_back out_of_descriptors
  fall_back-Opens s₀ pc h f o emfile = (o, λ n. h)
  fall_back-Opens s₀ pc h f o enfile = (o, λ n. h)
  fall_back-Opens s₀ pc h f o (other e) =
      software_opened-Opens s₀ (record pc { hw_available = false }) h f o _ refl

  nothing_held :
      (s : State) (pc : PerfCounter) → ((j : ℕ) → holds pc j ≡ false) → Owns k laws s pc s
  nothing_held s pc h j = let e = h j in ground arith

  cycles_opened-Opens :
      (pid : ℕ) (cpu_id : ℤ) (s : State) (r : Opened × State)
      → open_counter k hardware cpu_cycles pid cpu_id (negsuc 0) true s ≡ r
      → Opens s (
          cycles_opened k
            (record closed_counter { pid = pid; cpu_id = cpu_id; hw_available = true })
            r)
  unfolding cycles_opened open_counter
  cycles_opened-Opens pid cpu_id s (refused e, s') eq =
      let pc = record closed_counter { pid = pid; cpu_id = cpu_id; hw_available = true } in
      let o = kept-Owns k laws s pc (nothing_held s pc (λ j. refl)) (refusal_keeps _ _ _ _ s eq) in
      fall_back-Opens s pc (λ j. refl) (refl, refl) o e
  cycles_opened-Opens pid cpu_id s (opened fd, s') eq =
      let pc = record closed_counter { pid = pid; cpu_id = cpu_id; hw_available = true } in
      let pc' = record pc { fd_cycles = pos fd } in
      let more : (j : ℕ) → holds pc' j ≡ (holds pc j || fd == j) = λ j. ground arith in
      let o = nothing_held s pc (λ j. refl) in
      instr_opened-Opens s pc' refl refl
        (opened-Owns k laws s pc pc' o (open_takes _ _ _ _ s eq) more) _ refl

  open-Opens : (pid : ℕ) (cpu_id : ℤ) (s : State) → Opens s (perf_counter_open k pid cpu_id s)
  unfolding perf_counter_open
  open-Opens pid cpu_id s = cycles_opened-Opens pid cpu_id s _ refl

  -- Whatever the kernel answers, a descriptor is open after perf_counter_open exactly when it was open
  -- before or the counter holds it, and the counter holds none that was open before.
  pub open_owns :
      (pid : ℕ) (cpu_id : ℤ) (s : State) (j : ℕ)
      → (is_open (perf_counter_open k pid cpu_id s).kernel j
          ≡ (is_open s j || holds (perf_counter_open k pid cpu_id s).counter j))
        × ((is_open s j && holds (perf_counter_open k pid cpu_id s).counter j) ≡ false)
  open_owns pid cpu_id s = let (o, _) = open-Opens pid cpu_id s in o

  -- When perf_counter_open does not return 0, at whichever of its calls it gave up, exactly the
  -- descriptors are open that were open before.
  pub failed_open_leaks_nothing :
      (pid : ℕ) (cpu_id : ℤ) (s : State)
      → (perf_counter_open k pid cpu_id s).ret ≢ pos 0
      → (j : ℕ) → is_open (perf_counter_open k pid cpu_id s).kernel j ≡ is_open s j
  failed_open_leaks_nothing pid cpu_id s h j =
      let (o, f) = open-Opens pid cpu_id s in let (e, _) = o j in let n = f h j in ground arith

  -- perf_counter_close after perf_counter_open, whether that succeeded or not, brings back exactly
  -- the descriptors that were open before.
  pub close-open :
      (pid : ℕ) (cpu_id : ℤ) (s : State) (j : ℕ)
      → is_open
          (perf_counter_close k
            (perf_counter_open k pid cpu_id s).counter
            (perf_counter_open k pid cpu_id s).kernel).1
          j
        ≡ is_open s j
  close-open pid cpu_id s j =
      let r = perf_counter_open k pid cpu_id s in
      let (o, _) = open-Opens pid cpu_id s in
      close_ends_held k laws r.counter r.kernel j
      ∙ taken_away (is_open r.kernel j) (is_open s j) (holds r.counter j) (o j)

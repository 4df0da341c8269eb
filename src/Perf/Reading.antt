-- ===== src/Perf/Reading.antt =====
-- Reading the counters of a process (src/perf_counter.c: perf_counter_read).
use capstone_monitor.Prelude.{
  ℕ, zero, suc, ◌*◌, List, [], ◌∷◌, ◌++◌, Option, none, some, if◌then◌else◌, ◌==◌, ltb, length,
  drop, take,
}
use capstone_monitor.Perf.{Kernel, PerfCounter, RawCounters}

-- The pairs of `struct read_format`: the value and the id of a counter.
abbrev pub pairs_of : List ℕ → List (ℕ × ℕ)
pairs_of (value ∷ id ∷ words) = (value, id) ∷ pairs_of words
pairs_of _ = []

-- One round of the loop over the values.
unfoldable pub assign : PerfCounter → ℕ × ℕ → RawCounters → RawCounters
assign pc (value, id) out =
    if id == pc.id_cycles
    then record out { cycles = value }
    else if id == pc.id_instr
    then record out { instr = value }
    else if id == pc.id_llc
    then record out { llc_misses = value }
    else out

-- `for (i = 0; i < nr && i < 3; i++)`, on the three elements of the array.
unfoldable pub assign_all : PerfCounter → (nr : ℕ) → List (ℕ × ℕ) → RawCounters → RawCounters
unfolding assign
assign_all pc zero vs out = out
assign_all pc (suc nr) [] out = out
assign_all pc (suc nr) (v ∷ vs) out = assign_all pc nr vs (assign pc v out)

abbrev pub no_counters : RawCounters
no_counters = record { cycles = 0; instr = 0; llc_misses = 0 }

-- `buf` after the read: the words of the read, then what the stack had there.
unfoldable pub read_group : PerfCounter → List ℕ → Option RawCounters
unfolding assign_all
read_group pc [] = none
read_group pc (nr ∷ words) = some (assign_all pc nr (take 3 (pairs_of words)) no_counters)

unfoldable pub group_read : PerfCounter → (stack : List ℕ) → Option (List ℕ) → Option RawCounters
unfolding read_group
group_read pc stack none = none
group_read pc stack (some words) =
    if ltb (8 * length words) 8 then none else read_group pc (words ++ drop (length words) stack)

unfoldable pub software_read : Option (List ℕ) → Option RawCounters
software_read none = none
software_read (some []) = none
software_read (some (value ∷ [])) = some (record no_counters { cycles = value })
software_read (some (value ∷ more ∷ words)) = none

module _ (k : Kernel) where
  open k use {State, read}

  -- `none` is the return of -1. `stack` is what the seven words of `buf` hold before the read.
  unfoldable pub perf_counter_read :
      PerfCounter → (stack : List ℕ) → State → Option RawCounters × State
  unfolding group_read software_read
  perf_counter_read pc stack s =
      if pc.hw_available
      then (let (r, s') = read pc.fd_cycles 56 s in (group_read pc stack r, s'))
      else (let (r, s') = read pc.fd_cycles 8 s in (software_read r, s'))

-- ===== src/Perf/Values.antt =====
-- What perf_counter_read makes of a group read (src/perf_counter.c).
use capstone_monitor.Prelude.{
  ℕ, zero, suc, ◌*◌, ◌≡◌, ◌≢◌, ◌∙◌, ap, List, [], ◌∷◌, ◌++◌, true, some, if◌then◌else◌, ◌==◌, arith,
  length, take, drop, refl, ltb, false,
}
use capstone_monitor.Perf.{Kernel, PerfCounter, RawCounters}
use capstone_monitor.Perf.Reading.{
  pairs_of, assign, assign_all, no_counters, read_group, group_read, perf_counter_read,
}

-- The value that a list of pairs of a value and an id has under an id: the last one, and `old` when
-- there is none.
abbrev pub value_of : (id : ℕ) → List (ℕ × ℕ) → (old : ℕ) → ℕ
value_of id [] old = old
value_of id ((value, i) ∷ vs) old = value_of id vs (if i == id then value else old)

abbrev pub values_of : PerfCounter → List (ℕ × ℕ) → RawCounters → RawCounters
values_of pc vs out = record {
  cycles = value_of pc.id_cycles vs out.cycles;
  instr = value_of pc.id_instr vs out.instr;
  llc_misses = value_of pc.id_llc vs out.llc_misses;
}

abbrev pub IdsDistinct : PerfCounter → Type 0
IdsDistinct pc =
    (pc.id_cycles ≢ pc.id_instr) × ((pc.id_cycles ≢ pc.id_llc) × (pc.id_instr ≢ pc.id_llc))

assign_values :
    (pc : PerfCounter) (v : ℕ × ℕ) (out : RawCounters)
    → IdsDistinct pc
    → assign pc v out ≡ values_of pc (v ∷ []) out
unfolding assign
assign_values pc (v, i) out (a, (b, c)) = ground arith

assign_all_values :
    (pc : PerfCounter) (nr : ℕ) (vs : List (ℕ × ℕ)) (out : RawCounters)
    → IdsDistinct pc
    → assign_all pc nr vs out ≡ values_of pc (take nr vs) out
unfolding assign_all
assign_all_values pc zero vs out d = refl
assign_all_values pc (suc nr) [] out d = refl
assign_all_values pc (suc nr) ((v, i) ∷ vs) out d =
    ap (assign_all pc nr vs) (assign_values pc (v, i) out d) ∙ assign_all_values pc nr vs _ d

-- Of the array, the loop sees only the pairs that were read.
take-pairs :
    (nr : ℕ) (words rest : List ℕ)
    → length words ≡ 2 * nr
    → take nr (pairs_of (words ++ rest)) ≡ pairs_of words
take-pairs zero [] rest h = refl
take-pairs zero (w ∷ ws) rest h = absurd (omega arith)
take-pairs (suc nr) [] rest h = absurd (omega arith)
take-pairs (suc nr) (w ∷ []) rest h = absurd (omega arith)
take-pairs (suc nr) (w ∷ (x ∷ ws)) rest h =
    ap (λ q. (w, x) ∷ q) (take-pairs nr ws rest (omega arith))

take-take : (m n : ℕ) (vs : List (ℕ × ℕ)) → take m (take n vs) ≡ take n (take m vs)
take-take zero zero vs = refl
take-take zero (suc n) [] = refl
take-take zero (suc n) (v ∷ vs) = refl
take-take (suc m) zero [] = refl
take-take (suc m) zero (v ∷ vs) = refl
take-take (suc m) (suc n) [] = refl
take-take (suc m) (suc n) (v ∷ vs) = ap (λ xs. v ∷ xs) (take-take m n vs)

group_by_id :
    (pc : PerfCounter) (stack : List ℕ) (nr : ℕ) (words : List ℕ)
    → IdsDistinct pc
    → length words ≡ 2 * nr
    → group_read pc stack (some (nr ∷ words))
      ≡ some (values_of pc (take 3 (pairs_of words)) no_counters)
unfolding group_read read_group
group_by_id pc stack nr words d l =
    let full : ltb (8 * suc (length words)) 8 ≡ false = ground arith in
    let rest = drop (suc (length words)) stack in
    let pairs = pairs_of (words ++ rest) in
    let read = assign_all_values pc nr (take 3 pairs) no_counters d in
    let same =
      ap (λ vs. values_of pc vs no_counters)
        (take-take nr 3 pairs ∙ ap (take 3) (take-pairs nr words rest l)) in
    rw full (ap some (read ∙ same))

-- When the ids of a hardware group are distinct and the kernel's read gives a count `nr` with as many
-- pairs, perf_counter_read returns for each counter the value that stands under its id among the first
-- three pairs, in whatever order they come, and 0 when none does. What was on the stack plays no part.
pub read_by_id :
    (k : Kernel) (pc : PerfCounter) (stack : List ℕ) (s : k.State) (nr : ℕ) (words : List ℕ)
    → pc.hw_available ≡ true
    → IdsDistinct pc
    → (k.read pc.fd_cycles 56 s).0 ≡ some (nr ∷ words)
    → length words ≡ 2 * nr
    → (perf_counter_read k pc stack s).0 ≡ some (values_of pc (take 3 (pairs_of words)) no_counters)
unfolding perf_counter_read
read_by_id k pc stack s nr words hw d r l = rw (hw, r) (group_by_id pc stack nr words d l)

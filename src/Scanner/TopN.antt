-- ===== src/Scanner/TopN.antt =====
-- The ranking of the processes (src/proc_scanner.c: cmp_delta_desc, proc_scanner_top_n). `qsort` is
-- the C library's: a parameter with what is documented of it.
use capstone_monitor.Prelude.{
  ℕ, zero, suc, ◌+◌, ◌≤◌, ◌<◌, ◌≡◌, ◌≢◌, ◌∙◌, refl, ap, sym, List, [], ◌∷◌, ◌++◌, map, Bool, true,
  false, not, ◌&&◌, if◌then◌else◌, ◌==◌, ltb, leb, length, take, drop, arith, take-append-drop,
  length-take, min, Bool-cases, ◌⊎◌, inl, inr,
}
pub mod Insertion
use mathlib.Core.List.{Perm, Permᴰ}
use mathlib.Core.Path.{subst}
use mathlib.Core.Logic.{∥∥₁_elim}
use native.Mathlib.Nat.{ℕ_set}
use capstone_monitor.Prelude.Int.{ℤ, pos, negsuc, ltb_ℤ}
use capstone_monitor.Scanner.Table.{ProcEntry, ProcScanner}

-- The comparison: 1, -1 or 0.
unfoldable pub cmp_delta_desc : ProcEntry → ProcEntry → ℤ
cmp_delta_desc a b =
    if ltb a.delta_ticks b.delta_ticks
    then pos 1
    else if ltb b.delta_ticks a.delta_ticks
    then negsuc 0
    else pos 0

-- No element of the list comes before `a` by the comparison.
abbrev pub FirstBy : (ProcEntry → ProcEntry → ℤ) → ProcEntry → List ProcEntry → Type 0
FirstBy cmp a [] = Unit
FirstBy cmp a (b ∷ bs) = (ltb_ℤ (pos 0) (cmp a b) ≡ false) × FirstBy cmp a bs

abbrev pub SortedBy : (ProcEntry → ProcEntry → ℤ) → List ProcEntry → Type 0
SortedBy cmp [] = Unit
SortedBy cmp (a ∷ rest) = FirstBy cmp a rest × SortedBy cmp rest

-- qsort(base, n, size, cmp): the same elements, in an order by the comparison.
pub record Qsort : Type 0 where
  pub qsort : (ProcEntry → ProcEntry → ℤ) → List ProcEntry → List ProcEntry
  pub qsort_perm : (es : List ProcEntry) → Perm (qsort cmp_delta_desc es) es
  pub qsort_sorted : (es : List ProcEntry) → SortedBy cmp_delta_desc (qsort cmp_delta_desc es)

-- An entry of this scan whose uid, if it is known, is `min_uid` or more.
unfoldable pub is_eligible : (min_uid : ℤ) → ProcEntry → Bool
is_eligible min_uid e = e.active && not (not (ltb_ℤ e.uid (pos 0)) && ltb_ℤ e.uid min_uid)

unfoldable pub eligible : (min_uid : ℤ) → List ProcEntry → List ProcEntry
unfolding is_eligible
eligible min_uid [] = []
eligible min_uid (e ∷ es) =
    if is_eligible min_uid e then e ∷ eligible min_uid es else eligible min_uid es

abbrev pub pid_of : ProcEntry → ℕ
pid_of e = e.pid

-- The process numbers that are written to `pids[]`; their number is what the function returns.
unfoldable pub proc_scanner_top_n : Qsort → ProcScanner → (n : ℕ) → (min_uid : ℤ) → List ℕ
unfolding eligible
proc_scanner_top_n q ps n min_uid =
    if length ps.entries == 0
    then []
    else map pid_of (take n (q.qsort cmp_delta_desc (eligible min_uid ps.entries)))

abbrev pub AtLeast : ProcEntry → List ProcEntry → Type 0
AtLeast a [] = Unit
AtLeast a (b ∷ bs) = (b.delta_ticks ≤ a.delta_ticks) × AtLeast a bs

-- Every entry of the first list used at least as many ticks as every entry of the second.
abbrev pub AllAtLeast : List ProcEntry → List ProcEntry → Type 0
AllAtLeast [] bs = Unit
AllAtLeast (a ∷ rest) bs = AtLeast a bs × AllAtLeast rest bs

AtLeast-drop :
    (n : ℕ) (a : ProcEntry) (bs : List ProcEntry)
    → FirstBy cmp_delta_desc a bs
    → AtLeast a (drop n bs)
unfolding cmp_delta_desc
AtLeast-drop zero a [] h = tt
AtLeast-drop zero a (b ∷ bs) h = (ground (arith, h.0), AtLeast-drop zero a bs h.1)
AtLeast-drop (suc n) a [] h = tt
AtLeast-drop (suc n) a (b ∷ bs) h = AtLeast-drop n a bs h.1

take-AllAtLeast-drop :
    (n : ℕ) (es : List ProcEntry) → SortedBy cmp_delta_desc es → AllAtLeast (take n es) (drop n es)
take-AllAtLeast-drop zero es h = tt
take-AllAtLeast-drop (suc n) [] h = tt
take-AllAtLeast-drop (suc n) (e ∷ es) h = (AtLeast-drop n e es h.0, take-AllAtLeast-drop n es h.1)

length-permᴰ : {xs ys : List ProcEntry} → Permᴰ xs ys → length xs ≡ length ys
length-permᴰ Permᴰ.nil = refl
length-permᴰ (Permᴰ.cons e d) = ap suc (length-permᴰ d)
length-permᴰ (Permᴰ.swap {l = l} e f) = refl
length-permᴰ (Permᴰ.trans d d') = length-permᴰ d ∙ length-permᴰ d'

length-perm : {xs ys : List ProcEntry} → Perm xs ys → length xs ≡ length ys
length-perm {xs} {ys} p = ∥∥₁_elim p (ℕ_set (length xs) (length ys)) length-permᴰ

length-eligible-le : (min_uid : ℤ) (es : List ProcEntry) → length (eligible min_uid es) ≤ length es
unfolding eligible
length-eligible-le min_uid [] = omega arith
length-eligible-le min_uid (e ∷ es) = ground (arith, length-eligible-le min_uid es)

map-pid_empty : (es : List ProcEntry) → length es ≡ 0 → map pid_of es ≡ []
map-pid_empty [] h = refl
map-pid_empty (e ∷ es) h = absurd (omega arith)

-- `proc_scanner_top_n` writes the numbers of `n` eligible processes, or of all when there are fewer.
-- Together with those it leaves out they are the eligible processes, each as often as in the table,
-- and each one that it writes used at least as many ticks as each one that it leaves out.
pub top_n_selects_busiest :
    (q : Qsort) (ps : ProcScanner) (n : ℕ) (min_uid : ℤ)
    → (chosen : List ProcEntry) × (rest : List ProcEntry) × (proc_scanner_top_n q ps n min_uid
        ≡ map pid_of chosen)
      × Perm (chosen ++ rest) (eligible min_uid ps.entries)
      × (length chosen ≡ min n (length (eligible min_uid ps.entries)))
      × AllAtLeast chosen rest
unfolding proc_scanner_top_n
top_n_selects_busiest q ps n min_uid = (
  take n sorted,
  drop n sorted,
  written (Bool-cases (length ps.entries == 0)),
  subst (λ xs. Perm xs (eligible min_uid ps.entries)) (sym (take-append-drop n sorted)) same,
  count,
  take-AllAtLeast-drop n sorted (q.qsort_sorted (eligible min_uid ps.entries)),
)
  where
    sorted : List ProcEntry
    sorted = q.qsort cmp_delta_desc (eligible min_uid ps.entries)

    same : Perm sorted (eligible min_uid ps.entries)
    same = q.qsort_perm (eligible min_uid ps.entries)

    count : length (take n sorted) ≡ min n (length (eligible min_uid ps.entries))
    count = length-take n sorted ∙ ap (min n) (length-perm same)

    written :
        ((length ps.entries == 0) ≡ true) ⊎ ((length ps.entries == 0) ≡ false)
        → proc_scanner_top_n q ps n min_uid ≡ map pid_of (take n sorted)
    written (inl none_there) = rw none_there (
        sym (
          map-pid_empty (take n sorted)
            (omega (arith, count, length-eligible-le min_uid ps.entries, empty none_there))))
      where
        empty : (length ps.entries == 0) ≡ true → length ps.entries ≡ 0
        empty h = ground arith
    written (inr some_there) = rw some_there

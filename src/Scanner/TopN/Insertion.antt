-- ===== src/Scanner/TopN/Insertion.antt =====
-- An insertion sort, which does what is asked of `qsort`.
use capstone_monitor.Prelude.{◌≤◌, List, [], ◌∷◌, if◌then◌else◌, arith, Bool-cases, inl, inr}
use mathlib.Core.List.{Perm}
use mathlib.Core.List.Perm
use capstone_monitor.Prelude.Int.{ℤ, pos, ltb_ℤ}
use capstone_monitor.Scanner.Table.{ProcEntry}
use capstone_monitor.Scanner.TopN.{Qsort, cmp_delta_desc, FirstBy, SortedBy}

insert : (ProcEntry → ProcEntry → ℤ) → ProcEntry → List ProcEntry → List ProcEntry
insert cmp e [] = e ∷ []
insert cmp e (x ∷ xs) = if ltb_ℤ (pos 0) (cmp e x) then x ∷ insert cmp e xs else e ∷ x ∷ xs

unfoldable pub insertion_sort : (ProcEntry → ProcEntry → ℤ) → List ProcEntry → List ProcEntry
unfolding insert
insertion_sort cmp [] = []
insertion_sort cmp (e ∷ es) = insert cmp e (insertion_sort cmp es)

insert-perm :
    (cmp : ProcEntry → ProcEntry → ℤ) (e : ProcEntry) (xs : List ProcEntry)
    → Perm (insert cmp e xs) (e ∷ xs)
unfolding insert
insert-perm cmp e [] = Perm.refl (e ∷ [])
insert-perm cmp e (x ∷ xs) = elim (Bool-cases (ltb_ℤ (pos 0) (cmp e x))) [
  | inl after ↦ rw after (Perm.trans (Perm.cons x (insert-perm cmp e xs)) (Perm.swap e x xs))
  | inr before ↦ rw before (Perm.refl (e ∷ x ∷ xs))
]

pub insertion_sort-perm :
    (cmp : ProcEntry → ProcEntry → ℤ) (es : List ProcEntry) → Perm (insertion_sort cmp es) es
unfolding insertion_sort
insertion_sort-perm cmp [] = Perm.refl []
insertion_sort-perm cmp (e ∷ es) =
    Perm.trans (insert-perm cmp e (insertion_sort cmp es))
      (Perm.cons e (insertion_sort-perm cmp es))

FirstBy-insert :
    (a e : ProcEntry) (xs : List ProcEntry)
    → e.delta_ticks ≤ a.delta_ticks
    → FirstBy cmp_delta_desc a xs
    → FirstBy cmp_delta_desc a (insert cmp_delta_desc e xs)
unfolding insert cmp_delta_desc
FirstBy-insert a e [] h f = (ground arith, tt)
FirstBy-insert a e (x ∷ xs) h f = elim (Bool-cases (ltb_ℤ (pos 0) (cmp_delta_desc e x))) [
  | inl after ↦ rw after (f.0, FirstBy-insert a e xs h f.1)
  | inr before ↦ rw before (ground arith, f)
]

FirstBy-weaken :
    (a b : ProcEntry) (xs : List ProcEntry)
    → a.delta_ticks ≤ b.delta_ticks
    → FirstBy cmp_delta_desc a xs
    → FirstBy cmp_delta_desc b xs
unfolding cmp_delta_desc
FirstBy-weaken a b [] h f = tt
FirstBy-weaken a b (x ∷ xs) h f = (ground (arith, f.0), FirstBy-weaken a b xs h f.1)

insert-SortedBy :
    (e : ProcEntry) (xs : List ProcEntry)
    → SortedBy cmp_delta_desc xs
    → SortedBy cmp_delta_desc (insert cmp_delta_desc e xs)
unfolding insert cmp_delta_desc
insert-SortedBy e [] s = (tt, tt)
insert-SortedBy e (x ∷ xs) s = elim (Bool-cases (ltb_ℤ (pos 0) (cmp_delta_desc e x))) [
  | inl after ↦ rw after (FirstBy-insert x e xs (ground arith) s.0, insert-SortedBy e xs s.1)
  | inr before ↦ rw before ((before, FirstBy-weaken x e xs (ground arith) s.0), s)
]

pub insertion_sort-SortedBy :
    (es : List ProcEntry) → SortedBy cmp_delta_desc (insertion_sort cmp_delta_desc es)
unfolding insertion_sort
insertion_sort-SortedBy [] = tt
insertion_sort-SortedBy (e ∷ es) =
    insert-SortedBy e (insertion_sort cmp_delta_desc es) (insertion_sort-SortedBy es)

abbrev pub by_insertion : Qsort
by_insertion = record {
  qsort = insertion_sort;
  qsort_perm = insertion_sort-perm cmp_delta_desc;
  qsort_sorted = insertion_sort-SortedBy;
}

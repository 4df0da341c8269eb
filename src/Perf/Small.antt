-- ===== src/Perf/Small.antt =====
-- A small kernel, a value of the parameter that the counters are modelled over.
use capstone_monitor.Prelude.{
  ℕ, zero, suc, ◌+◌, ◌≡◌, ◌∙◌, ap, refl, sym, List, [], ◌∷◌, ◌++◌, Bool, true, false, Option, none,
  some, if◌then◌else◌, ◌==◌, ltb, arith, length,
}
use capstone_monitor.Prelude.Int.{ℤ, pos, negsuc}
use capstone_monitor.Perf.{Kernel, Opened, opened, refused, Errno, emfile}
use capstone_monitor.Perf.Descriptors.{KernelLaws}

-- The state says of each descriptor handed out so far whether it is open.
abbrev pub table_open : List Bool → ℕ → Bool
table_open [] j = false
table_open (b ∷ bs) zero = b
table_open (b ∷ bs) (suc j) = table_open bs j

abbrev pub table_close : ℕ → List Bool → List Bool
table_close n [] = []
table_close zero (b ∷ bs) = false ∷ bs
table_close (suc n) (b ∷ bs) = b ∷ table_close n bs

abbrev pub close_field : ℤ → List Bool → List Bool
close_field (pos n) bs = table_close n bs
close_field (negsuc n) bs = bs

-- It hands out the numbers in order, `limit` of them.
abbrev pub table_take : (limit : ℕ) → List Bool → Opened × List Bool
table_take limit bs =
    if ltb (length bs) limit then (opened (length bs), bs ++ true ∷ []) else (refused emfile, bs)

abbrev pub id_of : ℤ → Option ℕ
id_of (pos n) = some (100 + n)
id_of (negsuc n) = none

-- Each id is 100 more than its descriptor; a read lists the three counters in the reverse order.
abbrev pub small_kernel : (limit : ℕ) → Kernel
small_kernel limit = record {
  State = List Bool;
  perf_event_open = λ attr pid cpu group_fd bs. table_take limit bs;
  ioctl = λ fd r group bs. bs;
  ioctl_id = λ fd bs. (id_of fd, bs);
  read = λ fd size bs. (some (3 ∷ 7 ∷ 102 ∷ 800 ∷ 101 ∷ 1000 ∷ 100 ∷ []), bs);
  close = close_field;
}

pub table_open_fresh : (bs : List Bool) → table_open bs (length bs) ≡ false
table_open_fresh [] = refl
table_open_fresh (b ∷ bs) = table_open_fresh bs

pub table_open-append :
    (bs : List Bool) (j : ℕ)
    → table_open (bs ++ true ∷ []) j ≡ (if length bs == j then true else table_open bs j)
table_open-append [] zero = refl
table_open-append [] (suc j) = ground arith
table_open-append (b ∷ bs) zero = ground arith
table_open-append (b ∷ bs) (suc j) = table_open-append bs j ∙ ground arith

pub table_open-close :
    (n : ℕ) (bs : List Bool) (j : ℕ)
    → table_open (table_close n bs) j ≡ (if n == j then false else table_open bs j)
table_open-close n [] j = ground arith
table_open-close zero (b ∷ bs) zero = refl
table_open-close zero (b ∷ bs) (suc j) = ground arith
table_open-close (suc n) (b ∷ bs) zero = ground arith
table_open-close (suc n) (b ∷ bs) (suc j) = table_open-close n bs j ∙ ground arith

pub take_opened :
    (limit : ℕ) (bs : List Bool) {fd : ℕ} {bs' : List Bool}
    → table_take limit bs ≡ (opened fd, bs')
    → (length bs ≡ fd) × (bs ++ true ∷ [] ≡ bs')
take_opened limit bs e = ground arith

pub take_refused :
    (limit : ℕ) (bs : List Bool) {e : Errno} {bs' : List Bool}
    → table_take limit bs ≡ (refused e, bs')
    → bs ≡ bs'
take_refused limit bs e = ground arith

abbrev pub small_kernel_laws : (limit : ℕ) → KernelLaws (small_kernel limit)
small_kernel_laws limit = record {
  is_open = table_open;
  open_takes = λ attr pid cpu g s e.
      let (n, t) = take_opened limit s e in
      (
        ap (table_open s) (sym n) ∙ table_open_fresh s,
        λ j.
            ap (λ q. table_open q j) (sym t)
            ∙ table_open-append s j
            ∙ ap (λ q. if q == j then true else table_open s j) n,
      );
  refusal_keeps = λ attr pid cpu g s e j. ap (λ q. table_open q j) (sym (take_refused limit s e));
  ioctl_keeps = λ fd r group s j. refl;
  ioctl_id_keeps = λ fd s j. refl;
  close_ends = table_open-close;
}

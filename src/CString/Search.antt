-- ===== src/CString/Search.antt =====
-- What `strchr` and `strrchr` find.
use capstone_monitor.Prelude.{ℕ, ◌≡◌, refl, List, [], ◌∷◌, ◌++◌, none, some, arith, Absent}
use capstone_monitor.CString.{strchr, strrchr}

pub strchr-append :
    (c : ℕ) (before rest : List ℕ)
    → Absent c before
    → strchr c (before ++ c ∷ rest) ≡ some (c ∷ rest)
unfolding strchr
strchr-append c [] rest h = ground arith
strchr-append c (x ∷ before) rest h = ground (arith, strchr-append c before rest h.1)

pub strrchr-Absent : (c : ℕ) (s : List ℕ) → Absent c s → strrchr c s ≡ none
unfolding strrchr
strrchr-Absent c [] h = refl
strrchr-Absent c (x ∷ s) h = ground (arith, strrchr-Absent c s h.1)

pub strrchr-append :
    (c : ℕ) (before rest : List ℕ)
    → Absent c rest
    → strrchr c (before ++ c ∷ rest) ≡ some (c ∷ rest)
unfolding strrchr
strrchr-append c [] rest h = ground (arith, strrchr-Absent c rest h)
strrchr-append c (x ∷ before) rest h = ground (arith, strrchr-append c before rest h)

-- ===== src/Daemon/Options/Pids.antt =====
-- The processes that --pids names (src/schedmon.c: parse_args).
use capstone_monitor.Prelude.{
  ℕ, zero, suc, ◌≤◌, ◌<◌, ◌≡◌, ◌∙◌, ap, sym, refl, List, [], ◌∷◌, ◌++◌, some, ltb, length, arith,
  take, length-append, take_all, append-nil, append_assoc, ltb→lt, Bool-cases, Option-cases, inl,
  inr,
}
use capstone_monitor.Prelude.Int.{ℤ, pos, negsuc}
use capstone_monitor.CString.{strtol}
use capstone_monitor.Daemon.{max_pids}
use capstone_monitor.Daemon.Options.{linux_pid_max, pid_read, pid_of_token, add_read, add_tokens}

-- Every number is that of a process.
abbrev pub AllPids : List ℕ → Type 0
AllPids [] = Unit {0}
AllPids (p ∷ ps) = (0 < p) × (p ≤ linux_pid_max) × AllPids ps

pub append-AllPids : (ps qs : List ℕ) → AllPids ps → AllPids qs → AllPids (ps ++ qs)
append-AllPids [] qs a b = b
append-AllPids (p ∷ ps) qs (lo, hi, a) b = (lo, hi, append-AllPids ps qs a b)

pid_read_in_range :
    (token : List ℕ) (r : ℤ × List ℕ) {v : ℕ}
    → pid_read token r ≡ some v
    → (0 < v) × (v ≤ linux_pid_max)
unfolding pid_read
pid_read_in_range token (negsuc n, rest) h = absurd (ground arith)
pid_read_in_range token (pos n, rest) h = ground arith

pid_of_token_in_range :
    (token : List ℕ) {v : ℕ} → pid_of_token token ≡ some v → (0 < v) × (v ≤ linux_pid_max)
unfolding pid_of_token
pid_of_token_in_range token h = pid_read_in_range token (strtol token) h

-- The numbers of the tokens that name processes, in their order.
abbrev pub pids_in : List (List ℕ) → List ℕ
pids_in [] = []
pids_in (t ∷ toks) = add_read [] (pid_of_token t) ++ pids_in toks

take-append : (n : ℕ) (ps qs : List ℕ) → length ps ≡ n → take n (ps ++ qs) ≡ ps
take-append zero [] qs e = refl
take-append zero (p ∷ ps) qs e = absurd (omega (arith, e))
take-append (suc n) [] qs e = absurd (omega (arith, e))
take-append (suc n) (p ∷ ps) qs e = ap (λ q. p ∷ q) (take-append n ps qs (omega (arith, e)))

pub take-AllPids : (n : ℕ) (ps : List ℕ) → AllPids ps → AllPids (take n ps)
take-AllPids zero ps a = tt
take-AllPids (suc n) [] a = tt
take-AllPids (suc n) (p ∷ ps) (lo, hi, a) = (lo, hi, take-AllPids n ps a)

pub pids_in-AllPids : (toks : List (List ℕ)) → AllPids (pids_in toks)
unfolding add_read
pids_in-AllPids [] = tt
pids_in-AllPids (t ∷ toks) = elim (Option-cases (pid_of_token t)) [
  | inl e ↦ rw e (pids_in-AllPids toks)
  | inr (v, e) ↦ let (lo, hi) = pid_of_token_in_range t e in rw e (lo, hi, pids_in-AllPids toks)
]

-- The loop over the tokens adds the processes that they name, as far as there is room.
pub add_tokens_lem :
    (toks : List (List ℕ)) (pids : List ℕ)
    → length pids ≤ max_pids
    → add_tokens toks pids ≡ take max_pids (pids ++ pids_in toks)
unfolding add_tokens add_read
add_tokens_lem [] pids room = rw (append-nil pids) (sym (take_all max_pids pids room))
add_tokens_lem (t ∷ toks) pids room = elim (Bool-cases (ltb (length pids) max_pids)) [
  | inr full ↦
      rw full (sym (take-append max_pids pids (pids_in (t ∷ toks)) (ground (arith, full, room))))
  | inl more ↦ elim (Option-cases (pid_of_token t)) [
    | inl e ↦ rw (more, e) (add_tokens_lem toks pids room)
    | inr (v, e) ↦
        let less = ltb→lt (length pids) max_pids more in
        let longer : length (pids ++ v ∷ []) ≤ max_pids =
          omega (arith, less, length-append pids (v ∷ [])) in
        rw (more, e)
          (add_tokens_lem toks (pids ++ v ∷ []) longer
            ∙ ap (take max_pids) (append_assoc pids (v ∷ []) (pids_in toks)))
  ]
]

-- ===== src/Scanner/Stat/Parse.antt =====
-- `read_proc_stat` finds the two counters in a line of /proc/PID/stat, whatever the name is.
use capstone_monitor.Prelude.{
  ℕ, ◌+◌, ◌-◌, ◌≡◌, ◌≢◌, ◌∙◌, refl, sym, ap, List, [], ◌∷◌, ◌++◌, append_assoc, Bool, true, false,
  if◌then◌else◌, ltb, length, take, drop, arith, length-append, Absent,
}
use capstone_monitor.CString.{is_digit, starts_with_digit, strrchr}
use capstone_monitor.CString.Search.{strchr-append, strrchr-append}
use capstone_monitor.CString.Numbers.{AllDigits, ulong_value, strtoul-digits, strtoul-space}
use capstone_monitor.Scanner.Stat.{
  skip_word, skip_blanks, skip_fields, parsed, parse_ticks, parse_from, parse_stat,
}

take-append : (xs ys : List ℕ) → take (length xs) (xs ++ ys) ≡ xs
take-append [] ys = refl
take-append (x ∷ xs) ys = ap (λ zs. x ∷ zs) (take-append xs ys)

-- Words that are not empty and have no space in them.
abbrev pub AreWords : List (List ℕ) → Type 0
AreWords [] = Unit
AreWords ([] ∷ ws) = ⊥
AreWords ((c ∷ w) ∷ ws) = Absent b' ' (c ∷ w) × AreWords ws

-- The words, each with a space behind it.
abbrev pub spaced : List (List ℕ) → List ℕ
spaced [] = []
spaced (w ∷ ws) = w ++ b' ' ∷ spaced ws

abbrev NoBlank : List ℕ → Type 0
NoBlank [] = Unit
NoBlank (c ∷ s) = c ≢ b' '

skip_word-append : (w r : List ℕ) → Absent b' ' w → skip_word (w ++ b' ' ∷ r) ≡ b' ' ∷ r
unfolding skip_word
skip_word-append [] r h = refl
skip_word-append (c ∷ w) r h = ground (arith, skip_word-append w r h.1)

skip_blanks-one : (r : List ℕ) → NoBlank r → skip_blanks (b' ' ∷ r) ≡ r
unfolding skip_blanks
skip_blanks-one [] h = refl
skip_blanks-one (c ∷ r) h = ground arith

spaced-NoBlank :
    (ws : List (List ℕ)) (r : List ℕ) → AreWords ws → NoBlank r → NoBlank (spaced ws ++ r)
spaced-NoBlank [] r h n = n
spaced-NoBlank ([] ∷ ws) r h n = absurd h
spaced-NoBlank ((c ∷ w) ∷ ws) r h n = h.0.0

-- Skipping as many fields as there are words leads to what follows them.
skip_fields-spaced :
    (ws : List (List ℕ)) (r : List ℕ)
    → AreWords ws
    → NoBlank r
    → skip_fields (spaced ws ++ r) (length ws) ≡ r
unfolding skip_fields
skip_fields-spaced [] r h n = refl
skip_fields-spaced ([] ∷ ws) r h n = absurd h
skip_fields-spaced ((c ∷ w) ∷ ws) r h n =
    ap (λ p. skip_fields (skip_blanks (skip_word p)) (length ws))
      (append_assoc (c ∷ w) (b' ' ∷ spaced ws) r)
    ∙ ap (λ p. skip_fields (skip_blanks p) (length ws))
        (skip_word-append (c ∷ w) (spaced ws ++ r) h.0)
    ∙ ap (λ p. skip_fields p (length ws))
        (skip_blanks-one (spaced ws ++ r) (spaced-NoBlank ws r h.1 n))
    ∙ skip_fields-spaced ws r h.1 n

-- The line behind the name: a space, the eleven fields from the state on, the two counters, and
-- more that begins with no digit.
abbrev pub stat_tail :
    List (List ℕ) → (u : ℕ) → (us : List ℕ) → (v : ℕ) → (vs more : List ℕ) → List ℕ
stat_tail fields u us v vs more = b' ' ∷ spaced fields ++ ((u ∷ us) ++ (b' ' ∷ (v ∷ vs) ++ more))

module _ (fields : List (List ℕ)) (u : ℕ) (us : List ℕ) (v : ℕ) (vs more : List ℕ)
    (eleven : length fields ≡ 11) (words : AreWords fields) (u_digit : is_digit u ≡ true)
    (us_digits : AllDigits us) (v_digit : is_digit v ≡ true) (vs_digits : AllDigits vs)
    (ends : starts_with_digit more ≡ false) where
  ticks :
      (comm : List ℕ)
      → parse_ticks comm (drop 1 (stat_tail fields u us v vs more))
        ≡ parsed comm (ulong_value (u ∷ us)) (ulong_value (v ∷ vs))
  unfolding parse_ticks
  ticks comm =
      let numbers : List ℕ = (u ∷ us) ++ (b' ' ∷ (v ∷ vs) ++ more) in
      let solid : u ≢ b' ' = ground arith in
      let skipped : skip_fields (spaced fields ++ numbers) 11 ≡ numbers =
        ap (skip_fields (spaced fields ++ numbers)) (sym eleven)
        ∙ skip_fields-spaced fields numbers words solid in
      rw (skipped, strtoul-digits u us (b' ' ∷ (v ∷ vs) ++ more) u_digit us_digits refl)
        (ap (λ p. parsed comm (ulong_value (u ∷ us)) p.0)
          (strtoul-space v vs more v_digit vs_digits ends))

  abbrev tail : List ℕ
  tail = stat_tail fields u us v vs more

  length_comm :
      (comm : List ℕ)
      → (ltb (length (b'(' ∷ (comm ++ b')' ∷ tail))) (length (b')' ∷ tail)) ≡ false)
        × (length (b'(' ∷ (comm ++ b')' ∷ tail)) - length (b')' ∷ tail) - 1 ≡ length comm)
  length_comm comm = lengths (length-append comm (b')' ∷ tail))
    where
      lengths :
          length (comm ++ b')' ∷ tail) ≡ length comm + length (b')' ∷ tail)
          → (ltb (length (b'(' ∷ (comm ++ b')' ∷ tail))) (length (b')' ∷ tail)) ≡ false)
            × (length (b'(' ∷ (comm ++ b')' ∷ tail)) - length (b')' ∷ tail) - 1 ≡ length comm)
      lengths h = (ground arith, omega arith)

  from_parens :
      (fetch_comm : Bool) (comm : List ℕ)
      → parse_from fetch_comm (b'(' ∷ (comm ++ b')' ∷ tail)) (b')' ∷ tail)
        ≡ parsed
            (if fetch_comm then take 15 comm else [])
            (ulong_value (u ∷ us))
            (ulong_value (v ∷ vs))
  unfolding parse_from
  from_parens false comm = ticks []
  from_parens true comm =
      let (ordered, size) = length_comm comm in
      rw (ordered, size, take-append comm (b')' ∷ tail)) (ticks (take 15 comm))

  -- parse_stat is given a line that holds the process number, the name in parentheses, eleven fields
  -- and the two counters. The name may hold parentheses and spaces too. Then both counters are read, as
  -- far as an `unsigned long` goes, and the name, when it is asked for, cut to fifteen bytes.
  pub parse_stat_reads_counters :
      (fetch_comm : Bool) (before comm : List ℕ)
      → Absent b'(' before
      → Absent b')' (stat_tail fields u us v vs more)
      → parse_stat fetch_comm (before ++ b'(' ∷ (comm ++ b')' ∷ stat_tail fields u us v vs more))
        ≡ parsed
            (if fetch_comm then take 15 comm else [])
            (ulong_value (u ∷ us))
            (ulong_value (v ∷ vs))
  unfolding parse_stat
  parse_stat_reads_counters fetch before comm no_open no_close =
      let opened = strchr-append b'(' before (comm ++ b')' ∷ tail) no_open in
      let closed =
        ap (strrchr b')') (sym (append_assoc before (b'(' ∷ comm) (b')' ∷ tail)))
        ∙ strrchr-append b')' (before ++ b'(' ∷ comm) tail no_close in
      rw (parse_stat, opened, closed) (from_parens fetch comm)

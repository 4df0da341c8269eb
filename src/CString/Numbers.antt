-- ===== src/CString/Numbers.antt =====
-- What `strtoul` reads from a string of digits.
use capstone_monitor.Prelude.{
  ℕ, ◌+◌, ◌-◌, ◌*◌, ◌≡◌, refl, List, [], ◌∷◌, ◌++◌, true, false, if◌then◌else◌, ◌==◌, arith, ltb,
}
use capstone_monitor.CString.{
  is_digit, is_space, skip_space, digits, starts_with_digit, unsigned_number, after_sign_ulong,
  strtoul, ulong_max,
}

abbrev pub AllDigits : List ℕ → Type 0
AllDigits [] = Unit
AllDigits (c ∷ s) = (is_digit c ≡ true) × AllDigits s

-- The number that the digits of `s` write, after `acc`.
abbrev pub value_from : ℕ → List ℕ → ℕ
value_from acc [] = acc
value_from acc (c ∷ s) = value_from (acc * 10 + (c - b'0')) s

-- The number that the digits write, as far as an `unsigned long` goes.
abbrev pub ulong_value : List ℕ → ℕ
ulong_value s = if ltb ulong_max (value_from 0 s) then ulong_max else value_from 0 s

digits-append :
    (acc : ℕ) (s rest : List ℕ)
    → AllDigits s
    → starts_with_digit rest ≡ false
    → digits acc (s ++ rest) ≡ (value_from acc s, rest)
unfolding digits
digits-append acc [] [] h e = refl
digits-append acc [] (c ∷ rest) h e = rw e
digits-append acc (c ∷ s) rest h e = rw (h.0) (digits-append (acc * 10 + (c - b'0')) s rest h.1 e)

module _ (c : ℕ) (s rest : List ℕ) (h : is_digit c ≡ true) (k : AllDigits s)
    (e : starts_with_digit rest ≡ false) where
  number : (all : List ℕ) → unsigned_number false all (c ∷ s ++ rest) ≡ (ulong_value (c ∷ s), rest)
  unfolding unsigned_number
  number all = rw (h, digits-append (0 + (c - b'0')) s rest k e)

  after_no_sign :
      (all : List ℕ) → after_sign_ulong all (c ∷ s ++ rest) ≡ (ulong_value (c ∷ s), rest)
  unfolding after_sign_ulong
  after_no_sign all =
      let minus : (c == b'-') ≡ false = ground arith in
      let plus : (c == b'+') ≡ false = ground arith in rw (minus, plus) (number all)

  -- The digits up to the first other byte are converted.
  pub strtoul-digits : strtoul (c ∷ s ++ rest) ≡ (ulong_value (c ∷ s), rest)
  unfolding strtoul
  strtoul-digits =
      let solid : is_space c ≡ false = ground arith in
      rw (skip_space, solid) (after_no_sign (c ∷ s ++ rest))

  -- A space before them is passed over.
  pub strtoul-space : strtoul (b' ' ∷ c ∷ s ++ rest) ≡ (ulong_value (c ∷ s), rest)
  unfolding strtoul
  strtoul-space =
      let solid : is_space c ≡ false = ground arith in
      rw (skip_space, solid) (after_no_sign (b' ' ∷ c ∷ s ++ rest))

-- ===== src/ProcIo/Lines.antt =====
-- The lines of a file in the kernel's format (src/schedmon.c: read_proc_io_fd).
use capstone_monitor.Prelude.{
  ℕ, ◌≡◌, ◌∙◌, ap, refl, List, [], ◌∷◌, ◌++◌, true, false, ◌==◌, arith, length, ◌≤◌,
}
use capstone_monitor.CString.{is_digit, starts_with, strtoul}
use capstone_monitor.CString.Numbers.{AllDigits, ulong_value, strtoul-space}
use capstone_monitor.ProcIo.{
  IoCounters, rchar_key, wchar_key, read_bytes_key, write_bytes_key, cancelled_key, read_io_line,
  read_io_lines,
}

-- A number as it is written: its first digit and the others, twenty at most, which 64 bits need.
pub record Decimal : Type 0 where
  pub first : ℕ
  pub more : List ℕ
  pub first_digit : is_digit first ≡ true
  pub more_digits : AllDigits more
  pub short : length more ≤ 19

abbrev pub text_of : Decimal → List ℕ
text_of d = d.first ∷ d.more

-- A line: its word, a space, a number and the newline.
abbrev pub io_line : List ℕ → Decimal → List ℕ → List ℕ
io_line key d rest = key ++ b' ' ∷ (text_of d ++ b'\n' ∷ rest)

pass_digits :
    (s rest : List ℕ) (io : IoCounters)
    → AllDigits s
    → read_io_lines false (s ++ b'\n' ∷ rest) io ≡ read_io_lines true rest io
unfolding read_io_lines
pass_digits [] rest io h = refl
pass_digits (c ∷ s) rest io h =
    let newline : (c == b'\n') ≡ false = ground (arith, h.0) in
    let nul : (c == 0) ≡ false = ground (arith, h.0) in
    rw (newline, nul) (pass_digits s rest io h.1)

pass_number :
    (d : Decimal) (rest : List ℕ) (io : IoCounters)
    → read_io_lines false (text_of d ++ b'\n' ∷ rest) io ≡ read_io_lines true rest io
pass_number d rest io = pass_digits (text_of d) rest io (d.first_digit, d.more_digits)

value_read :
    (d : Decimal) (rest : List ℕ)
    → (strtoul (b' ' ∷ (text_of d ++ b'\n' ∷ rest))).0 ≡ ulong_value (text_of d)
value_read d rest =
    ap (λ (r : ℕ × List ℕ). r.0)
      (strtoul-space d.first d.more (b'\n' ∷ rest) d.first_digit d.more_digits refl)

pub rchar_line :
    (d : Decimal) (rest : List ℕ) (io : IoCounters)
    → read_io_lines true (io_line rchar_key d rest) io
      ≡ read_io_lines true rest (record io { rchar = ulong_value (text_of d) })
unfolding read_io_lines read_io_line starts_with
rchar_line d rest io =
    pass_number d rest _
    ∙ ap (λ v. read_io_lines true rest (record io { rchar = v })) (value_read d rest)

pub wchar_line :
    (d : Decimal) (rest : List ℕ) (io : IoCounters)
    → read_io_lines true (io_line wchar_key d rest) io
      ≡ read_io_lines true rest (record io { wchar = ulong_value (text_of d) })
unfolding read_io_lines read_io_line starts_with
wchar_line d rest io =
    pass_number d rest _
    ∙ ap (λ v. read_io_lines true rest (record io { wchar = v })) (value_read d rest)

pub read_bytes_line :
    (d : Decimal) (rest : List ℕ) (io : IoCounters)
    → read_io_lines true (io_line read_bytes_key d rest) io
      ≡ read_io_lines true rest (record io { read_bytes = ulong_value (text_of d) })
unfolding read_io_lines read_io_line starts_with
read_bytes_line d rest io =
    pass_number d rest _
    ∙ ap (λ v. read_io_lines true rest (record io { read_bytes = v })) (value_read d rest)

pub write_bytes_line :
    (d : Decimal) (rest : List ℕ) (io : IoCounters)
    → read_io_lines true (io_line write_bytes_key d rest) io
      ≡ read_io_lines true rest (record io { write_bytes = ulong_value (text_of d) })
unfolding read_io_lines read_io_line starts_with
write_bytes_line d rest io =
    pass_number d rest _
    ∙ ap (λ v. read_io_lines true rest (record io { write_bytes = v })) (value_read d rest)

pub cancelled_line :
    (d : Decimal) (rest : List ℕ) (io : IoCounters)
    → read_io_lines true (io_line cancelled_key d rest) io
      ≡ read_io_lines true rest (record io { cancelled = ulong_value (text_of d) })
unfolding read_io_lines read_io_line starts_with
cancelled_line d rest io =
    pass_number d rest _
    ∙ ap (λ v. read_io_lines true rest (record io { cancelled = v })) (value_read d rest)

abbrev pub syscr_key : List ℕ
syscr_key = b's' ∷ b'y' ∷ b's' ∷ b'c' ∷ b'r' ∷ b':' ∷ []

abbrev pub syscw_key : List ℕ
syscw_key = b's' ∷ b'y' ∷ b's' ∷ b'c' ∷ b'w' ∷ b':' ∷ []

pub syscr_line :
    (d : Decimal) (rest : List ℕ) (io : IoCounters)
    → read_io_lines true (io_line syscr_key d rest) io ≡ read_io_lines true rest io
unfolding read_io_lines read_io_line starts_with
syscr_line d rest io = pass_number d rest io

pub syscw_line :
    (d : Decimal) (rest : List ℕ) (io : IoCounters)
    → read_io_lines true (io_line syscw_key d rest) io ≡ read_io_lines true rest io
unfolding read_io_lines read_io_line starts_with
syscw_line d rest io = pass_number d rest io

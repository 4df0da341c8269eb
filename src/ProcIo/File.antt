-- ===== src/ProcIo/File.antt =====
-- A whole file in the kernel's format (src/schedmon.c: read_proc_io_fd).
use capstone_monitor.Prelude.{
  ℕ, ◌+◌, ◌-◌, ◌%◌, ◌^◌, ◌≤◌, ◌≡◌, ◌∙◌, ap, List, [], ◌∷◌, ◌++◌, true, some, if◌then◌else◌, leb,
  arith, length, length-append, take_all,
}
use capstone_monitor.CString.Numbers.{ulong_value}
use capstone_monitor.ProcIo.{
  IoCounters, no_io, rchar_key, wchar_key, read_bytes_key, write_bytes_key, cancelled_key,
  read_io_lines, io_totals, read_proc_io_fd,
}
use capstone_monitor.ProcIo.Lines.{
  Decimal, text_of, io_line, syscr_key, syscw_key, rchar_line, wchar_line, syscr_line, syscw_line,
  read_bytes_line, write_bytes_line, cancelled_line,
}

-- The numbers of the file /proc/<pid>/io, and its text.
pub record IoFile : Type 0 where
  pub rchar : Decimal
  pub wchar : Decimal
  pub syscr : Decimal
  pub syscw : Decimal
  pub read_bytes : Decimal
  pub write_bytes : Decimal
  pub cancelled : Decimal

abbrev pub io_text : IoFile → List ℕ
io_text f = io_line rchar_key f.rchar (
    io_line wchar_key f.wchar (
      io_line syscr_key f.syscr (
        io_line syscw_key f.syscw (
          io_line read_bytes_key f.read_bytes
            (io_line write_bytes_key f.write_bytes (io_line cancelled_key f.cancelled []))))))

length-line :
    (key : List ℕ) (d : Decimal) (rest : List ℕ)
    → length (io_line key d rest) ≤ length key + 22 + length rest
length-line key d rest = omega (
  arith,
  length-append key (b' ' ∷ (text_of d ++ b'\n' ∷ rest)),
  length-append (text_of d) (b'\n' ∷ rest),
  d.short,
)

io_text_fits : (f : IoFile) → length (io_text f) ≤ 511
io_text_fits f =
    let r₇ = io_line cancelled_key f.cancelled [] in
    let r₆ = io_line write_bytes_key f.write_bytes r₇ in
    let r₅ = io_line read_bytes_key f.read_bytes r₆ in
    let r₄ = io_line syscw_key f.syscw r₅ in
    let r₃ = io_line syscr_key f.syscr r₄ in
    let r₂ = io_line wchar_key f.wchar r₃ in
    omega (
      arith,
      length-line cancelled_key f.cancelled [],
      length-line write_bytes_key f.write_bytes r₇,
      length-line read_bytes_key f.read_bytes r₆,
      length-line syscw_key f.syscw r₅,
      length-line syscr_key f.syscr r₄,
      length-line wchar_key f.wchar r₃,
      length-line rchar_key f.rchar r₂,
    )

lines_read :
    (f : IoFile) (io : IoCounters)
    → read_io_lines true (io_text f) io ≡ record {
      rchar = ulong_value (text_of f.rchar);
      wchar = ulong_value (text_of f.wchar);
      read_bytes = ulong_value (text_of f.read_bytes);
      write_bytes = ulong_value (text_of f.write_bytes);
      cancelled = ulong_value (text_of f.cancelled);
    }
unfolding read_io_lines
lines_read f io =
    let r₇ = io_line cancelled_key f.cancelled [] in
    let r₆ = io_line write_bytes_key f.write_bytes r₇ in
    let r₅ = io_line read_bytes_key f.read_bytes r₆ in
    let r₄ = io_line syscw_key f.syscw r₅ in
    let r₃ = io_line syscr_key f.syscr r₄ in
    let r₂ = io_line wchar_key f.wchar r₃ in
    let io₁ = record io { rchar = ulong_value (text_of f.rchar) } in
    let io₂ = record io₁ { wchar = ulong_value (text_of f.wchar) } in
    let io₃ = record io₂ { read_bytes = ulong_value (text_of f.read_bytes) } in
    let io₄ = record io₃ { write_bytes = ulong_value (text_of f.write_bytes) } in
    rchar_line f.rchar r₂ io
    ∙ (wchar_line f.wchar r₃ io₁
        ∙ (syscr_line f.syscr r₄ io₂
            ∙ (syscw_line f.syscw r₅ io₂
                ∙ (read_bytes_line f.read_bytes r₆ io₂
                    ∙ (write_bytes_line f.write_bytes r₇ io₃
                        ∙ cancelled_line f.cancelled [] io₄)))))

-- From a file in the kernel's format, seven lines with numbers of at most twenty digits,
-- read_proc_io_fd gets the bytes read and written less those cancelled, 0 if more were cancelled, and
-- the bytes of the system calls, both sums modulo 2 ^ 64. The buffer holds the whole file.
pub io_file_is_read :
    (f : IoFile) (old : ℕ)
    → read_proc_io_fd (some (io_text f)) old ≡ (
      if leb
            (ulong_value (text_of f.cancelled))
            ((ulong_value (text_of f.read_bytes) + ulong_value (text_of f.write_bytes)) % 2 ^ 64)
          then (ulong_value (text_of f.read_bytes) + ulong_value (text_of f.write_bytes)) % 2 ^ 64
            - ulong_value (text_of f.cancelled)
          else 0,
      (ulong_value (text_of f.rchar) + ulong_value (text_of f.wchar)) % 2 ^ 64,
    )
unfolding read_proc_io_fd io_totals
io_file_is_read f old =
    ap (λ t. io_totals (read_io_lines true t no_io)) (take_all 511 (io_text f) (io_text_fits f))
    ∙ ap io_totals (lines_read f no_io)

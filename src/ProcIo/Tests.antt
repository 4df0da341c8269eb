-- ===== src/ProcIo/Tests.antt =====
-- read_proc_io_fd at a concrete file.
use capstone_monitor.Prelude.{◌≡◌, refl, [], ◌∷◌, some, arith}
use capstone_monitor.ProcIo.{read_proc_io_fd}
use capstone_monitor.ProcIo.Lines.{Decimal}
use capstone_monitor.ProcIo.File.{IoFile, io_text, io_file_is_read}

abbrev forty_two : Decimal
forty_two = record {
  first = b'4';
  more = b'2' ∷ [];
  first_digit = refl;
  more_digits = (refl, omega arith);
  short = omega arith;
}

abbrev seven : Decimal
seven = record {
  first = b'7';
  more = [];
  first_digit = refl;
  more_digits = omega arith;
  short = omega arith;
}

abbrev small_file : IoFile
small_file = record {
  rchar = forty_two;
  wchar = seven;
  syscr = seven;
  syscw = seven;
  read_bytes = forty_two;
  write_bytes = forty_two;
  cancelled = seven;
}

io_file_is_read_example : read_proc_io_fd (some (io_text small_file)) 0 ≡ (77, 49)
io_file_is_read_example = io_file_is_read small_file 0

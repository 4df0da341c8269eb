-- ===== src/Perf/Tests.antt =====
-- The theorems on the performance counters at concrete inputs.
use capstone_monitor.Prelude.{◌≡◌, ◌≢◌, refl, [], ◌∷◌, true, some, arith}
use capstone_monitor.Prelude.Int.{pos, negsuc}
use capstone_monitor.Perf.{
  closed_counter, PerfCounter, perf_counter_open, perf_counter_close, open_counter, cycles_opened,
  instr_opened, llc_opened, give_up,
}
use capstone_monitor.Perf.Small.{table_open, small_kernel, small_kernel_laws}
use capstone_monitor.Perf.Reading.{perf_counter_read}
use capstone_monitor.Perf.Opening.{failed_open_leaks_nothing, close-open}
use capstone_monitor.Perf.Values.{read_by_id}

refused_ret : (perf_counter_open (small_kernel 3) 42 (negsuc 0) (true ∷ [])).ret ≢ pos 0
unfolding perf_counter_open open_counter cycles_opened instr_opened llc_opened give_up
    perf_counter_close
refused_ret e = ground arith

failed_open_example :
    table_open (perf_counter_open (small_kernel 3) 42 (negsuc 0) (true ∷ [])).kernel 2
    ≡ table_open (true ∷ []) 2
failed_open_example =
    failed_open_leaks_nothing (small_kernel 3) (small_kernel_laws 3) 42 (negsuc 0) (true ∷ [])
      refused_ret 2

close-open_example :
    table_open
      (perf_counter_close
        (small_kernel 4)
        (perf_counter_open (small_kernel 4) 42 (negsuc 0) (true ∷ [])).counter
        (perf_counter_open (small_kernel 4) 42 (negsuc 0) (true ∷ [])).kernel).1
      2
    ≡ table_open (true ∷ []) 2
close-open_example = close-open (small_kernel 4) (small_kernel_laws 4) 42 (negsuc 0) (true ∷ []) 2

abbrev hardware_counter : PerfCounter
hardware_counter = record closed_counter {
  fd_cycles = pos 0;
  hw_available = true;
  id_cycles = 100;
  id_instr = 101;
  id_llc = 102;
}

read_by_id_example :
    (perf_counter_read (small_kernel 4) hardware_counter [] []).0
    ≡ some (record { cycles = 1000; instr = 800; llc_misses = 7 })
read_by_id_example =
    read_by_id (small_kernel 4) hardware_counter [] [] 3 (7 ∷ 102 ∷ 800 ∷ 101 ∷ 1000 ∷ 100 ∷ [])
      refl (λ e. omega arith, (λ e. omega arith, λ e. omega arith)) refl refl

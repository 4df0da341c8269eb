-- ===== src/Ring/Shared/Tests.antt =====
-- The life of a segment in a small memory.
use capstone_monitor.Prelude.{ℕ, ◌≡◌, refl, List, [], ◌∷◌, true, none, some}
use capstone_monitor.Metrics.{SmoothedMetrics, zero_metrics}
use capstone_monitor.Ring.{rb_check_abi}
use capstone_monitor.Ring.Queue.{Call, push, pop, pushed, popped, queue_run, queue_push, queue_pop}
use capstone_monitor.Ring.Shared.{shm_name, rb_create_named, rb_attach_named, run_at}
use capstone_monitor.Ring.Shared.Ownership.{
  SameTables, destroyed, detached, segments_are_given_back,
}
use capstone_monitor.Ring.Shared.Sharing.{attached_reads_created}
use capstone_monitor.Ring.Shared.Small.{Tables, blank, small_memory, view_of}
use capstone_monitor.Ring.Shared.Small.Laws.{small_memory_laws}

-- A segment of an earlier run is still there.
abbrev left_over : Tables
left_over = record {
  name = some 7;
  name_dash = none;
  fds = [];
  addresses = [];
  content = λ o. blank;
}

segments_are_given_back_example :
    SameTables (view_of left_over) (
      view_of (destroyed small_memory shm_name (rb_create_named small_memory 0 shm_name left_over)))
    × SameTables
        (view_of left_over)
        (view_of (detached small_memory (rb_attach_named small_memory shm_name left_over)))
segments_are_given_back_example =
    segments_are_given_back small_memory small_memory_laws 0 shm_name left_over

abbrev entry : ℕ → SmoothedMetrics ℕ
entry pid = record (zero_metrics 0) { pid = pid }

abbrev script : List (Call ℕ)
script = push (entry 7) ∷ push (entry 8) ∷ pop ∷ pop ∷ pop ∷ []

abbrev created : Tables
created = (rb_create_named small_memory 0 shm_name left_over).1

abbrev attached : Tables
attached = (rb_attach_named small_memory shm_name created).1

attached_reads_created_example :
    (rb_check_abi (small_memory.load 1 attached) ≡ true)
    × (run_at small_memory 0 1 script attached
        ≡ pushed true
          ∷ pushed true
          ∷ popped (some (entry 7))
          ∷ popped (some (entry 8))
          ∷ popped none
          ∷ [])
unfolding rb_create_named rb_attach_named queue_run queue_push queue_pop
attached_reads_created_example =
    attached_reads_created small_memory small_memory_laws 0 shm_name left_over refl refl script

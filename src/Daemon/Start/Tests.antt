-- ===== src/Daemon/Start/Tests.antt =====
-- The start of the daemon over small values of its parameters.
use capstone_monitor.Prelude.{ℕ, ◌≡◌, refl, List, [], ◌∷◌, true, none, some}
use capstone_monitor.Metrics.{SmoothedMetrics, zero_metrics}
use capstone_monitor.Ring.Queue.{push, pop, pushed, popped, queue_push, queue_pop}
use capstone_monitor.Ring.Shared.Small.{Tables, blank, small_memory}
use capstone_monitor.Ring.Shared.Small.Laws.{small_memory_laws}
use capstone_monitor.Daemon.Start.{init_shm}
use capstone_monitor.Daemon.Start.Rings.{
  At, at_rb, at_dash, run_rings, two_queues, rings_are_two_queues,
}

abbrev before : Tables
before = record { name = none; name_dash = some 3; fds = []; addresses = []; content = λ o. blank }

abbrev item : ℕ → SmoothedMetrics ℕ
item pid = record (zero_metrics 0) { pid = pid }

abbrev script : List (At ℕ)
script = at_rb (push (item 7)) ∷ at_dash pop ∷ at_dash (push (item 8)) ∷ at_rb pop ∷ []

rings_are_two_queues_example :
    run_rings small_memory 0 1 script (init_shm small_memory 0 before).1
    ≡ pushed true ∷ popped none ∷ pushed true ∷ popped (some (item 7)) ∷ []
unfolding init_shm two_queues queue_push queue_pop
rings_are_two_queues_example =
    rings_are_two_queues small_memory small_memory_laws 0 before refl script

-- ===== src/Daemon/Monad.antt =====
-- The daemon's calls in sequence: functions that take the system's state and return it, and the calls
-- that are no one's code of their own.
use capstone_monitor.Prelude.{Option}
use capstone_monitor.BpfMap.{BpfMaps}
use capstone_monitor.Bpf.{Maps}
use capstone_monitor.Perf.{Kernel, PerfCounter, RawCounters}
use capstone_monitor.Perf.Reading.{perf_counter_read}
use capstone_monitor.Daemon.{System}

-- A call: its result, and the state that it leaves.
abbrev pub M : Type 0 → Type 0 → Type 0
M S A = S → A × S

abbrev pub pure : {S A : Type 0} → A → M S A
pure a s = (a, s)

infixl 5 ◌>>=◌ ◌>>◌
abbrev pub ◌>>=◌ : {S A B : Type 0} → M S A → (A → M S B) → M S B
◌>>=◌ m f s = f (m s).0 (m s).1

abbrev pub ◌>>◌ : {S B : Type 0} → M S (Unit {0}) → M S B → M S B
m >> n = m >>= λ _. n

module _ (b : BpfMaps) (k : Kernel) (sys : System b k) where
  -- A look at the maps, and a change of them.
  unfoldable pub look : {A : Type 0} → (Maps b → A) → M k.State A
  look f s = (f (sys.maps s), sys.later s)

  unfoldable pub change : {A : Type 0} → (Maps b → A × Maps b) → M k.State A
  change f s = ((f (sys.maps s)).0, sys.later (sys.put_maps (f (sys.maps s)).1 s))

  -- A read of the counters, whose buffer is on the stack.
  unfoldable pub read_counters : PerfCounter → M k.State (Option RawCounters)
  read_counters pc s = perf_counter_read k pc (sys.stack s) s

-- ===== src/Metrics.antt =====
-- One slot of the ring buffers (src/smoothed_metrics.h).
use capstone_monitor.Prelude.{ℕ, Bool, ◌||◌}
use capstone_monitor.Prelude.Int.{ℤ, pos}
use capstone_monitor.Double.{Double}

abbrev pub monitor_abi_version : ℕ
monitor_abi_version = 5

-- sizeof(SmoothedMetrics), which the header asserts
abbrev pub sizeof_smoothed_metrics : ℕ
sizeof_smoothed_metrics = 88

pub record SmoothedMetrics {ℓ} (F : Type ℓ) : Type ℓ where
  pub pid : ℕ
  pub cpu_id : ℤ
  pub hw_pmu_available : ℕ
  pub timestamp_ns : ℕ
  pub smoothed_ipc : F
  pub smoothed_llc_miss : F
  pub smoothed_ctx_freq : F
  pub smoothed_io_freq : F
  pub smoothed_io_wait_ms : F
  pub smoothed_rq_wait_ms : F
  pub smoothed_migration_freq : F
  pub smoothed_io_syscall_freq : F

-- what memset(m, 0, sizeof(*m)) leaves
abbrev pub zero_metrics {ℓ} : {F : Type ℓ} → F → SmoothedMetrics F
zero_metrics zero = record {
  pid = 0;
  cpu_id = pos 0;
  hw_pmu_available = 0;
  timestamp_ns = 0;
  smoothed_ipc = zero;
  smoothed_llc_miss = zero;
  smoothed_ctx_freq = zero;
  smoothed_io_freq = zero;
  smoothed_io_wait_ms = zero;
  smoothed_rq_wait_ms = zero;
  smoothed_migration_freq = zero;
  smoothed_io_syscall_freq = zero;
}

module _ (d : Double) where
  open d use {F, zero, lt}

  -- schedmon.c: some metric is above 0
  unfoldable pub sm_is_active : SmoothedMetrics F → Bool
  sm_is_active m =
      lt zero m.smoothed_ipc
      || lt zero m.smoothed_llc_miss
      || lt zero m.smoothed_ctx_freq
      || lt zero m.smoothed_io_freq
      || lt zero m.smoothed_io_wait_ms
      || lt zero m.smoothed_rq_wait_ms
      || lt zero m.smoothed_migration_freq
      || lt zero m.smoothed_io_syscall_freq

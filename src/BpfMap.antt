-- ===== src/BpfMap.antt =====
-- The kernel's BPF hash maps, which both the BPF programs (bpf/ctx_switch.bpf.c) and the daemon
-- (src/ebpf_tracer.c) call. They are no code of the repository, so they are a parameter: the map
-- operations with their documented behaviour. Keys are the `__u32` and `__u64` keys of the programs.
pub mod Assoc
use capstone_monitor.Prelude.{ℕ, ◌≡◌, ◌⊎◌, Option, none, some, if◌then◌else◌, ◌==◌}

pub record BpfMaps : Type 1 where
  pub Map : Type 0 → Type 0
  pub lookup : {V : Type 0} → Map V → ℕ → Option V
  -- bpf_map_update_elem with BPF_ANY, and with BPF_NOEXIST
  pub update : {V : Type 0} → Map V → ℕ → V → Map V
  pub update_noexist : {V : Type 0} → Map V → ℕ → V → Map V
  pub delete : {V : Type 0} → Map V → ℕ → Map V

-- An update of a key that is there succeeds; of a new key it may fail (-E2BIG on a full map) and
-- then changes nothing. A deletion makes room for one key.
pub record MapLaws (b : BpfMaps) : Type 1 where
  pub update_outcome :
      {V : Type 0} (m : b.Map V) (k : ℕ) (v : V)
      → ((b.lookup m k ≡ none) × (b.update m k v ≡ m))
        ⊎ ((j : ℕ) → b.lookup (b.update m k v) j ≡ (if k == j then some v else b.lookup m j))
  pub noexist_present :
      {V : Type 0} (m : b.Map V) (k : ℕ) (v : V) {w : V}
      → b.lookup m k ≡ some w
      → b.update_noexist m k v ≡ m
  pub noexist_absent :
      {V : Type 0} (m : b.Map V) (k : ℕ) (v : V)
      → b.lookup m k ≡ none
      → b.update_noexist m k v ≡ b.update m k v
  pub lookup-delete :
      {V : Type 0} (m : b.Map V) (k j : ℕ)
      → b.lookup (b.delete m k) j ≡ (if k == j then none else b.lookup m j)
  pub delete_makes_room :
      {V : Type 0} (m : b.Map V) (k j : ℕ) (v : V) {w : V}
      → b.lookup m k ≡ some w
      → b.lookup (b.update (b.delete m k) j v) j ≡ some v

-- ===== src/Bpf/MapFacts.antt =====
-- What a counter map and the other maps hold after the operations of the handlers.
use capstone_monitor.Prelude.{
  ℕ, ◌≡◌, ◌≢◌, inl, inr, ap, ◌∙◌, none, some, if◌then◌else◌, ◌==◌, arith, Option-cases,
}
use capstone_monitor.BpfMap.{BpfMaps, MapLaws}
use capstone_monitor.Bpf.{add64, accumulate}

module _ (b : BpfMaps) (laws : MapLaws b) where
  open b use {Map, lookup, update, update_noexist, delete}
  open laws use {update_outcome, noexist_present, noexist_absent}

  -- A key that is there is overwritten.
  pub update-present :
      {V : Type 0} (m : Map V) (k : ℕ) (v : V) {w : V}
      → lookup m k ≡ some w
      → (j : ℕ) → lookup (update m k v) j ≡ (if k == j then some v else lookup m j)
  update-present m k v h j = elim (update_outcome m k v) [
    | inl (absent, same) ↦ cc
    | inr written ↦ written j
  ]

  -- An update never touches another key.
  pub update-other :
      {V : Type 0} (m : Map V) (k j : ℕ) (v : V) → k ≢ j → lookup (update m k v) j ≡ lookup m j
  update-other m k j v ne = elim (update_outcome m k v) [
    | inl (absent, same) ↦ ap (λ n. lookup n j) same
    | inr written ↦ ground (arith, written j)
  ]

  pub update_noexist-other :
      {V : Type 0} (m : Map V) (k j : ℕ) (v : V)
      → k ≢ j
      → lookup (update_noexist m k v) j ≡ lookup m j
  update_noexist-other m k j v ne = elim (Option-cases (lookup m k)) [
    | inl absent ↦ rw (noexist_absent m k v absent) (update-other m k j v ne)
    | inr (w, present) ↦ rw (noexist_present m k v present)
  ]

  -- An insertion that must not overwrite keeps every key that is there.
  pub update_noexist-keeps :
      {V : Type 0} (m : Map V) (k j : ℕ) (v : V) {w : V}
      → lookup m j ≡ some w
      → lookup (update_noexist m k v) j ≡ some w
  update_noexist-keeps m k j v h = elim (Option-cases (lookup m k)) [
    | inl absent ↦ rw (noexist_absent m k v absent) (update-other m k j v (λ e. cc) ∙ h)
    | inr (w, present) ↦ rw (noexist_present m k v present) h
  ]

  pub accumulate-other :
      (m : Map ℕ) (k j n : ℕ) → k ≢ j → lookup (accumulate b m k n) j ≡ lookup m j
  unfolding accumulate
  accumulate-other m k j n ne = elim (Option-cases (lookup m k)) [
    | inl absent ↦ rw (absent, accumulate) (update-other m k j n ne)
    | inr (v, present) ↦ rw (present, accumulate) (update-other m k j (add64 v n) ne)
  ]

  pub accumulate_self :
      (m : Map ℕ) (k n : ℕ) {v : ℕ}
      → lookup m k ≡ some v
      → lookup (accumulate b m k n) k ≡ some (add64 v n)
  unfolding accumulate
  accumulate_self m k n {v} h =
      rw (h, accumulate) (ground (arith, update-present m k (add64 v n) h k))

  -- A counter that was deleted starts anew.
  pub accumulate-delete :
      (m : Map ℕ) (k n : ℕ) {v : ℕ}
      → lookup m k ≡ some v
      → lookup (accumulate b (delete m k) k n) k ≡ some n
  unfolding accumulate
  accumulate-delete m k n h =
      let gone : lookup (delete m k) k ≡ none = ground (arith, laws.lookup-delete m k k) in
      rw (gone, accumulate) (laws.delete_makes_room m k k n h)

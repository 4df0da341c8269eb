-- ===== src/BpfMap/Assoc.antt =====
-- A concrete hash map, an association list that never fills up: it meets the laws and runs the
-- examples.
use capstone_monitor.Prelude.{
  ℕ, ◌≡◌, inr, List, [], ◌∷◌, Option, none, some, if◌then◌else◌, ◌==◌, arith,
}
use capstone_monitor.BpfMap.{BpfMaps, MapLaws}

module _ {V : Type 0} where
  unfoldable pub lookup : List (ℕ × V) → ℕ → Option V
  lookup [] k = none
  lookup ((j, v) ∷ m) k = if j == k then some v else lookup m k

  unfoldable pub delete : List (ℕ × V) → ℕ → List (ℕ × V)
  delete [] k = []
  delete ((j, v) ∷ m) k = if j == k then delete m k else (j, v) ∷ delete m k

  unfoldable pub update : List (ℕ × V) → ℕ → V → List (ℕ × V)
  update m k v = (k, v) ∷ delete m k

  -- `found` is what `m` has at `k`.
  unfoldable pub insert_absent : (found : Option V) → List (ℕ × V) → ℕ → V → List (ℕ × V)
  insert_absent none m k v = update m k v
  insert_absent (some w) m k v = m

  lookup-delete :
      (m : List (ℕ × V)) (k j : ℕ) → lookup (delete m k) j ≡ (if k == j then none else lookup m j)
  unfolding lookup delete
  lookup-delete [] k j = ground arith
  lookup-delete ((i, v) ∷ m) k j = ground (arith, lookup-delete m k j)

  lookup-update :
      (m : List (ℕ × V)) (k : ℕ) (v : V) (j : ℕ)
      → lookup (update m k v) j ≡ (if k == j then some v else lookup m j)
  unfolding lookup update
  lookup-update m k v j = ground (arith, lookup-delete m k j)

  lookup-update_self : (m : List (ℕ × V)) (k : ℕ) (v : V) → lookup (update m k v) k ≡ some v
  lookup-update_self m k v = ground (arith, lookup-update m k v k)

  noexist_present :
      (m : List (ℕ × V)) (k : ℕ) (v : V) {w : V}
      → lookup m k ≡ some w
      → insert_absent (lookup m k) m k v ≡ m
  unfolding insert_absent
  noexist_present m k v h = rw h

  noexist_absent :
      (m : List (ℕ × V)) (k : ℕ) (v : V)
      → lookup m k ≡ none
      → insert_absent (lookup m k) m k v ≡ update m k v
  unfolding insert_absent
  noexist_absent m k v h = rw h

abbrev pub assoc_maps : BpfMaps
assoc_maps = record {
  Map = λ V. List (ℕ × V);
  lookup = lookup;
  update = update;
  update_noexist = λ m k v. insert_absent (lookup m k) m k v;
  delete = delete;
}

pub assoc_maps-MapLaws : MapLaws assoc_maps
assoc_maps-MapLaws = record {
  update_outcome = λ m k v. inr (lookup-update m k v);
  noexist_present = noexist_present;
  noexist_absent = noexist_absent;
  lookup-delete = lookup-delete;
  delete_makes_room = λ m k j v h. lookup-update_self (delete m k) j v;
}

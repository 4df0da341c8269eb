-- ===== src/Ring/Shared/Small/Laws.antt =====
-- The laws of the small memory.
use capstone_monitor.Prelude.{
  ℕ, zero, suc, ◌≡◌, ◌≢◌, ◌∙◌, ◌<◌, ap, refl, sym, List, [], ◌∷◌, ◌++◌, Bool, true, false, Option,
  none, some, update, if◌then◌else◌, arith, length,
}
use mathlib.Core.Path.{fun_ext}
use capstone_monitor.Ring.Shared.{ShmName, shm_name, shm_name_dash}
use capstone_monitor.Ring.Shared.Laws.{SharedLaws, same_name, naming, opening, mapping}
use capstone_monitor.Ring.Shared.Small.{
  Tables, entry, cleared, above, object_of, renamed, unused, take_fd, open_object, blank,
  map_object, small_memory, view_of,
}

entry-append :
    (xs : List (Option ℕ)) (o : Option ℕ) (j : ℕ)
    → entry (xs ++ o ∷ []) j ≡ update (entry xs) (length xs) o j
entry-append [] o zero = refl
entry-append [] o (suc j) = ground arith
entry-append (x ∷ xs) o zero = ground arith
entry-append (x ∷ xs) o (suc j) = entry-append xs o j ∙ ground arith

pub entry-cleared :
    (n : ℕ) (xs : List (Option ℕ)) (j : ℕ) → entry (cleared n xs) j ≡ update (entry xs) n none j
entry-cleared n [] j = ground arith
entry-cleared zero (x ∷ xs) zero = refl
entry-cleared zero (x ∷ xs) (suc j) = ground arith
entry-cleared (suc n) (x ∷ xs) zero = ground arith
entry-cleared (suc n) (x ∷ xs) (suc j) = entry-cleared n xs j ∙ ground arith

entry_fresh : (xs : List (Option ℕ)) → entry xs (length xs) ≡ none
entry_fresh [] = refl
entry_fresh (x ∷ xs) = entry_fresh xs

entry_below : (xs : List (Option ℕ)) (j : ℕ) {o : ℕ} → entry xs j ≡ some o → o < above xs
entry_below [] j e = absurd (ground arith)
entry_below (x ∷ xs) zero e = rw e (omega arith)
entry_below (x ∷ xs) (suc j) e = omega (arith, entry_below xs j e)

pub renamed_lem :
    (n : ShmName) (o : Option ℕ) (t : Tables) → view_of (renamed n o t) ≡ naming n o (view_of t)
renamed_lem shm_name o t = ap (λ f. record (view_of t) { named = f }) (fun_ext by_name)
  where
    by_name :
        (p : ShmName)
        → object_of p (record t { name = o }) ≡ (if same_name shm_name p then o else object_of p t)
    by_name shm_name = refl
    by_name shm_name_dash = refl
renamed_lem shm_name_dash o t = ap (λ f. record (view_of t) { named = f }) (fun_ext by_name)
  where
    by_name :
        (p : ShmName)
        → object_of p (record t { name_dash = o })
          ≡ (if same_name shm_name_dash p then o else object_of p t)
    by_name shm_name = refl
    by_name shm_name_dash = refl

took_fd :
    (t : Tables) (o : ℕ)
    → view_of (record t { fds = t.fds ++ some o ∷ [] })
      ≡ opening (length t.fds) (some o) (view_of t)
took_fd t o = ap (λ f. record (view_of t) { opened = f }) (fun_ext (entry-append t.fds (some o)))

took_address :
    (t : Tables) (o : ℕ)
    → view_of (record t { addresses = t.addresses ++ some o ∷ [] })
      ≡ mapping (length t.addresses) (some o) (view_of t)
took_address t o =
    ap (λ f. record (view_of t) { mapped = f }) (fun_ext (entry-append t.addresses (some o)))

unused_unmapped : (t : Tables) (j : ℕ) → entry t.addresses j ≢ some (unused t)
unused_unmapped t j e = omega (arith, entry_below t.addresses j e)

unused_unnamed : (t : Tables) (p : ShmName) → object_of p t ≢ some (unused t)
unused_unnamed t shm_name e = omega (arith, entry_below (t.name ∷ t.name_dash ∷ t.addresses) 0 e)
unused_unnamed t shm_name_dash e =
    omega (arith, entry_below (t.name ∷ t.name_dash ∷ t.addresses) 1 e)

-- What a successful call returned.
same_pair :
    {o fd : ℕ} {t t' : Tables}
    → ◌≡◌ {A = Option ℕ × Tables} (some o, t) (some fd, t')
    → (o ≡ fd) × (t ≡ t')
same_pair e = ground arith

pub found_fd :
    (t : Tables) (o : ℕ) {fd : ℕ} {t' : Tables}
    → take_fd o t ≡ (some fd, t')
    → (entry t.fds fd ≡ none) × (view_of t' ≡ opening fd (some o) (view_of t))
found_fd t o e = let (f, g) = same_pair e in rw (← f, ← g) (entry_fresh t.fds, took_fd t o)

pub mapped_object :
    (t : Tables) (o : ℕ) {address : ℕ} {t' : Tables}
    → map_object (some o) t ≡ (some address, t')
    → (entry t.addresses address ≡ none) × (view_of t' ≡ mapping address (some o) (view_of t))
mapped_object t o e =
    let (f, g) = same_pair e in rw (← f, ← g) (entry_fresh t.addresses, took_address t o)

pub made_object :
    (n : ShmName) (t : Tables) {fd : ℕ} {t' : Tables}
    → open_object n true none t ≡ (some fd, t')
    → (o : ℕ) × (entry t.fds fd ≡ none)
      × ((j : ℕ) → entry t.addresses j ≢ some o)
      × ((p : ShmName) → object_of p t ≢ some o)
      × (view_of t' ≡ opening fd (some o) (naming n (some o) (view_of t)))
made_object shm_name t e =
    let (free, v) = found_fd (renamed shm_name (some (unused t)) t) (unused t) e in
    (
      unused t,
      free,
      unused_unmapped t,
      unused_unnamed t,
      v ∙ ap (opening _ (some (unused t))) (renamed_lem shm_name (some (unused t)) t),
    )
made_object shm_name_dash t e =
    let (free, v) = found_fd (renamed shm_name_dash (some (unused t)) t) (unused t) e in
    (
      unused t,
      free,
      unused_unmapped t,
      unused_unnamed t,
      v ∙ ap (opening _ (some (unused t))) (renamed_lem shm_name_dash (some (unused t)) t),
    )

pub refused_open :
    (n : ShmName) (create : Bool) (o : Option ℕ) (t : Tables) {t' : Tables}
    → open_object n create o t ≡ (none, t')
    → view_of t' ≡ view_of t
refused_open n create (some o) t e = absurd (ground arith)
refused_open n true none t e = absurd (ground arith)
refused_open n false none t e = ap view_of (sym (ground arith))

pub refused_map :
    (o : Option ℕ) (t : Tables) {t' : Tables} → map_object o t ≡ (none, t') → view_of t' ≡ view_of t
refused_map none t e = ap view_of (sym (ground arith))
refused_map (some o) t e = absurd (ground arith)

pub missing_open :
    (n : ShmName) (o : Option ℕ) (t : Tables) {fd : ℕ} {t' : Tables}
    → open_object n false o t ≡ (some fd, t')
    → o ≢ none
missing_open n none t e h = absurd (ground arith)
missing_open n (some o) t e h = ground arith

abbrev pub small_memory_laws : SharedLaws small_memory
small_memory_laws = record {
  view = view_of;
  unlinked = λ n t. renamed_lem n none t;
  open_refused = λ n create mode t e. refused_open n create (object_of n t) t e;
  open_found = λ n create mode t {fd} {o} e h. found_fd t o (rw h at e);
  open_missing = λ n mode t e. missing_open n (object_of n t) t e;
  open_made = λ n mode t e h. made_object n t (rw h at e);
  fchmod_keeps = λ fd mode t. refl;
  truncates = λ fd size t h. (blank, rw h refl);
  mmap_refused = λ fd size t e. refused_map (entry t.fds fd) t e;
  maps = λ fd size t {o} e h. mapped_object t o (rw h at e);
  closed = λ fd t. ap (λ f. record (view_of t) { opened = f }) (fun_ext (entry-cleared fd t.fds));
  unmapped = λ address size t.
      ap (λ f. record (view_of t) { mapped = f }) (fun_ext (entry-cleared address t.addresses));
  loads = λ address t h. rw h refl;
  stores = λ address rb t h. rw h refl;
}

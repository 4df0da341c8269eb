-- ===== src/Daemon/Main/Memory.antt =====
-- The mappings of the two ring buffers until the end of cleanup (src/schedmon.c: main, cleanup).
use capstone_monitor.Prelude.{
  ℕ, ◌≡◌, ◌∙◌, refl, ap, List, [], ◌∷◌, Option, none, some, update, arith,
}
use capstone_monitor.Metrics.{SmoothedMetrics}
use capstone_monitor.Ring.{rb_push}
use capstone_monitor.Ring.Shared.{
  ShmName, shm_name, shm_name_dash, SharedMemory, push_at, rb_destroy, rb_destroy_dash,
}
use capstone_monitor.Ring.Shared.Laws.{View, SharedLaws, naming, mapping}
use capstone_monitor.Ring.Shared.Ownership.{SameTables, destroy_view}
use capstone_monitor.Daemon.Start.Rings.{Ready}
use capstone_monitor.Daemon.Ticks.{Push, to_rb, to_rb_dash}
use capstone_monitor.Daemon.Main.{send}

both_unmapped :
    (f g : ℕ → Option ℕ) (a b o p : ℕ)
    → f a ≡ none
    → f b ≡ none
    → ((j : ℕ) → g j ≡ update (update f a (some o)) b (some p) j)
    → (j : ℕ) → update (update g a none) b none j ≡ f j
both_unmapped f g a b o p e e' h j = ground (arith, e, e', h j)

unnamed :
    {F : Type 0} (v : View F) (n : ShmName)
    → (naming shm_name_dash none (naming shm_name none v)).named n ≡ none
unnamed v shm_name = refl
unnamed v shm_name_dash = refl

module _ {F : Type 0} (mem : SharedMemory F) (laws : SharedLaws mem) where
  open mem use {State}
  open laws use {view}

  -- The tables apart from the contents of the objects.
  abbrev SameShape : State → State → Type 0
  SameShape s s' =
      ((view s').opened ≡ (view s).opened)
      × ((view s').mapped ≡ (view s).mapped)
      × ((view s').named ≡ (view s).named)

  push_at-SameShape :
      (a o : ℕ) (m : SmoothedMetrics F) (s : State)
      → (view s).mapped a ≡ some o
      → SameShape s (push_at mem a m s).1
  unfolding push_at
  push_at-SameShape a o m s h =
      rw (laws.stores a (rb_push (mem.load a s) m).1 s h) (refl, refl, refl)

  send-SameShape :
      (a b o p : ℕ) (sent : List (Push F)) (s : State)
      → (view s).mapped a ≡ some o
      → (view s).mapped b ≡ some p
      → SameShape s (send mem a b sent s)
  unfolding send
  send-SameShape a b o p [] s ha hb = (refl, refl, refl)
  send-SameShape a b o p (to_rb m ∷ sent) s ha hb =
      let (x, y, z) = push_at-SameShape a o m s ha in
      let (x', y', z') = send-SameShape a b o p sent (push_at mem a m s).1 (rw y ha) (rw y hb) in
      (x' ∙ x, y' ∙ y, z' ∙ z)
  send-SameShape a b o p (to_rb_dash m ∷ sent) s ha hb =
      let (x, y, z) = push_at-SameShape b p m s hb in
      let (x', y', z') = send-SameShape a b o p sent (push_at mem b m s).1 (rw y ha) (rw y hb) in
      (x' ∙ x, y' ∙ y, z' ∙ z)

  -- What was sent changes nothing of what cleanup gives back, the names among it.
  pub rings_are_given_back :
      (zero : F) (s s' : State) (rb dash : ℕ) (sent : List (Push F))
      → Ready mem laws zero s rb dash s'
      → let t = rb_destroy_dash mem dash (rb_destroy mem rb (send mem rb dash sent s')) in
        SameTables (view s) (view t) × ((n : ShmName) → (view t).named n ≡ none)
  unfolding rb_destroy rb_destroy_dash
  rings_are_given_back zero s s' rb dash sent r =
      let t = send mem rb dash sent s' in
      let (x, y, z) =
        send-SameShape rb dash r.object r.dash_object sent s' (r.at_rb.0) (r.at_dash.0) in
      rw
        (
          destroy_view mem laws shm_name_dash dash (rb_destroy mem rb t),
          destroy_view mem laws shm_name rb t,
        )
        (
          (
            λ j. ap (λ f. f j) x ∙ r.same_opened j,
            both_unmapped (view s).mapped (view t).mapped rb dash r.object r.dash_object r.rb_free
                r.dash_free (λ j. ap (λ f. f j) y ∙ r.only_these j),
          ),
          unnamed (mapping rb none (view t)),
        )

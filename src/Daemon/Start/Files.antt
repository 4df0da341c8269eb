-- ===== src/Daemon/Start/Files.antt =====
-- The files that check_proc_io_access opens and closes (src/schedmon.c).
use capstone_monitor.Prelude.{
  ℕ, ◌≡◌, ◌∙◌, refl, List, [], ◌∷◌, Option, none, some, leb, Bool-cases, inl, inr,
}
use capstone_monitor.Prelude.Int.{pos}
use capstone_monitor.BpfMap.{BpfMaps}
use capstone_monitor.Perf.{Kernel, Opened, opened, refused}
use capstone_monitor.Perf.Descriptors.{KernelLaws}
use capstone_monitor.Scanner.Table.{Proc, pid_of_name}
use capstone_monitor.Daemon.{System, ProcFile}
use capstone_monitor.Daemon.Scan.{names_of}
use capstone_monitor.Daemon.Scan.Descriptors.{SameOpen, file_closed, dir_closed}
use capstone_monitor.Daemon.Slots.Descriptors.{SystemLaws}
use capstone_monitor.Daemon.Start.{
  status_looked, find_user, dir_looked, found_user, user_tried, try_user, init_tried, self_tried,
  check_proc_io_access,
}

module _ (b : BpfMaps) (k : Kernel) (laws : KernelLaws k) (sys : System b k)
    (more : SystemLaws laws sys) (proc : k.State → Proc)
    (names : k.State → Option (List (List ℕ))) where
  open k use {State}

  abbrev Same : State → State → Type 0
  Same s s' = SameOpen b k laws sys more s s'

  status_looked_keeps :
      (pid : ℕ) (s : State) (r : Opened × State)
      → sys.open_proc ProcFile.status pid s ≡ r
      → Same s (status_looked b k sys proc pid r).1
  unfolding status_looked
  status_looked_keeps pid s (refused e, s') h j = more.open_proc_refusal ProcFile.status pid s h j
  status_looked_keeps pid s (opened fd, s') h j =
      file_closed b k laws sys more ProcFile.status pid s h j

  find_user_keeps : (ns : List (List ℕ)) (s : State) → Same s (find_user b k sys proc ns s).1
  unfolding find_user
  find_user_keeps [] s j = refl
  find_user_keeps (name ∷ ns) s j =
      let pid = pid_of_name name in
      let r = status_looked b k sys proc pid (sys.open_proc ProcFile.status pid s) in
      let seen = status_looked_keeps pid s (sys.open_proc ProcFile.status pid s) refl j in
      elim (Bool-cases (leb pid 1)) [
        | inl low ↦ rw low (find_user_keeps ns s j)
        | inr high ↦ elim (Bool-cases r.0) [
          | inl user ↦ rw (high, user) seen
          | inr root ↦ rw (high, root) (find_user_keeps ns r.1 j ∙ seen)
        ]
      ]

  dir_looked_keeps :
      (s : State) (r : Opened × State)
      → sys.open_dir s ≡ r
      → Same s (dir_looked b k sys proc names r).1
  unfolding dir_looked
  dir_looked_keeps s (refused e, s') h = more.open_dir_refusal s h
  dir_looked_keeps s (opened fd, s') h =
      dir_closed b k laws sys more s _ h (find_user_keeps (names_of (names s')) s')

  try_user_keeps : (user : Option ℕ) (s : State) → Same s (try_user b k sys user s).1
  unfolding try_user user_tried
  try_user_keeps none s j = refl
  try_user_keeps (some pid) s j = tried (sys.open_proc ProcFile.io pid s) refl
    where
      tried :
          (r : Opened × State)
          → sys.open_proc ProcFile.io pid s ≡ r
          → laws.is_open (user_tried b k sys pid r).1 j ≡ laws.is_open s j
      tried (refused e, s') h = more.open_proc_refusal ProcFile.io pid s h j
      tried (opened fd, s') h = file_closed b k laws sys more ProcFile.io pid s h j

  init_tried_keeps :
      (s : State) (r : Opened × State)
      → sys.open_proc ProcFile.io 1 s ≡ r
      → Same s (init_tried b k sys proc names r).1
  unfolding init_tried found_user
  init_tried_keeps s (refused e, s') h j = more.open_proc_refusal ProcFile.io 1 s h j
  init_tried_keeps s (opened fd, s') h j =
      let t = k.close (pos fd) s' in
      try_user_keeps _ _ j
      ∙ dir_looked_keeps t (sys.open_dir t) refl j
      ∙ file_closed b k laws sys more ProcFile.io 1 s h j

  self_tried_keeps :
      (self : ℕ) (s : State) (r : Opened × State)
      → sys.open_proc ProcFile.io self s ≡ r
      → Same s (self_tried b k sys proc names r).1
  unfolding self_tried
  self_tried_keeps self s (refused e, s') h j = more.open_proc_refusal ProcFile.io self s h j
  self_tried_keeps self s (opened fd, s') h j =
      let t = k.close (pos fd) s' in
      init_tried_keeps t (sys.open_proc ProcFile.io 1 t) refl j
      ∙ file_closed b k laws sys more ProcFile.io self s h j

  -- Whatever can be opened, check_proc_io_access leaves the same descriptors open.
  pub check_keeps_descriptors :
      (self : ℕ) (s : State) → Same s (check_proc_io_access b k sys self proc names s).1
  unfolding check_proc_io_access
  check_keeps_descriptors self s = self_tried_keeps self s (sys.open_proc ProcFile.io self s) refl

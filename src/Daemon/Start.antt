-- ===== src/Daemon/Start.antt =====
-- The start of the daemon (src/schedmon.c: init_shm, check_proc_io_access). The messages are left out.
pub mod Rings
pub mod Files
mod Tests
use capstone_monitor.Prelude.{ℕ, List, [], ◌∷◌, Bool, false, Option, none, some, if◌then◌else◌, leb}
use capstone_monitor.Prelude.Int.{ℤ, pos, negsuc}
use capstone_monitor.BpfMap.{BpfMaps}
use capstone_monitor.Perf.{Kernel, Opened, opened, refused}
use capstone_monitor.Scanner.Stat.{uid_line}
use capstone_monitor.Scanner.Table.{Proc, pid_of_name}
use capstone_monitor.Ring.Shared.{SharedMemory, rb_create, rb_create_dash}
use capstone_monitor.Daemon.{System, ProcFile}
use capstone_monitor.Daemon.Scan.{text_of, names_of}

module _ {F : Type 0} (mem : SharedMemory F) (zero : F) where
  open mem use {State}

  -- From `!g_rb_dash` on; none is the call of exit(1).
  unfoldable pub dash_created : (rb : ℕ) → Option ℕ → State → Option (ℕ × ℕ) × State
  dash_created rb none s = (none, s)
  dash_created rb (some dash) s = (some (rb, dash), s)

  -- From `!g_rb` on.
  unfoldable pub rb_created : Option ℕ → State → Option (ℕ × ℕ) × State
  unfolding dash_created rb_create_dash
  rb_created none s = (none, s)
  rb_created (some rb) s = let (dash, s') = rb_create_dash mem zero s in dash_created rb dash s'

  -- g_rb and g_rb_dash, or none for exit(1).
  unfoldable pub init_shm : State → Option (ℕ × ℕ) × State
  unfolding rb_created rb_create
  init_shm s = let (rb, s') = rb_create mem zero s in rb_created rb s'

-- What check_proc_io_access tells: the file that it cannot open, if any.
pub data Access : Type 0 where
  self_unreadable : Access
  init_unreadable : Access
  user_unreadable : (pid : ℕ) → Access
  readable : Access

-- `uid > 0`, of the line "Uid:" if there is one.
unfoldable pub is_user : Option ℤ → Bool
is_user none = false
is_user (some (negsuc n)) = false
is_user (some (pos uid)) = leb 1 uid

module _ (b : BpfMaps) (k : Kernel) (sys : System b k) where
  open k use {State, close}

  module _ (proc : State → Proc) where
    unfoldable pub status_looked : (pid : ℕ) → Opened × State → Bool × State
    unfolding is_user uid_line
    status_looked pid (refused e, s) = (false, s)
    status_looked pid (opened fd, s) =
        (is_user (uid_line (text_of ((proc s).status_file pid))), close (pos fd) s)

    -- The first process of /proc, beside the first two numbers, that is not root's.
    unfoldable pub find_user : (names : List (List ℕ)) → State → Option ℕ × State
    unfolding status_looked pid_of_name
    find_user [] s = (none, s)
    find_user (name ∷ names) s =
        let pid = pid_of_name name in
        let (user, s') =
          if leb pid 1
          then (false, s)
          else status_looked pid (sys.open_proc ProcFile.status pid s) in
        let rest = find_user names s' in if user then (some pid, s') else rest

    module _ (names : State → Option (List (List ℕ))) where
      -- From `if (d)` on, with closedir behind the loop.
      unfoldable pub dir_looked : Opened × State → Option ℕ × State
      unfolding find_user
      dir_looked (refused e, s) = (none, s)
      dir_looked (opened fd, s) =
          let (user, s') = find_user (names_of (names s)) s in (user, close (pos fd) s')

      unfoldable pub found_user : State → Option ℕ × State
      unfolding dir_looked
      found_user s = dir_looked (sys.open_dir s)

  -- A file that opens is closed again.
  unfoldable pub user_tried : (pid : ℕ) → Opened × State → Access × State
  user_tried pid (refused e, s) = (user_unreadable pid, s)
  user_tried pid (opened fd, s) = (readable, close (pos fd) s)

  unfoldable pub try_user : Option ℕ → State → Access × State
  unfolding user_tried
  try_user none s = (readable, s)
  try_user (some pid) s = user_tried pid (sys.open_proc ProcFile.io pid s)

  module _ (proc : State → Proc) (names : State → Option (List (List ℕ))) where
    unfoldable pub init_tried : Opened × State → Access × State
    unfolding try_user found_user
    init_tried (refused e, s) = (init_unreadable, s)
    init_tried (opened fd, s) =
        let (user, s') = found_user proc names (close (pos fd) s) in try_user user s'

    unfoldable pub self_tried : Opened × State → Access × State
    unfolding init_tried
    self_tried (refused e, s) = (self_unreadable, s)
    self_tried (opened fd, s) = init_tried (sys.open_proc ProcFile.io 1 (close (pos fd) s))

  -- `self` is the daemon's own number, for which /proc/self stands.
  unfoldable pub check_proc_io_access :
      (self : ℕ)
      → (proc : State → Proc) → (names : State → Option (List (List ℕ))) → State
      → Access × State
  unfolding self_tried
  check_proc_io_access self proc names s = self_tried proc names (sys.open_proc ProcFile.io self s)

-- ===== src/Daemon/Options.antt =====
-- The command line (src/schedmon.c: parse_args), and the limit of open files that the daemon asks for
-- (raise_fd_limit). A string is a list of bytes; the messages are left out.
pub mod Pids
pub mod Valid
use capstone_monitor.Prelude.{
  ℕ, zero, suc, ◌+◌, ◌-◌, ◌*◌, ◌^◌, List, [], ◌∷◌, ◌++◌, Bool, true, false, not, ◌&&◌, ◌||◌, Option,
  none, some, if◌then◌else◌, ◌==◌, ltb, leb, length,
}
use capstone_monitor.Prelude.Int.{ℤ, pos, negsuc}
use capstone_monitor.CString.{same_string, strtol, tokens, atoi}
use capstone_monitor.Daemon.{max_pids}
use capstone_monitor.Daemon.Sync.{DaemonConfig}

abbrev pub default_interval : ℕ
default_interval = 50

abbrev pub default_top_n : ℕ
default_top_n = 256

abbrev pub min_uid_default : ℤ
min_uid_default = pos 0

abbrev pub linux_pid_max : ℕ
linux_pid_max = 4194304

-- The process that strtol's result names, none when the whole token is not a number of a process.
unfoldable pub pid_read : (token : List ℕ) → ℤ × List ℕ → Option ℕ
pid_read token (negsuc n, rest) = none
pid_read token (pos v, rest) =
    if length rest == length token || not (length rest == 0) || v == 0 || ltb linux_pid_max v
    then none
    else some v

unfoldable pub pid_of_token : (token : List ℕ) → Option ℕ
unfolding strtol pid_read
pid_of_token token = pid_read token (strtol token)

unfoldable pub add_read : List ℕ → Option ℕ → List ℕ
add_read pids none = pids
add_read pids (some v) = pids ++ v ∷ []

-- `while (tok && n_pids < MAX_PIDS)`
unfoldable pub add_tokens : (toks : List (List ℕ)) → (pids : List ℕ) → List ℕ
unfolding pid_of_token add_read
add_tokens [] pids = pids
add_tokens (t ∷ toks) pids =
    let rest = add_tokens toks (add_read pids (pid_of_token t)) in
    if ltb (length pids) max_pids then rest else pids

unfoldable pub top_of : ℤ → ℕ
top_of (negsuc n) = default_top_n
top_of (pos n) = if n == 0 || ltb max_pids n then default_top_n else n

unfoldable pub interval_of : ℤ → ℕ
interval_of (negsuc n) = default_interval
interval_of (pos n) = if n == 0 then default_interval else n

abbrev pub dashed : List ℕ → List ℕ
dashed name = b'-' ∷ b'-' ∷ name

abbrev pub pids_option : List ℕ
pids_option = dashed (b'p' ∷ b'i' ∷ b'd' ∷ b's' ∷ [])

abbrev pub top_option : List ℕ
top_option = dashed (b't' ∷ b'o' ∷ b'p' ∷ [])

abbrev pub interval_option : List ℕ
interval_option = dashed (b'i' ∷ b'n' ∷ b't' ∷ b'e' ∷ b'r' ∷ b'v' ∷ b'a' ∷ b'l' ∷ [])

abbrev pub csv_option : List ℕ
csv_option = dashed (b'c' ∷ b's' ∷ b'v' ∷ [])

abbrev pub min_uid_option : List ℕ
min_uid_option = dashed (b'm' ∷ b'i' ∷ b'n' ∷ b'-' ∷ b'u' ∷ b'i' ∷ b'd' ∷ [])

abbrev pub label_option : List ℕ
label_option = dashed (b'l' ∷ b'a' ∷ b'b' ∷ b'e' ∷ b'l' ∷ [])

abbrev pub terminal_option : List ℕ
terminal_option = dashed (b't' ∷ b'e' ∷ b'r' ∷ b'm' ∷ b'i' ∷ b'n' ∷ b'a' ∷ b'l' ∷ [])

abbrev pub zero_option : List ℕ
zero_option = dashed (b'z' ∷ b'e' ∷ b'r' ∷ b'o' ∷ [])

-- The options that take the next argument; none when the argument is another.
unfoldable pub set_option : (arg value : List ℕ) → DaemonConfig → Option DaemonConfig
unfolding same_string tokens add_tokens top_of interval_of atoi
set_option arg value c =
    if same_string arg pids_option
    then some (record c { pids = add_tokens (tokens b',' value) c.pids })
    else if same_string arg top_option
    then some (record c { top_n = top_of (atoi value) })
    else if same_string arg interval_option
    then some (record c { interval_ms = interval_of (atoi value) })
    else if same_string arg csv_option
    then some (record c { csv_path = some value })
    else if same_string arg min_uid_option
    then some (record c { min_uid = atoi value })
    else if same_string arg label_option
    then some (record c { label = some value })
    else none

-- The options that stand alone; any other argument is passed over.
unfoldable pub set_flag : (arg : List ℕ) → DaemonConfig → DaemonConfig
unfolding same_string
set_flag arg c =
    if same_string arg terminal_option
    then record c { terminal_mode = true }
    else if same_string arg zero_option || same_string arg (b'-' ∷ b'z' ∷ [])
    then record c { show_zero = true }
    else c

unfoldable pub parse_options : (argv : List (List ℕ)) → DaemonConfig → DaemonConfig
unfolding set_option set_flag
parse_options [] c = c
parse_options (arg ∷ []) c = set_flag arg c
parse_options (arg ∷ value ∷ argv) c = elim (set_option arg value c) [
  | some c' ↦ parse_options argv c'
  | none ↦ parse_options (value ∷ argv) (set_flag arg c)
]

-- With neither --pids nor --top all processes are watched.
unfoldable pub default_target : DaemonConfig → DaemonConfig
default_target c =
    if length c.pids == 0 && c.top_n == 0 then record c { top_n = default_top_n } else c

abbrev pub initial_config : DaemonConfig
initial_config = record {
  pids = [];
  top_n = 0;
  min_uid = min_uid_default;
  interval_ms = default_interval;
  csv_path = none;
  label = none;
  terminal_mode = false;
  show_zero = false;
}

unfoldable pub parse_args : (argv : List (List ℕ)) → DaemonConfig
unfolding parse_options default_target
parse_args argv = default_target (parse_options argv initial_config)

abbrev pub rlim_infinity : ℕ
rlim_infinity = 2 ^ 64 - 1

unfoldable pub estimated_fds : DaemonConfig → ℕ
estimated_fds c =
    let most =
      if ltb 0 (length c.pids)
      then length c.pids
      else if ltb 0 c.top_n
      then c.top_n
      else default_top_n in
    (most * 4 + 64) * 2

-- The soft limit that raise_fd_limit asks setrlimit for, given the limits that getrlimit gives (none when
-- it fails); none when it asks for nothing.
unfoldable pub raise_fd_limit : DaemonConfig → (limits : Option (ℕ × ℕ)) → Option ℕ
unfolding estimated_fds
raise_fd_limit c none = none
raise_fd_limit c (some (rlim_cur, rlim_max)) =
    if leb (estimated_fds c) rlim_cur
    then none
    else some (if rlim_max == rlim_infinity then estimated_fds c else rlim_max)

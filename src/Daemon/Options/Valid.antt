-- ===== src/Daemon/Options/Valid.antt =====
-- Whatever the command line, the configuration is one that the daemon can run with (src/schedmon.c:
-- parse_args, raise_fd_limit).
use capstone_monitor.Prelude.{
  ℕ, ◌+◌, ◌^◌, ◌≤◌, ◌<◌, ◌≡◌, ◌≢◌, refl, List, [], ◌∷◌, ◌++◌, Bool, true, false, ◌&&◌, ◌||◌, Option,
  none, some, if◌then◌else◌, ◌==◌, length, arith, length-take, Bool-cases, Option-cases, inl, inr,
}
use capstone_monitor.Prelude.Int.{ℤ, pos, negsuc}
use capstone_monitor.CString.{same_string, tokens, atoi}
use capstone_monitor.Daemon.{max_pids}
use capstone_monitor.Daemon.Sync.{DaemonConfig}
use capstone_monitor.Daemon.Options.{
  add_tokens, top_of, interval_of, set_option, set_flag, parse_options, default_target,
  initial_config, parse_args, estimated_fds, raise_fd_limit, pids_option, top_option,
  interval_option, csv_option, min_uid_option, label_option, terminal_option, zero_option,
}
use capstone_monitor.Daemon.Options.Pids.{
  AllPids, append-AllPids, take-AllPids, pids_in-AllPids, pids_in, add_tokens_lem,
}

pub record IsConfig (c : DaemonConfig) : Type 0 where
  pub pids_within : length c.pids ≤ max_pids
  pub pids_in_range : AllPids c.pids
  pub top_within : c.top_n ≤ max_pids
  pub interval_positive : 0 < c.interval_ms

add_tokens-IsConfig :
    (toks : List (List ℕ)) (c : DaemonConfig)
    → IsConfig c
    → IsConfig (record c { pids = add_tokens toks c.pids })
add_tokens-IsConfig toks c v = record {
  pids_within =
      rw (add_tokens_lem toks c.pids v.pids_within)
        (omega (arith, length-take max_pids (c.pids ++ pids_in toks)));
  pids_in_range = rw (add_tokens_lem toks c.pids v.pids_within) (
      take-AllPids max_pids (c.pids ++ pids_in toks)
        (append-AllPids c.pids (pids_in toks) v.pids_in_range (pids_in-AllPids toks)));
  top_within = v.top_within;
  interval_positive = v.interval_positive;
}

top_of_within : (z : ℤ) → (0 < top_of z) × (top_of z ≤ max_pids)
unfolding top_of
top_of_within (negsuc n) = (omega arith, omega arith)
top_of_within (pos n) = ground arith

interval_of_positive : (z : ℤ) → 0 < interval_of z
unfolding interval_of
interval_of_positive (negsuc n) = omega arith
interval_of_positive (pos n) = ground arith

-- What IsConfig asks of the other fields, for a configuration with the same processes.
with_pids_of :
    (c c' : DaemonConfig)
    → c'.pids ≡ c.pids
    → c'.top_n ≤ max_pids
    → 0 < c'.interval_ms
    → IsConfig c
    → IsConfig c'
with_pids_of c c' same top interval v = record {
  pids_within = rw same v.pids_within;
  pids_in_range = rw same v.pids_in_range;
  top_within = top;
  interval_positive = interval;
}

with_limits_of :
    (c c' : DaemonConfig)
    → c'.pids ≡ c.pids
    → c'.top_n ≡ c.top_n
    → c'.interval_ms ≡ c.interval_ms
    → IsConfig c
    → IsConfig c'
with_limits_of c c' p t i v = with_pids_of c c' p (rw t v.top_within) (rw i v.interval_positive) v

data OptionIsConfig : Option DaemonConfig → Type 0 where
  not_taken : OptionIsConfig none
  taken : {c : DaemonConfig} → IsConfig c → OptionIsConfig (some c)

taken-IsConfig : {c : DaemonConfig} → OptionIsConfig (some c) → IsConfig c
taken-IsConfig (taken v) = v

choose-IsConfig :
    (t : Bool) (c : DaemonConfig) (o : Option DaemonConfig)
    → IsConfig c
    → OptionIsConfig o
    → OptionIsConfig (if t then some c else o)
choose-IsConfig true c o v w = taken v
choose-IsConfig false c o v w = w

flag-IsConfig :
    (t : Bool) (c c' : DaemonConfig) → IsConfig c → IsConfig c' → IsConfig (if t then c else c')
flag-IsConfig true c c' v w = v
flag-IsConfig false c c' v w = w

set_option-IsConfig :
    (arg value : List ℕ) (c : DaemonConfig) → IsConfig c → OptionIsConfig (set_option arg value c)
unfolding set_option
set_option-IsConfig arg value c v =
    choose-IsConfig (same_string arg pids_option) _ _ (add_tokens-IsConfig (tokens b',' value) c v)
      (choose-IsConfig (same_string arg top_option) (record c { top_n = top_of (atoi value) }) _
        (with_pids_of c _ refl ((top_of_within (atoi value)).1) v.interval_positive v)
        (choose-IsConfig (same_string arg interval_option)
          (record c { interval_ms = interval_of (atoi value) }) _
          (with_pids_of c _ refl v.top_within (interval_of_positive (atoi value)) v)
          (choose-IsConfig (same_string arg csv_option) (record c { csv_path = some value }) _
            (with_limits_of c _ refl refl refl v)
            (choose-IsConfig (same_string arg min_uid_option) (record c { min_uid = atoi value }) _
              (with_limits_of c _ refl refl refl v)
              (choose-IsConfig (same_string arg label_option) (record c { label = some value }) none
                (with_limits_of c _ refl refl refl v) not_taken)))))

set_flag-IsConfig : (arg : List ℕ) (c : DaemonConfig) → IsConfig c → IsConfig (set_flag arg c)
unfolding set_flag
set_flag-IsConfig arg c v =
    flag-IsConfig (same_string arg terminal_option) (record c { terminal_mode = true }) _
      (with_limits_of c _ refl refl refl v)
      (flag-IsConfig (same_string arg zero_option || same_string arg (b'-' ∷ b'z' ∷ []))
        (record c { show_zero = true }) c (with_limits_of c _ refl refl refl v) v)

parse_options-IsConfig :
    (argv : List (List ℕ)) (c : DaemonConfig) → IsConfig c → IsConfig (parse_options argv c)
unfolding parse_options
parse_options-IsConfig [] c v = v
parse_options-IsConfig (arg ∷ []) c v = set_flag-IsConfig arg c v
parse_options-IsConfig (arg ∷ value ∷ argv) c v = elim (Option-cases (set_option arg value c)) [
  | inl e ↦
      rw (e, parse_options)
        (parse_options-IsConfig (value ∷ argv) (set_flag arg c) (set_flag-IsConfig arg c v))
  | inr (c', e) ↦
      let v' : OptionIsConfig (some c') = rw e at (set_option-IsConfig arg value c v) in
      rw (e, parse_options) (parse_options-IsConfig argv c' (taken-IsConfig v'))
]

default_target-IsConfig :
    (c : DaemonConfig)
    → IsConfig c
    → IsConfig (default_target c) × (length (default_target c).pids + (default_target c).top_n ≢ 0)
unfolding default_target
default_target-IsConfig c v = elim (Bool-cases (length c.pids == 0 && c.top_n == 0)) [
  | inl none_given ↦
      rw none_given
        (with_pids_of c _ refl (omega arith) v.interval_positive v, λ e. omega (arith, e))
  | inr given ↦ rw given (v, ground (arith, given))
]

-- Whatever the command line, parse_args gives at most MAX_PIDS processes, each numbered from 1 to
-- LINUX_PID_MAX, a --top of at most MAX_PIDS, and an interval above 0, and there is something to watch:
-- a process, or a --top above 0.
pub parse_args-IsConfig :
    (argv : List (List ℕ))
    → IsConfig (parse_args argv) × (length (parse_args argv).pids + (parse_args argv).top_n ≢ 0)
unfolding parse_args
parse_args-IsConfig argv = default_target-IsConfig _ (
    parse_options-IsConfig argv initial_config (record {
      pids_within = omega arith;
      pids_in_range = tt;
      top_within = omega arith;
      interval_positive = omega arith;
    }))

-- raise_fd_limit asks for a soft limit up to the hard one, and only when the estimate of what a valid
-- configuration needs is above the present one.
pub raise_fd_limit-le :
    (c : DaemonConfig) (rlim_cur rlim_max : ℕ) {target : ℕ}
    → rlim_max < 2 ^ 64
    → IsConfig c
    → raise_fd_limit c (some (rlim_cur, rlim_max)) ≡ some target
    → (target ≤ rlim_max) × (rlim_cur < estimated_fds c)
unfolding raise_fd_limit estimated_fds
raise_fd_limit-le c rlim_cur rlim_max w v h = ground (arith, v.pids_within, v.top_within)

-- ===== src/Scanner/Stat.antt =====
-- Reading /proc/PID/stat and /proc/PID/status (src/proc_scanner.c: skip_fields, read_proc_stat,
-- read_proc_uid). The files are texts; `none` is a file that cannot be opened.
pub mod Parse
use capstone_monitor.Prelude.{
  ℕ, zero, suc, ◌+◌, ◌-◌, ◌%◌, ◌^◌, List, [], ◌∷◌, Bool, true, false, Option, none, some,
  if◌then◌else◌, ◌==◌, ltb, length, take, drop,
}
use capstone_monitor.Prelude.Int.{ℤ, negsuc}
use capstone_monitor.CString.{skip_space, strtoul, atoi, strchr, strrchr, starts_with, fgets}

skip_word : List ℕ → List ℕ
skip_word [] = []
skip_word (c ∷ p) = if c == b' ' then c ∷ p else skip_word p

skip_blanks : List ℕ → List ℕ
skip_blanks [] = []
skip_blanks (c ∷ p) = if c == b' ' then skip_blanks p else c ∷ p

-- `p` is the string at the pointer.
unfoldable pub skip_fields : List ℕ → (count : ℕ) → List ℕ
unfolding skip_word skip_blanks
skip_fields p zero = p
skip_fields p (suc count) = skip_fields (skip_blanks (skip_word p)) count

-- What a call of `read_proc_stat` leaves in `*out`. `overrun` is the write before the start of
-- `out->comm` that a line with its last ')' before its first '(' leads to.
pub data StatResult : Type 0 where
  failed : StatResult
  overrun : StatResult
  parsed : (comm : List ℕ) → (utime stime : ℕ) → StatResult

-- the two counters, from the string behind the field `state` on
parse_ticks : (comm : List ℕ) → List ℕ → StatResult
parse_ticks comm rest =
    let (utime, next) = strtoul (skip_fields rest 11) in parsed comm utime (strtoul next).0

-- `from_open` and `from_close` are the strings at `comm_start` and `comm_end`.
parse_from : (fetch_comm : Bool) → (from_open from_close : List ℕ) → StatResult
unfolding parse_ticks
parse_from false from_open from_close = parse_ticks [] (drop 2 from_close)
parse_from true from_open from_close =
    if ltb (length from_open) (length from_close)
    then overrun
    else parse_ticks (take 15 (take (length from_open - length from_close - 1) (drop 1 from_open)))
        (drop 2 from_close)

unfoldable pub parse_stat : (fetch_comm : Bool) → List ℕ → StatResult
unfolding parse_from
parse_stat fetch_comm line = elim (strchr b'(' line) [
  | none ↦ failed
  | some from_open ↦ elim (strrchr b')' line) [
    | none ↦ failed
    | some from_close ↦ parse_from fetch_comm from_open from_close
  ]
]

unfoldable pub parse_line : (fetch_comm : Bool) → List ℕ → StatResult
unfolding parse_stat
parse_line fetch_comm [] = failed
parse_line fetch_comm (c ∷ line) = parse_stat fetch_comm (c ∷ line)

unfoldable pub read_proc_stat : (stat_file : Option (List ℕ)) → (fetch_comm : Bool) → StatResult
unfolding parse_stat parse_line
read_proc_stat none fetch_comm = failed
read_proc_stat (some text) fetch_comm = parse_line fetch_comm (fgets 511 text).0

-- One round of the loop over the lines of /proc/PID/status; `later` is what the next rounds give,
-- and an empty `line` is the end of the file.
uid_of_line : (line : List ℕ) → (later : Option ℤ) → Option ℤ
uid_of_line [] later = none
uid_of_line (c ∷ line) later =
    if starts_with (b'U' ∷ b'i' ∷ b'd' ∷ b':' ∷ []) (c ∷ line)
    then some (atoi (skip_space (drop 4 (c ∷ line))))
    else later

-- The loop on fuel: every round takes a byte of the text or more. It gives the uid of the return inside
-- it, or none at the end of the file.
uid_loop : (fuel : ℕ) → List ℕ → Option ℤ
uid_loop zero text = none
uid_loop (suc fuel) text =
    let (line, rest) = fgets 127 text in let later = uid_loop fuel rest in uid_of_line line later

unfoldable pub uid_line : (text : List ℕ) → Option ℤ
unfolding uid_of_line uid_loop
uid_line text = uid_loop (suc (length text)) text

abbrev pub or_unknown : Option ℤ → ℤ
or_unknown none = negsuc 0
or_unknown (some uid) = uid

unfoldable pub read_proc_uid : (status_file : Option (List ℕ)) → ℤ
unfolding uid_line
read_proc_uid none = negsuc 0
read_proc_uid (some text) = or_unknown (uid_line text)

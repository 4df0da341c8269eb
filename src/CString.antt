-- ===== src/CString.antt =====
-- The functions of the C library on strings that the daemon calls. A string is the list of its bytes,
-- without the terminator.
pub mod Numbers
pub mod Search
use capstone_monitor.Prelude.{
  ℕ, zero, suc, ◌+◌, ◌-◌, ◌*◌, ◌%◌, ◌^◌, List, [], ◌∷◌, ◌++◌, Bool, true, false, ◌&&◌, ◌||◌, Option,
  none, some, if◌then◌else◌, ◌==◌, ltb, leb,
}
use capstone_monitor.Prelude.Int.{ℤ, pos, negsuc}

abbrev pub is_digit : ℕ → Bool
is_digit c = leb b'0' c && leb c b'9'

-- isspace in the C locale: tab to carriage return, and the space
abbrev pub is_space : ℕ → Bool
is_space c = (leb 9 c && leb c 13) || c == b' '

unfoldable pub skip_space : List ℕ → List ℕ
skip_space [] = []
skip_space (c ∷ s) = if is_space c then skip_space s else c ∷ s

-- The value of the digits at the front of a string, after `acc`, and what follows them.
unfoldable pub digits : ℕ → List ℕ → ℕ × List ℕ
digits acc [] = (acc, [])
digits acc (c ∷ s) =
    let more = digits (acc * 10 + (c - b'0')) s in if is_digit c then more else (acc, c ∷ s)

abbrev pub ulong_max : ℕ
ulong_max = 2 ^ 64 - 1

abbrev pub starts_with_digit : List ℕ → Bool
starts_with_digit [] = false
starts_with_digit (c ∷ s) = is_digit c

-- The number after the sign; without a digit nothing is converted and the end is `all`.
unfoldable pub unsigned_number : (negative : Bool) → (all s : List ℕ) → ℕ × List ℕ
unfolding digits
unsigned_number negative all s =
    if starts_with_digit s
    then (let (v, rest) = digits 0 s in
        (
          if ltb ulong_max v then ulong_max else if negative then (2 ^ 64 - v) % 2 ^ 64 else v,
          rest,
        ))
    else (0, all)

unfoldable pub after_sign_ulong : (all s : List ℕ) → ℕ × List ℕ
unfolding unsigned_number
after_sign_ulong all [] = (0, all)
after_sign_ulong all (c ∷ s) =
    if c == b'-'
    then unsigned_number true all s
    else if c == b'+'
    then unsigned_number false all s
    else unsigned_number false all (c ∷ s)

-- strtoul(s, &end, 10): the value, and the string at `end`
unfoldable pub strtoul : List ℕ → ℕ × List ℕ
unfolding after_sign_ulong skip_space
strtoul s = after_sign_ulong s (skip_space s)

abbrev pub to_int : (negative : Bool) → ℕ → ℤ
to_int false n = pos n
to_int true zero = pos 0
to_int true (suc n) = negsuc n

unfoldable pub after_sign_int : List ℕ → ℤ
unfolding digits
after_sign_int [] = pos 0
after_sign_int (c ∷ s) =
    if c == b'-'
    then to_int true (digits 0 s).0
    else if c == b'+'
    then to_int false (digits 0 s).0
    else to_int false (digits 0 (c ∷ s)).0

-- The nearest value of type `long`.
abbrev in_long : ℤ → ℤ
in_long (pos n) = pos (if ltb n (2 ^ 63) then n else 2 ^ 63 - 1)
in_long (negsuc n) = negsuc (if ltb n (2 ^ 63) then n else 2 ^ 63 - 1)

-- The conversion to `int`, of 32 bits.
abbrev cast_int : ℤ → ℤ
cast_int (pos n) = let r = n % 2 ^ 32 in if ltb r (2 ^ 31) then pos r else negsuc (2 ^ 32 - 1 - r)
cast_int (negsuc n) =
    let r = n % 2 ^ 32 in if ltb r (2 ^ 31) then negsuc r else pos (2 ^ 32 - 1 - r)

-- atoi(s), which the C library defines as (int) strtol(s, NULL, 10)
unfoldable pub atoi : List ℕ → ℤ
unfolding after_sign_int skip_space
atoi s = cast_int (in_long (after_sign_int (skip_space s)))

-- strchr(s, c): the string from the first `c` on
unfoldable pub strchr : ℕ → List ℕ → Option (List ℕ)
strchr c [] = none
strchr c (x ∷ s) = if x == c then some (x ∷ s) else strchr c s

-- strrchr(s, c): the string from the last `c` on
unfoldable pub strrchr : ℕ → List ℕ → Option (List ℕ)
strrchr c [] = none
strrchr c (x ∷ s) = elim (strrchr c s) [
  | some t ↦ some t
  | none ↦ if x == c then some (x ∷ s) else none
]

-- strncmp(s, prefix, strlen(prefix)) == 0
unfoldable pub starts_with : List ℕ → List ℕ → Bool
starts_with [] s = true
starts_with (p ∷ ps) [] = false
starts_with (p ∷ ps) (c ∷ s) = p == c && starts_with ps s

-- fgets into a buffer with room for `room` bytes beside the terminator: the line, with its newline if
-- that fits, and the rest of the text. At the end of the text the line is empty.
unfoldable pub fgets : (room : ℕ) → List ℕ → List ℕ × List ℕ
fgets zero s = ([], s)
fgets (suc room) [] = ([], [])
fgets (suc room) (c ∷ s) =
    let (line, rest) = fgets room s in if c == b'\n' then (c ∷ [], s) else (c ∷ line, rest)

-- strcmp(s, t) == 0
unfoldable pub same_string : List ℕ → List ℕ → Bool
same_string [] [] = true
same_string [] (d ∷ t) = false
same_string (c ∷ s) [] = false
same_string (c ∷ s) (d ∷ t) = c == d && same_string s t

-- A `long` stops at its bounds.
unfoldable pub to_long : (negative : Bool) → ℕ → ℤ
to_long false n = pos (if ltb n (2 ^ 63) then n else 2 ^ 63 - 1)
to_long true n = to_int true (if ltb (2 ^ 63) n then 2 ^ 63 else n)

-- The number after the sign; without a digit nothing is converted and the end is `all`.
unfoldable pub signed_number : (negative : Bool) → (all s : List ℕ) → ℤ × List ℕ
unfolding digits to_long
signed_number negative all s =
    if starts_with_digit s
    then (let (v, rest) = digits 0 s in (to_long negative v, rest))
    else (pos 0, all)

unfoldable pub after_sign_long : (all s : List ℕ) → ℤ × List ℕ
unfolding signed_number
after_sign_long all [] = (pos 0, all)
after_sign_long all (c ∷ s) =
    if c == b'-'
    then signed_number true all s
    else if c == b'+'
    then signed_number false all s
    else signed_number false all (c ∷ s)

-- strtol(s, &end, 10): the value, and the string at `end`
unfoldable pub strtol : List ℕ → ℤ × List ℕ
unfolding after_sign_long skip_space
strtol s = after_sign_long s (skip_space s)

-- A token that has come to its end; strtok_r gives no empty one.
unfoldable pub end_token : (token : List ℕ) → (more : List (List ℕ)) → List (List ℕ)
end_token [] more = more
end_token (c ∷ token) more = (c ∷ token) ∷ more

-- The tokens that calls of strtok_r with the separator `sep` give one after the other, the first of
-- which has begun with `token`.
unfoldable pub tokens_after : (sep : ℕ) → (token s : List ℕ) → List (List ℕ)
unfolding end_token
tokens_after sep token [] = end_token token []
tokens_after sep token (c ∷ s) = elim (c == sep) [
  | true ↦ end_token token (tokens_after sep [] s)
  | false ↦ tokens_after sep (token ++ c ∷ []) s
]

unfoldable pub tokens : (sep : ℕ) → List ℕ → List (List ℕ)
unfolding tokens_after
tokens sep s = tokens_after sep [] s

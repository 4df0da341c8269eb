-- ===== src/Prelude/Bits.antt =====
-- Truth values counted as 0 and 1: what is taken and given back, as sums.
use capstone_monitor.Prelude.{ℕ, ◌+◌, ◌≡◌, Bool, true, false, not, ◌&&◌, ◌||◌, arith, if◌then◌else◌}

abbrev pub bit : Bool → ℕ
bit true = 1
bit false = 0

pub bit_injective : (o o' : Bool) → bit o ≡ bit o' → o ≡ o'
bit_injective o o' e = ground arith

pub bit_taken : (o t : Bool) (c : ℕ) → bit o ≡ c + bit t → bit (o && not t) ≡ c
bit_taken o t c h = ground arith

pub bit_opened :
    (o o' t : Bool) → o' ≡ (if t then true else o) → (t ≡ true → o ≡ false) → bit o' ≡ bit o + bit t
bit_opened o o' t e h = ground arith

pub bit_closed :
    (o o' t : Bool) (c : ℕ) → o' ≡ (if t then false else o) → bit o ≡ c + bit t → bit o' ≡ c
bit_closed o o' t c e h = ground arith

pub bit_added : (o t o' : Bool) → o' ≡ (o || t) → (o && t) ≡ false → bit o' ≡ bit o + bit t
bit_added o t o' e n = ground arith

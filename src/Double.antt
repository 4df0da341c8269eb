-- ===== src/Double.antt =====
-- The C type `double`. Its arithmetic is the machine's, so it is a parameter of the model: a carrier
-- with the operations and conversions that the daemon uses, about which nothing is assumed. Where a
-- result depends on rounding, `IntegersAreExact` states what IEEE 754 guarantees of whole numbers.
use capstone_monitor.Prelude.{ℕ, ◌+◌, ◌-◌, ◌≤◌, ◌≡◌, Bool}

pub record Double : Type 1 where
  pub F : Type 0
  pub zero : F
  pub add : F → F → F
  pub sub : F → F → F
  pub mul : F → F → F
  pub div : F → F → F
  -- the tests `a < b` and, for `a > b`, `lt b a`
  pub lt : F → F → Bool
  -- the conversion of an unsigned integer
  pub of_nat : ℕ → F
  -- the literal `m * 10^-e`, rounded
  pub decimal : ℕ → ℕ → F

-- Sums and differences of whole numbers up to `limit` (2^53 for an IEEE double) are not rounded.
pub record IntegersAreExact (d : Double) (limit : ℕ) : Type 0 where
  pub zero_exact : d.zero ≡ d.of_nat 0
  pub add_exact : (a b : ℕ) → a + b ≤ limit → d.add (d.of_nat a) (d.of_nat b) ≡ d.of_nat (a + b)
  pub sub_exact : (a b : ℕ) → b ≤ a → a ≤ limit → d.sub (d.of_nat a) (d.of_nat b) ≡ d.of_nat (a - b)

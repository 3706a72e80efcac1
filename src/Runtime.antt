-- ===== src/Runtime.antt =====
-- What the code takes from third parties and from the JavaScript runtime, as interfaces: the
-- decimals of `Prisma.Decimal` (Backend/src/shared/money.ts wraps them), and the dates, the printing
-- of numbers and the ordering of texts. Each law is documented behaviour.
pub mod Whole
use orvex.Prelude.{ℕ, ◌+◌, ◌*◌, ◌<◌, String, ◌≡◌, ◌↔◌, Bool, true, Option}
use orvex.Prelude.Int.{ℤ, pos, pos_part, neg_part, ◌+ℤ◌, ◌-ℤ◌, ◌≤ℤ◌}
use Prim.Native.Nat.{◌^◌}

-- A multiple of `step`, which may be negative.
abbrev pub IsMultiple : ℕ → ℤ → Type 0
IsMultiple step z = (p : ℕ) × ((q : ℕ) × (pos_part z + q * step ≡ neg_part z + p * step))

-- Less than `cap` away from zero.
abbrev pub IsBelow : ℕ → ℤ → Type 0
IsBelow cap z = (pos_part z < cap + neg_part z) × (neg_part z < cap + pos_part z)

-- No digit but the first twenty before the last `k` ones differs from zero: the integers that a
-- decimal of twenty significant digits can hold, its last digit counting 10^k.
abbrev pub IsShort : ℕ → ℤ → Type 0
IsShort k z = IsMultiple (10 ^ k) z × IsBelow (10 ^ (20 + k)) z

-- The decimals that the money columns hold, at most eighteen fractional digits. `units` is the
-- value counted in units of 10^-18, which no code computes. Comparisons are exact; a sum and a
-- difference are rounded to twenty significant digits, decimal.js's default, which the code does
-- not change, and so are known to be exact only where the exact result has no more.
pub record Decimals : Type 1 where
  pub Decimal : Type 0
  -- `new Prisma.Decimal(text)`; `none` where it throws
  pub parse : String → Option Decimal
  pub print : Decimal → String
  pub zero_decimal : Decimal
  pub less_than_or_equal_to : Decimal → Decimal → Bool
  pub less_than : Decimal → Decimal → Bool
  pub greater_than_or_equal_to : Decimal → Decimal → Bool
  pub greater_than : Decimal → Decimal → Bool
  pub equals : Decimal → Decimal → Bool
  pub plus : Decimal → Decimal → Decimal
  pub minus : Decimal → Decimal → Decimal
  pub units : Decimal → ℤ
  pub zero_units : units zero_decimal ≡ pos 0
  pub plus_units :
      (a b : Decimal) (k : ℕ)
      → IsShort k (units a +ℤ units b)
      → units (plus a b) ≡ units a +ℤ units b
  pub minus_units :
      (a b : Decimal) (k : ℕ)
      → IsShort k (units a -ℤ units b)
      → units (minus a b) ≡ units a -ℤ units b
  pub lte_iff : (a b : Decimal) → (less_than_or_equal_to a b ≡ true) ↔ (units a ≤ℤ units b)
  pub gt_iff : (a b : Decimal) → (greater_than a b ≡ true) ↔ (¬ (units a ≤ℤ units b))
  pub equals_iff : (a b : Decimal) → (equals a b ≡ true) ↔ (units a ≡ units b)

-- What the code uses of JavaScript's dates, numbers and texts.
pub record Host : Type 0 where
  -- `new Date(text).getTime()` in milliseconds since 1970; `none` is NaN
  pub get_time : String → Option ℕ
  -- `new Date(text).getUTCHours()`; `none` is NaN
  pub get_utc_hours : String → Option ℕ
  -- `String(n)` of a whole number
  pub show_number : ℕ → String
  -- `a.localeCompare(b) <= 0`
  pub locale_before : String → String → Bool

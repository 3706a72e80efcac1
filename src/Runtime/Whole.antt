-- ===== src/Runtime/Whole.antt =====
-- Decimals that are whole numbers, with which the interface of decimals is met: the tests run on
-- them.
use Prim.Native.Char.{code}
use orvex.Prelude.{
  ℕ, ◌+◌, ◌-◌, ◌*◌, String, ◌≡◌, refl, ◌↔◌, Bool, true, not, ◌&&◌, Option, none, some, List, [],
  ◌∷◌, arith, leb, ◌==◌, if◌then◌else◌,
}
use orvex.Prelude.Int.{ℤ, pos, ◌+ℤ◌, ◌-ℤ◌, ◌≤ℤ◌, leb_ℤ, leb_ℤ_iff}
use orvex.Runtime.{Decimals}

abbrev codes : String → List ℕ
codes String.[] = []
codes (String.◌∷◌ c s) = code c ∷ codes s

abbrev digits : ℕ → List ℕ → Option ℕ
digits n [] = some n
digits n (c ∷ cs) = if leb b'0' c && leb c b'9' then digits (n * 10 + (c - b'0')) cs else none

abbrev signed : Option ℕ → Option ℤ
signed none = none
signed (some n) = some (pos 0 -ℤ pos n)

abbrev plain : Option ℕ → Option ℤ
plain none = none
plain (some n) = some (pos n)

abbrev read : List ℕ → Option ℤ
read [] = none
read (c ∷ cs) = if c == b'-' then signed (digits 0 cs) else plain (digits 0 (c ∷ cs))

abbrev greater : ℤ → ℤ → Bool
greater a b = not (leb_ℤ a b)

abbrev same : ℤ → ℤ → Bool
same a b = leb_ℤ a b && leb_ℤ b a

pub greater_iff : (a b : ℤ) → (greater a b ≡ true) ↔ (¬ (a ≤ℤ b))
greater_iff a b = ground arith

pub same_iff : (a b : ℤ) → (same a b ≡ true) ↔ (a ≡ b)
same_iff a b = ground arith

abbrev pub whole : Decimals
whole = record {
  Decimal = ℤ;
  parse = λ s. read (codes s);
  print = λ _. "";
  zero_decimal = pos 0;
  less_than_or_equal_to = leb_ℤ;
  less_than = λ a b. greater b a;
  greater_than_or_equal_to = λ a b. leb_ℤ b a;
  greater_than = greater;
  equals = same;
  plus = ◌+ℤ◌;
  minus = ◌-ℤ◌;
  units = λ a. a;
  zero_units = refl;
  plus_units = λ a b k h. refl;
  minus_units = λ a b k h. refl;
  lte_iff = leb_ℤ_iff;
  gt_iff = greater_iff;
  equals_iff = same_iff;
}

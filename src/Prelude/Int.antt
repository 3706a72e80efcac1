-- ===== src/Prelude/Int.antt =====
-- Signed integers over the native numbers.
use Prim.Native.Nat.{ℕ, suc, ◌+◌, ◌-◌, ◌≤◌}
use mathlib.Core.Path.{◌≡◌, refl, ap}
use mathlib.Core.Bool.{Bool, true}
use mathlib.Core.Logic.{◌↔◌}
use native.Mathlib.Omega.{arith}
use orvex.Prelude.Tests.{leb, if◌then◌else◌}

-- `negsuc n` is -(n + 1).
pub data ℤ : Type 0 where
  pos : ℕ → ℤ
  negsuc : ℕ → ℤ

abbrev pub pos_part : ℤ → ℕ
pos_part (pos n) = n
pos_part (negsuc n) = 0

abbrev pub neg_part : ℤ → ℕ
neg_part (pos n) = 0
neg_part (negsuc n) = suc n

-- a - b, as an integer.
abbrev pub sub_ℕ : ℕ → ℕ → ℤ
sub_ℕ a b = if leb b a then pos (a - b) else negsuc (b - a - 1)

infixl 65 ◌+ℤ◌ ◌-ℤ◌
infix 50 ◌≤ℤ◌
unfoldable pub ◌+ℤ◌ : ℤ → ℤ → ℤ
a +ℤ b = sub_ℕ (pos_part a + pos_part b) (neg_part a + neg_part b)

unfoldable pub ◌-ℤ◌ : ℤ → ℤ → ℤ
a -ℤ b = sub_ℕ (pos_part a + neg_part b) (neg_part a + pos_part b)

abbrev pub ◌≤ℤ◌ : ℤ → ℤ → Type 0
a ≤ℤ b = pos_part a + neg_part b ≤ pos_part b + neg_part a

abbrev pub leb_ℤ : ℤ → ℤ → Bool
leb_ℤ a b = leb (pos_part a + neg_part b) (pos_part b + neg_part a)

pub leb_ℤ_iff : (a b : ℤ) → (leb_ℤ a b ≡ true) ↔ (a ≤ℤ b)
leb_ℤ_iff a b = ground arith

-- One lemma for each operation lets `omega` work with the operations shut.
pub +ℤ_parts :
    (a b : ℤ)
    → pos_part (a +ℤ b) + neg_part a + neg_part b ≡ neg_part (a +ℤ b) + pos_part a + pos_part b
unfolding ◌+ℤ◌
+ℤ_parts a b = ground arith

pub -ℤ_parts :
    (a b : ℤ)
    → pos_part (a -ℤ b) + neg_part a + pos_part b ≡ neg_part (a -ℤ b) + pos_part a + neg_part b
unfolding ◌-ℤ◌
-ℤ_parts a b = ground arith

pub eq_of_parts : (a b : ℤ) → pos_part a + neg_part b ≡ pos_part b + neg_part a → a ≡ b
eq_of_parts a b h = ground arith

pub ruleset int_laws = (arith, +ℤ_parts, -ℤ_parts, eq_of_parts)

-- Two quantities that start equal and move by the same amount stay equal.
pub shift_eq : (x x' t t' w w' : ℤ) → x' +ℤ w ≡ x +ℤ w' → t' +ℤ w ≡ t +ℤ w' → x ≡ t → x' ≡ t'
shift_eq x x' t t' w w' h k e = omega (
  int_laws,
  ap pos_part h,
  ap neg_part h,
  ap pos_part k,
  ap neg_part k,
  ap pos_part e,
  ap neg_part e,
)

pub shift_zero : (t t' w w' : ℤ) → t' +ℤ w ≡ t +ℤ w' → w ≡ pos 0 → w' ≡ pos 0 → t' ≡ t
shift_zero t t' w w' h z z' = shift_eq t t' t t w w' h (rw (z, z')) refl

pub add_eq_zero : (t t' w : ℤ) → t' ≡ t +ℤ w → w ≡ pos 0 → t' ≡ t
add_eq_zero t t' w h z =
    omega (int_laws, ap pos_part h, ap neg_part h, ap pos_part z, ap neg_part z)

pub shift_same : (t t' w w' : ℤ) → t' +ℤ w ≡ t +ℤ w' → w ≡ w' → t' ≡ t
shift_same t t' w w' h e = shift_eq t t' t t w w' h (rw e) refl

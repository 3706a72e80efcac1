-- ===== src/Prelude/Lists.antt =====
-- Lists measured by native numbers, Boolean searches in lists, and the predicates on lists.
use Prim.Native.Nat.{ℕ, suc, ◌+◌}
use Prim.Native.String.{String}
use mathlib.Core.Path.{◌≡◌}
use mathlib.Core.Logic.{inl, inr}
use mathlib.Core.Bool.{Bool, true, false, ◌||◌, ◌&&◌}
use mathlib.Core.List.{List, [], ◌∷◌, ◌++◌, Memᴰ}
use native.Mathlib.Omega.{arith}
use orvex.Prelude.Tests.{if◌then◌else◌, text_eq, text_eq_iff, Bool-cases}

module _ {ℓ} {A : Type ℓ} where
  abbrev pub length : List A → ℕ
  length [] = 0
  length (x ∷ xs) = suc (length xs)

  -- `xs.some(p)`, `xs.every(p)` and `xs.filter(p)`.
  abbrev pub any : (A → Bool) → List A → Bool
  any p [] = false
  any p (x ∷ xs) = p x || any p xs

  abbrev pub all : (A → Bool) → List A → Bool
  all p [] = true
  all p (x ∷ xs) = p x && all p xs

  abbrev pub filter : (A → Bool) → List A → List A
  filter p [] = []
  filter p (x ∷ xs) = if p x then x ∷ filter p xs else filter p xs

  abbrev pub All {κ} : (A → Type κ) → List A → Type κ
  All P [] = Unit
  All P (x ∷ xs) = P x × All P xs

  pub All-append {κ} : (P : A → Type κ) (xs ys : List A) → All P xs → All P ys → All P (xs ++ ys)
  All-append P [] ys hx hy = hy
  All-append P (x ∷ xs) ys hx hy = (hx.0, All-append P xs ys hx.1 hy)

  pub length-append : (xs ys : List A) → length (xs ++ ys) ≡ length xs + length ys
  length-append [] ys = omega arith
  length-append (x ∷ xs) ys = omega (arith, length-append xs ys)

-- `xs.includes(s)` on texts.
abbrev pub includes : List String → String → Bool
includes xs s = any (text_eq s) xs

pub mem_of_includes : (xs : List String) (s : String) → includes xs s ≡ true → Memᴰ s xs
mem_of_includes [] s h = cc
mem_of_includes (x ∷ xs) s h = elim (Bool-cases (text_eq s x)) [
  | inl e ↦ Memᴰ.head ((text_eq_iff s x).0 e)
  | inr n ↦ Memᴰ.tail (mem_of_includes xs s (rw n at h))
]

pub includes_of_mem : (xs : List String) (s : String) → Memᴰ s xs → includes xs s ≡ true
includes_of_mem [] s m = elim m [ ]
includes_of_mem (x ∷ xs) s (Memᴰ.head e) = rw ((text_eq_iff s x).1 e)
includes_of_mem (x ∷ xs) s (Memᴰ.tail m) = ground (arith, includes_of_mem xs s m)

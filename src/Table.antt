-- ===== src/Table.antt =====
-- A database table as the list of its rows, oldest first: a query for the first row that fits, an
-- update of one row and of all that fit, and sums over a table. The component models read and
-- write their tables by these.
pub mod Keys
use mathlib.Core.Path.{subst}
use orvex.Prelude.{All, sym, ap, Bool-cases, inl, inr}
use orvex.Prelude.{
  ◌≡◌, refl, Bool, true, Option, none, some, List, [], ◌∷◌, ◌++◌, arith, if◌then◌else◌,
}
use orvex.Prelude.Int.{ℤ, pos, ◌+ℤ◌, int_laws}

module _ {ℓ} {A : Type ℓ} where
  -- `findFirst`
  abbrev pub find_first : (A → Bool) → List A → Option A
  find_first p [] = none
  find_first p (x ∷ xs) = if p x then some x else find_first p xs

  -- `update` of the row that a unique key names
  abbrev pub update_first : (A → Bool) → (A → A) → List A → List A
  update_first p f [] = []
  update_first p f (x ∷ xs) = if p x then f x ∷ xs else x ∷ update_first p f xs

  -- `updateMany`
  abbrev pub update_all : (A → Bool) → (A → A) → List A → List A
  update_all p f [] = []
  update_all p f (x ∷ xs) = (if p x then f x else x) ∷ update_all p f xs

  -- A column summed over a table.
  abbrev pub total : (A → ℤ) → List A → ℤ
  total w [] = pos 0
  total w (x ∷ xs) = w x +ℤ total w xs

module _ {ℓ} {A : Type ℓ} (p : A → Bool) where
  pub find_first-holds : (xs : List A) {r : A} → find_first p xs ≡ some r → p r ≡ true
  find_first-holds [] h = ground arith
  find_first-holds (x ∷ xs) {r} h = ground (arith, find_first-holds xs {r = r})

  pub find_first-append_some :
      (xs ys : List A) {r : A} → find_first p xs ≡ some r → find_first p (xs ++ ys) ≡ some r
  find_first-append_some [] ys h = ground arith
  find_first-append_some (x ∷ xs) ys {r} h = ground (arith, find_first-append_some xs ys {r = r})

  pub find_first-append_none :
      (xs ys : List A) → find_first p xs ≡ none → find_first p (xs ++ ys) ≡ find_first p ys
  find_first-append_none [] ys h = refl
  find_first-append_none (x ∷ xs) ys h = ground (arith, find_first-append_none xs ys)

  -- An update that keeps the row's key is read back.
  pub find_first-update_self :
      (f : A → A) (xs : List A) {r : A}
      → p (f r) ≡ true
      → find_first p xs ≡ some r
      → find_first p (update_first p f xs) ≡ some (f r)
  find_first-update_self f [] k h = ground arith
  find_first-update_self f (x ∷ xs) {r} k h = ground (arith, find_first-update_self f xs {r = r} k)

  -- The sum moves by what the updated row moves.
  pub total-update :
      (w : A → ℤ) (f : A → A) (xs : List A) {r : A}
      → find_first p xs ≡ some r
      → total w (update_first p f xs) +ℤ w r ≡ total w xs +ℤ w (f r)
  total-update w f [] h = ground arith
  total-update w f (x ∷ xs) {r} h = grind (int_laws, total-update w f xs {r = r})

module _ {ℓ} {A : Type ℓ} where
  pub total-append_one :
      (w : A → ℤ) (xs : List A) (x : A) → total w (xs ++ x ∷ []) ≡ total w xs +ℤ w x
  total-append_one w [] x = omega int_laws
  total-append_one w (y ∷ xs) x = rw (total-append_one w xs x) (omega int_laws)

module _ {ℓ κ} {A : Type ℓ} (P : A → Type κ) (p : A → Bool) where
  pub All-find : (xs : List A) {r : A} → All P xs → find_first p xs ≡ some r → P r
  All-find [] a h = absurd (ground (arith, h))
  All-find (x ∷ xs) {r} a h = elim (Bool-cases (p x)) [
    | inl e ↦ subst P (cc h) a.0
    | inr n ↦ All-find xs {r = r} a.1 (cc h)
  ]

  -- A change of the row that is found.
  pub All-update :
      (f : A → A) (xs : List A) {r : A}
      → All P xs
      → find_first p xs ≡ some r
      → P (f r)
      → All P (update_first p f xs)
  All-update f [] a h k = tt
  All-update f (x ∷ xs) {r} a h k = elim (Bool-cases (p x)) [
    | inl e ↦ rw e (subst (λ y. P (f y)) (sym (cc h)) k, a.1)
    | inr n ↦ rw n (a.0, All-update f xs {r = r} a.1 (cc h) k)
  ]

  -- A change that keeps the property of every row.
  pub All-update_any :
      (f : A → A)
      → ((x : A) → P x → P (f x))
      → (xs : List A) → All P xs
      → All P (update_first p f xs)
  All-update_any f k [] a = tt
  All-update_any f k (x ∷ xs) a = elim (Bool-cases (p x)) [
    | inl e ↦ rw e (k x a.0, a.1)
    | inr n ↦ rw n (a.0, All-update_any f k xs a.1)
  ]

  pub All-update_all :
      (f : A → A)
      → ((x : A) → p x ≡ true → P x → P (f x))
      → (xs : List A) → All P xs
      → All P (update_all p f xs)
  All-update_all f k [] a = tt
  All-update_all f k (x ∷ xs) a = elim (Bool-cases (p x)) [
    | inl e ↦ rw e (k x e a.0, All-update_all f k xs a.1)
    | inr n ↦ rw n (a.0, All-update_all f k xs a.1)
  ]

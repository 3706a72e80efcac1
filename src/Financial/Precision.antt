-- ===== src/Financial/Precision.antt =====
-- Totals of money that no rounding of decimal.js touches.
use orvex.Prelude.{
  ℕ, ◌+◌, ◌<◌, ◌≤◌, ◌≡◌, refl, sym, ap, Bool, List, [], ◌∷◌, ◌++◌, arith, map, inl, inr, Bool-cases,
  ◌==◌, ◌⊎◌,
}
use Prim.Native.Nat.{◌^◌}
use mathlib.Core.Path.{subst}
use orvex.Prelude.Int.{ℤ, pos, pos_part, neg_part, ◌+ℤ◌, int_laws}
use orvex.Runtime.{Decimals, IsMultiple, IsShort}
use orvex.Table.{total, update_first}
use orvex.Financial.Store.{Reservation, ReservationStatus, reserved, committed, released, unknown}
use orvex.Financial.Sums.{of_account, held_of, spent_of, held_by_status, spent_by_status}

-- At most `size` away from zero.
abbrev pub IsUpTo : ℕ → ℤ → Type 0
IsUpTo size z = (pos_part z ≤ size + neg_part z) × (neg_part z ≤ size + pos_part z)

add-IsMultiple :
    (step : ℕ) (a b : ℤ) → IsMultiple step a → IsMultiple step b → IsMultiple step (a +ℤ b)
add-IsMultiple step a b (p, (q, h)) (p', (q', h')) = (p + p', (q + q', omega (int_laws, h, h')))

zero-IsMultiple : (step : ℕ) → IsMultiple step (pos 0)
zero-IsMultiple step = (0, (0, refl))

add-IsUpTo : (m n : ℕ) (a b : ℤ) → IsUpTo m a → IsUpTo n b → IsUpTo (m + n) (a +ℤ b)
add-IsUpTo m n a b (h, g) (h', g') = (omega (int_laws, h, h'), omega (int_laws, g, g'))

abbrev pub magnitude : ℤ → ℕ
magnitude z = pos_part z + neg_part z

module _ (api : Decimals) where
  open api use {Decimal, units}

  -- Amounts together, whatever their signs.
  abbrev pub volume : List Decimal → ℕ
  volume [] = 0
  volume (x ∷ xs) = magnitude (units x) + volume xs

  abbrev pub AllMultiple : ℕ → List Decimal → Type 0
  AllMultiple step [] = Unit
  AllMultiple step (x ∷ xs) = IsMultiple step (units x) × AllMultiple step xs

  abbrev pub amounts : List (Reservation Decimal) → List Decimal
  amounts rows = map Reservation.amount rows

  -- Every amount counts whole steps of 10^k units of 10^-18, and all of them together come to less
  -- than 10^20 steps, so twenty digits are enough for every sum of some of them.
  abbrev pub HasRoom : ℕ → List Decimal → Type 0
  HasRoom k xs = AllMultiple (10 ^ k) xs × (volume xs < 10 ^ (20 + k))

  -- A part of an amount, all of it or nothing.
  abbrev IsPart : (Reservation Decimal → ℤ) → Type 0
  IsPart w = (r : Reservation Decimal) → ((w r ≡ pos 0) ⊎ (w r ≡ units r.amount))

  part-IsMultiple :
      (step : ℕ) (w : Reservation Decimal → ℤ)
      → IsPart w
      → (rows : List (Reservation Decimal)) → AllMultiple step (amounts rows)
      → IsMultiple step (total w rows)
  part-IsMultiple step w part [] h = zero-IsMultiple step
  part-IsMultiple step w part (r ∷ rows) (m, h) =
      add-IsMultiple step (w r) (total w rows)
        (elim (part r) [
          | inl nothing ↦ subst (IsMultiple step) (sym nothing) (zero-IsMultiple step)
          | inr whole ↦ subst (IsMultiple step) (sym whole) m
        ])
        (part-IsMultiple step w part rows h)

  part-IsUpTo :
      (w : Reservation Decimal → ℤ)
      → IsPart w
      → (rows : List (Reservation Decimal)) → IsUpTo (volume (amounts rows)) (total w rows)
  part-IsUpTo w part [] = (omega arith, omega arith)
  part-IsUpTo w part (r ∷ rows) =
      add-IsUpTo (magnitude (units r.amount)) (volume (amounts rows)) (w r) (total w rows)
        (elim (part r) [
          | inl nothing ↦
              subst (IsUpTo (magnitude (units r.amount))) (sym nothing) (omega arith, omega arith)
          | inr whole ↦
              subst (IsUpTo (magnitude (units r.amount))) (sym whole) (omega arith, omega arith)
        ])
        (part-IsUpTo w part rows)

  part-IsShort :
      (k : ℕ) (w : Reservation Decimal → ℤ)
      → IsPart w
      → (rows : List (Reservation Decimal)) → HasRoom k (amounts rows)
      → IsShort k (total w rows)
  part-IsShort k w part rows (m, v) =
      let (low, high) = part-IsUpTo w part rows in
      (part-IsMultiple (10 ^ k) w part rows m, (omega (arith, low, v), omega (arith, high, v)))

  -- What an account holds, what it has spent, and both.
  held-IsPart : (a : ℕ) → IsPart (of_account api a (held_of api))
  held-IsPart a r = ground arith

  spent-IsPart : (a : ℕ) → IsPart (of_account api a (spent_of api))
  spent-IsPart a r = ground arith

  abbrev pub used_of : Reservation Decimal → ℤ
  used_of r = held_of api r +ℤ spent_of api r

  used_by_status :
      (st : ReservationStatus) (x : ℤ)
      → ((held_by_status api st x +ℤ spent_by_status api st x ≡ pos 0)
          ⊎ (held_by_status api st x +ℤ spent_by_status api st x ≡ x))
  used_by_status reserved x = inr (omega int_laws)
  used_by_status committed x = inr (omega int_laws)
  used_by_status released x = inl (omega int_laws)
  used_by_status unknown x = inr (omega int_laws)

  used-IsPart : (a : ℕ) → IsPart (of_account api a used_of)
  used-IsPart a r = elim (Bool-cases (r.financial_account_id == a)) [
    | inl mine ↦ rw mine (used_by_status r.status (units r.amount))
    | inr other ↦ rw other (inl refl)
  ]

  pub used-total :
      (a : ℕ) (rows : List (Reservation Decimal))
      → total (of_account api a used_of) rows
        ≡ total (of_account api a (held_of api)) rows
          +ℤ total (of_account api a (spent_of api)) rows
  used-total a [] = omega int_laws
  used-total a (r ∷ rows) = elim (Bool-cases (r.financial_account_id == a)) [
    | inl mine ↦ rw (mine, used-total a rows) (omega int_laws)
    | inr other ↦ rw (other, used-total a rows) (omega int_laws)
  ]

  module _ (k a : ℕ) (rows : List (Reservation Decimal)) (room : HasRoom k (amounts rows)) where
    pub held-IsShort : IsShort k (total (of_account api a (held_of api)) rows)
    held-IsShort = part-IsShort k (of_account api a (held_of api)) (held-IsPart a) rows room

    pub spent-IsShort : IsShort k (total (of_account api a (spent_of api)) rows)
    spent-IsShort = part-IsShort k (of_account api a (spent_of api)) (spent-IsPart a) rows room

    pub used-IsShort : IsShort k (
        total (of_account api a (held_of api)) rows +ℤ total (of_account api a (spent_of api)) rows)
    used-IsShort =
        subst (IsShort k) (used-total a rows)
          (part-IsShort k (of_account api a used_of) (used-IsPart a) rows room)

  -- A new row only takes room.
  volume-append : (xs : List Decimal) (x : Decimal) → volume xs ≤ volume (xs ++ x ∷ [])
  volume-append [] x = omega arith
  volume-append (y ∷ xs) x = omega (arith, volume-append xs x)

  AllMultiple-start :
      (step : ℕ) (xs : List Decimal) (x : Decimal)
      → AllMultiple step (xs ++ x ∷ [])
      → AllMultiple step xs
  AllMultiple-start step [] x h = tt
  AllMultiple-start step (y ∷ xs) x (m, h) = (m, AllMultiple-start step xs x h)

  amounts-append :
      (rows : List (Reservation Decimal)) (r : Reservation Decimal)
      → amounts (rows ++ r ∷ []) ≡ amounts rows ++ r.amount ∷ []
  amounts-append [] r = refl
  amounts-append (x ∷ rows) r = ap (λ xs. x.amount ∷ xs) (amounts-append rows r)

  pub HasRoom-append :
      (k : ℕ) (rows : List (Reservation Decimal)) (r : Reservation Decimal)
      → HasRoom k (amounts (rows ++ r ∷ []))
      → HasRoom k (amounts rows)
  HasRoom-append k rows r h =
      let (m, v) = subst (HasRoom k) (amounts-append rows r) h in
      (
        AllMultiple-start (10 ^ k) (amounts rows) r.amount m,
        omega (arith, v, volume-append (amounts rows) r.amount),
      )

  -- No write changes an amount.
  amounts-update :
      (p : Reservation Decimal → Bool) (f : Reservation Decimal → Reservation Decimal)
      → ((r : Reservation Decimal) → (f r).amount ≡ r.amount)
      → (rows : List (Reservation Decimal)) → amounts (update_first p f rows) ≡ amounts rows
  amounts-update p f keeps [] = refl
  amounts-update p f keeps (r ∷ rows) = elim (Bool-cases (p r)) [
    | inl e ↦ rw (e, keeps r) refl
    | inr n ↦ rw (n, amounts-update p f keeps rows) refl
  ]

  pub HasRoom-update :
      (k : ℕ) (p : Reservation Decimal → Bool) (f : Reservation Decimal → Reservation Decimal)
      → ((r : Reservation Decimal) → (f r).amount ≡ r.amount)
      → (rows : List (Reservation Decimal)) → HasRoom k (amounts (update_first p f rows))
      → HasRoom k (amounts rows)
  HasRoom-update k p f keeps rows = subst (HasRoom k) (amounts-update p f keeps rows)

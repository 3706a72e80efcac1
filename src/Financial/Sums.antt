-- ===== src/Financial/Sums.antt =====
-- What an account should hold, read off the reservations alone, and how the writes of the service
-- move it.
use orvex.Prelude.{
  ℕ, suc, ◌≡◌, refl, sym, ◌∙◌, some, List, [], ◌∷◌, ◌++◌, arith, ◌==◌, if◌then◌else◌, inl, inr,
  Bool-cases, Option-cases, ◌≤◌,
}
use orvex.Prelude.Int.{ℤ, pos, int_laws}
use orvex.Runtime.{Decimals}
use mathlib.Core.Path.{subst}
use orvex.Table.{find_first, total, find_first-append_some, find_first-append_none}
use orvex.Table.Keys.{Below, Distinct, Below-mono, Below-add}
use orvex.Financial.Store.{
  Account, Reservation, ReservationStatus, reserved, committed, unknown, Store, account_row,
  has_account_id, add_account,
}

module _ (api : Decimals) where
  open api use {Decimal, units}

  -- A hold keeps its amount while its outcome is open, and has spent it once committed.
  abbrev pub held_by_status : ReservationStatus → ℤ → ℤ
  held_by_status reserved x = x
  held_by_status unknown x = x
  held_by_status _ x = pos 0

  abbrev pub spent_by_status : ReservationStatus → ℤ → ℤ
  spent_by_status committed x = x
  spent_by_status _ x = pos 0

  abbrev pub held_of : Reservation Decimal → ℤ
  held_of r = held_by_status r.status (units r.amount)

  abbrev pub spent_of : Reservation Decimal → ℤ
  spent_of r = spent_by_status r.status (units r.amount)

  -- The part of a column that one account owns.
  abbrev pub of_account : ℕ → (Reservation Decimal → ℤ) → Reservation Decimal → ℤ
  of_account a w r = if r.financial_account_id == a then w r else pos 0

  pub record IsExact (rows : List (Reservation Decimal)) (a : ℕ) (acc : Account Decimal)
      : Type 0 where
    pub reserved_exact : units acc.current_reserved ≡ total (of_account a held_of) rows
    pub committed_exact : units acc.current_committed ≡ total (of_account a spent_of) rows

  -- The ids are primary keys, and an account owns what names it.
  pub record IsKeyed (s : Store Decimal) : Type 0 where
    pub account_ids : Below Account.id s.next_id s.accounts
    pub reservation_ids : Below Reservation.id s.next_id s.reservations
    pub distinct_ids : Distinct Reservation.id s.reservations
    pub owners : Below Reservation.financial_account_id s.next_id s.reservations

  abbrev pub AllExact : Store Decimal → Type 0
  AllExact s =
      (a : ℕ) (acc : Account Decimal) → account_row s a ≡ some acc → IsExact s.reservations a acc

  -- The balances of every account are the sums of its reservations, and ids are primary keys.
  pub record IsBalanced (s : Store Decimal) : Type 0 where
    pub keyed : IsKeyed s
    pub exact : AllExact s

  -- Every account id is below the next one, so a new account owns nothing.
  total-no_owner :
      (w : Reservation Decimal → ℤ) (n a : ℕ) (rows : List (Reservation Decimal))
      → Below Reservation.financial_account_id n rows
      → n ≤ a
      → total (of_account a w) rows ≡ pos 0
  total-no_owner w n a [] b h = refl
  total-no_owner w n a (r ∷ rows) b h = grind (int_laws, total-no_owner w n a rows b.1 h)

  pub add_account-IsKeyed :
      (row : Account Decimal) (s : Store Decimal)
      → IsKeyed s
      → row.id ≡ s.next_id
      → IsKeyed (add_account row s)
  add_account-IsKeyed row s b e = record {
    account_ids = Below-add Account.id s.next_id s.accounts row b.account_ids e;
    reservation_ids =
        Below-mono Reservation.id s.next_id (suc s.next_id) s.reservations (omega arith)
          b.reservation_ids;
    distinct_ids = b.distinct_ids;
    owners =
        Below-mono Reservation.financial_account_id s.next_id (suc s.next_id) s.reservations
          (omega arith) b.owners;
  }

  -- A new account that holds nothing.
  pub add_account-AllExact :
      (row : Account Decimal) (s : Store Decimal)
      → IsKeyed s
      → AllExact s
      → row.id ≡ s.next_id
      → units row.current_reserved ≡ pos 0
      → units row.current_committed ≡ pos 0
      → AllExact (add_account row s)
  add_account-AllExact row s b exact e zr zc a acc h = elim (Option-cases (account_row s a)) [
    | inl absent ↦
        fresh a acc (find_first-append_none (has_account_id a) s.accounts (row ∷ []) absent) h
    | inr (old, there) ↦
        exact a acc (
          there ∙ (sym (find_first-append_some (has_account_id a) s.accounts (row ∷ []) there) ∙ h))
  ]
    where
      fresh :
          (a : ℕ) (acc : Account Decimal)
          → find_first (has_account_id a) (s.accounts ++ row ∷ [])
            ≡ find_first (has_account_id a) (row ∷ [])
          → find_first (has_account_id a) (s.accounts ++ row ∷ []) ≡ some acc
          → IsExact s.reservations a acc
      fresh a acc p h = elim (Bool-cases (row.id == a)) [
        | inl same ↦
            let q : row ≡ acc = ground (arith, p, h) in
            subst (λ x. IsExact s.reservations a x) q
              (record {
                reserved_exact =
                    zr
                    ∙ sym
                        (total-no_owner held_of s.next_id a s.reservations b.owners (ground arith));
                committed_exact =
                    zc
                    ∙ sym (
                        total-no_owner spent_of s.next_id a s.reservations b.owners (ground arith));
              })
        | inr other ↦ absurd (ground (arith, p, h))
      ]

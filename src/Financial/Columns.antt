-- ===== src/Financial/Columns.antt =====
-- The sums and differences that the financial service writes are exact, where the amounts leave
-- room for that.
use orvex.Prelude.{ℕ, ◌≡◌, refl, ap, some, List, [], ◌∷◌, ◌++◌}
use mathlib.Core.Path.{subst}
use orvex.Prelude.Int.{ℤ, pos, pos_part, neg_part, ◌+ℤ◌, ◌-ℤ◌, int_laws}
use orvex.Runtime.{Decimals, IsShort}
use orvex.Table.{find_first, update_first, total}
use orvex.Financial.Store.{Account, Reservation, reserved, Store, account_row, has_id}
use orvex.Financial.Sums.{IsExact, IsKeyed, AllExact, held_of, spent_of, of_account}
use orvex.Financial.Writes.{mine_moved, added}
use orvex.Financial.Precision.{
  HasRoom, amounts, held-IsShort, spent-IsShort, used-IsShort, HasRoom-append,
}

module _ (api : Decimals) where
  open api use {Decimal, units, plus, minus, plus_units, minus_units}

  -- A balance `r` that is the sum `t`, where the sum over the new rows is `t'`.
  module _ (k : ℕ) (r x : Decimal) (t t' w w' : ℤ) (exact : units r ≡ t)
      (short : IsShort k t') where
    less : t' +ℤ w ≡ t +ℤ w' → w ≡ units x → w' ≡ pos 0 → units (minus r x) ≡ units r -ℤ units x
    less m e z =
        let d : t' ≡ units r -ℤ units x = omega (
          int_laws,
          ap pos_part exact,
          ap neg_part exact,
          ap pos_part m,
          ap neg_part m,
          ap pos_part e,
          ap neg_part e,
          ap pos_part z,
          ap neg_part z,
        ) in
        minus_units r x k (subst (IsShort k) d short)

    more : t' +ℤ w ≡ t +ℤ w' → w ≡ pos 0 → w' ≡ units x → units (plus r x) ≡ units r +ℤ units x
    more m z e =
        let d : t' ≡ units r +ℤ units x = omega (
          int_laws,
          ap pos_part exact,
          ap neg_part exact,
          ap pos_part m,
          ap neg_part m,
          ap pos_part e,
          ap neg_part e,
          ap pos_part z,
          ap neg_part z,
        ) in
        plus_units r x k (subst (IsShort k) d short)

  -- One reservation of the account `row` is settled.
  module _ (k : ℕ) (s : Store Decimal) (keyed : IsKeyed api s) (res : Reservation Decimal)
      (res_found : find_first (has_id res.id) s.reservations ≡ some res) (row : Account Decimal)
      (there : account_row s res.financial_account_id ≡ some row)
      (f : Reservation Decimal → Reservation Decimal)
      (f_keeps : (x : Reservation Decimal) → (f x).id ≡ x.id)
      (f_owner : (x : Reservation Decimal) → (f x).financial_account_id ≡ x.financial_account_id)
      (exact : AllExact api s)
      (room : HasRoom api k (amounts api (update_first (has_id res.id) f s.reservations))) where
    abbrev mine : IsExact api s.reservations res.financial_account_id row
    mine = exact res.financial_account_id row there

    abbrev moves :
        (w : Reservation Decimal → ℤ)
        → total
              (of_account api res.financial_account_id w)
              (update_first (has_id res.id) f s.reservations)
            +ℤ w res
          ≡ total (of_account api res.financial_account_id w) s.reservations +ℤ w (f res)
    moves =
        mine_moved api s keyed res.financial_account_id row there (λ a. a) (λ a. refl) res res_found
          refl f f_keeps f_owner

    pub minus_reserved :
        held_of api res ≡ units res.amount
        → held_of api (f res) ≡ pos 0
        → units (minus row.current_reserved res.amount)
          ≡ units row.current_reserved -ℤ units res.amount
    minus_reserved =
        less k row.current_reserved res.amount _ _ _ _ mine.reserved_exact
          (held-IsShort api k res.financial_account_id
            (update_first (has_id res.id) f s.reservations) room)
          (moves (held_of api))

    pub plus_committed :
        spent_of api res ≡ pos 0
        → spent_of api (f res) ≡ units res.amount
        → units (plus row.current_committed res.amount)
          ≡ units row.current_committed +ℤ units res.amount
    plus_committed =
        more k row.current_committed res.amount _ _ _ _ mine.committed_exact
          (spent-IsShort api k res.financial_account_id
            (update_first (has_id res.id) f s.reservations) room)
          (moves (spent_of api))

  -- The account `row` takes the hold `new`.
  module _ (k : ℕ) (s : Store Decimal) (keyed : IsKeyed api s) (a : ℕ) (row : Account Decimal)
      (there : account_row s a ≡ some row) (new : Reservation Decimal) (new_id : new.id ≡ s.next_id)
      (owned : new.financial_account_id ≡ a) (is_held : new.status ≡ reserved)
      (exact : AllExact api s)
      (room : HasRoom api k (amounts api (s.reservations ++ new ∷ []))) where
    abbrev own : IsExact api s.reservations a row
    own = exact a row there

    abbrev rows : List (Reservation Decimal)
    rows = s.reservations ++ new ∷ []

    abbrev grows :
        (w : Reservation Decimal → ℤ)
        → total (of_account api a w) rows ≡ total (of_account api a w) s.reservations +ℤ w new
    grows = added api s keyed a row there (λ x. x) (λ x. refl) new new_id owned

    held_new : held_of api new ≡ units new.amount
    held_new = rw is_held refl

    spent_new : spent_of api new ≡ pos 0
    spent_new = rw is_held refl

    pub plus_reserved :
        units (plus row.current_reserved new.amount)
        ≡ units row.current_reserved +ℤ units new.amount
    plus_reserved = plus_units row.current_reserved new.amount k (
        subst (IsShort k) (rw (grows (held_of api), held_new, own.reserved_exact) refl)
          (held-IsShort api k a rows room))

    pub plus_used :
        units (plus row.current_reserved row.current_committed)
        ≡ units row.current_reserved +ℤ units row.current_committed
    plus_used = plus_units row.current_reserved row.current_committed k (
        subst (IsShort k) (rw (own.reserved_exact, own.committed_exact) refl)
          (used-IsShort api k a s.reservations (HasRoom-append api k s.reservations new room)))

    pub plus_projected :
        units (plus (plus row.current_reserved row.current_committed) new.amount)
        ≡ units (plus row.current_reserved row.current_committed) +ℤ units new.amount
    plus_projected = plus_units (plus row.current_reserved row.current_committed) new.amount k (
        subst (IsShort k)
          (rw
            (
              plus_used,
              grows (held_of api),
              grows (spent_of api),
              held_new,
              spent_new,
              own.reserved_exact,
              own.committed_exact,
            )
            (omega int_laws))
          (used-IsShort api k a rows room))

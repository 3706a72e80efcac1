-- ===== src/Financial/Races.antt =====
-- Two calls of `commit` that both read a reservation before either has written it: the read of the
-- row takes no lock, and the lock of the account comes after the test of the status.
use orvex.Prelude.{ℕ, ◌≡◌, sym, ap, ◌∙◌, some}
use mathlib.Core.Path.{subst}
use orvex.Prelude.Int.{◌+ℤ◌}
use orvex.Runtime.{Decimals, IsShort}
use orvex.Table.{find_first-holds, find_first-update_self}
use orvex.Financial.Store.{
  Account, Reservation, reserved, Store, account_row, has_account_id, set_account, set_reservation,
}
use orvex.Financial.Service.{commit_row, commit_locked}
use orvex.Financial.Steps.{after_commit, mark_committed, commit_locked_found}

module _ (api : Decimals) where
  open api use {Decimal, units, plus, minus, plus_units}

  -- The store after both have run to their end, each with the row `res` that it read at first.
  unfoldable pub both_commit : ℕ → ℕ → Reservation Decimal → Store Decimal → Store Decimal
  both_commit first second res s = (commit_row api second res (commit_row api first res s).1).1

  commit_row_reserved :
      (now : ℕ) (res : Reservation Decimal) (s : Store Decimal)
      → res.status ≡ reserved
      → commit_row api now res s ≡ commit_locked api now res s
  unfolding commit_row
  commit_row_reserved now res s e = rw (e, commit_row)

  module _ (first second : ℕ) (res : Reservation Decimal) (s : Store Decimal)
      (row : Account Decimal) (open_hold : res.status ≡ reserved)
      (there : account_row s res.financial_account_id ≡ some row) where
    abbrev a : ℕ
    a = res.financial_account_id

    abbrev s₁ : Store Decimal
    s₁ =
        set_reservation res.id (mark_committed api first)
          (set_account a (after_commit api row res.amount) s)

    abbrev row₁ : Account Decimal
    row₁ = after_commit api row res.amount row

    there₁ : account_row s₁ a ≡ some row₁
    there₁ =
        find_first-update_self (has_account_id a) (after_commit api row res.amount) s.accounts
          {r = row} (find_first-holds (has_account_id a) s.accounts {r = row} there) there

    both_commit_state :
        both_commit first second res s
        ≡ set_reservation res.id
            (mark_committed api second)
            (set_account a (after_commit api row₁ res.amount) s₁)
    unfolding both_commit
    both_commit_state =
        ap (λ p. (commit_row api second res p.1).1)
          (commit_row_reserved first res s open_hold
            ∙ commit_locked_found api first res s row there)
        ∙ ap (λ p. p.1)
            (commit_row_reserved second res s₁ open_hold
              ∙ commit_locked_found api second res s₁ row₁ there₁)

    -- Both commits move the amount: the account's committed total rises by twice the amount of the
    -- one reservation that was committed. The condition is that for some k both new totals count
    -- whole steps of 10^k units of 10^-18, fewer than 10^20 of them, as decimal.js keeps twenty
    -- digits.
    pub both_commit_doubles :
        (k : ℕ)
        → IsShort k (units row.current_committed +ℤ units res.amount)
        → IsShort k (units row.current_committed +ℤ units res.amount +ℤ units res.amount)
        → (x : Account Decimal) × (account_row (both_commit first second res s) a ≡ some x)
          × (units x.current_committed
              ≡ units row.current_committed +ℤ units res.amount +ℤ units res.amount)
    both_commit_doubles k once twice = (
      after_commit api row₁ res.amount row₁,
      rw both_commit_state (
          find_first-update_self (has_account_id a) (after_commit api row₁ res.amount) s₁.accounts
            {r = row₁} (find_first-holds (has_account_id a) s.accounts {r = row} there) there₁),
      let first = plus_units row.current_committed res.amount k once in
          plus_units row₁.current_committed res.amount k
            (subst (λ u. IsShort k (u +ℤ units res.amount)) (sym first) twice)
          ∙ ap (λ u. u +ℤ units res.amount) first,
    )

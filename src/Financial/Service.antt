-- ===== src/Financial/Service.antt =====
-- The methods of `FinancialService`.
use orvex.Prelude.{ℕ, String, Bool, true, false, Option, none, some}
use orvex.Errors.{policy_violation, internal_error, not_found, conflict}
use orvex.Outcome.{
  core, decimal_error, Action, pure, throw, gets, or_throw, throw_if, modify, transaction, ◌>>=◌,
  ◌>>◌,
}
use orvex.Runtime.{Decimals}
use orvex.Table.{find_first}
use orvex.Financial.Store.{
  Account, Reservation, ReservationStatus, reserved, committed, released, unknown, Store,
  AccountKey, is_bucket, account_row, owned_row, add_account, add_reservation, set_account,
  set_reservation,
}

module _ (api : Decimals) where
  open api use {Decimal, parse, zero_decimal, plus, minus, greater_than}

  unfoldable pub new_account : AccountKey → Option Decimal → ℕ → Account Decimal
  new_account key limit id = record {
    id = id;
    company_id = key.company_id;
    agent_id = key.agent_id;
    scope = key.scope;
    scope_key = key.scope_key;
    asset = key.asset;
    network = key.network;
    current_reserved = zero_decimal;
    current_committed = zero_decimal;
    limit_amount = limit;
  }

  create_account : AccountKey → Option Decimal → Action (Store Decimal) (Account Decimal)
  unfolding new_account
  create_account key limit s =
      let row = new_account key limit s.next_id in (modify (add_account row) >> pure row) s

  unfoldable pub ensure_account :
      AccountKey → Option Decimal → Action (Store Decimal) (Account Decimal)
  unfolding create_account is_bucket
  ensure_account key limit = do
    existing ← gets (λ s. find_first (is_bucket key) s.accounts)
    elim existing [ some row ↦ pure row | none ↦ create_account key limit ]

  -- `row.limit_amount !== null && gt(projected, limit)`
  abbrev pub exceeds : Decimal → Option Decimal → Bool
  exceeds projected none = false
  exceeds projected (some limit) = greater_than projected limit

  unfoldable pub new_reservation : AccountKey → ℕ → Option ℕ → Decimal → ℕ → Reservation Decimal
  new_reservation key account execution amount id = record {
    id = id;
    company_id = key.company_id;
    agent_id = key.agent_id;
    execution_request_id = execution;
    financial_account_id = account;
    amount = amount;
    asset = key.asset;
    status = reserved;
    committed_at = none;
    released_at = none;
  }

  create_reservation :
      AccountKey → ℕ → Option ℕ → Decimal → Action (Store Decimal) (Reservation Decimal)
  unfolding new_reservation
  create_reservation key account execution amount s =
      let row = new_reservation key account execution amount s.next_id in
      (modify (add_reservation row) >> pure row) s

  -- The transaction of `reserve`, on the account that was ensured.
  unfoldable pub reserve_locked :
      AccountKey → Option ℕ → Decimal → ℕ → Action (Store Decimal) (Reservation Decimal)
  unfolding create_reservation
  reserve_locked key execution amount account = do
    row ← (λ s. or_throw (core internal_error) (account_row s account) s)
    throw_if
        (exceeds (plus (plus row.current_reserved row.current_committed) amount) row.limit_amount)
        (core policy_violation)
    reservation ← create_reservation key account execution amount
    modify (
        set_account account (λ a. record a { current_reserved = plus row.current_reserved amount }))
    pure reservation

  unfoldable pub reserve :
      AccountKey → Option ℕ → String → Action (Store Decimal) (Reservation Decimal)
  unfolding reserve_locked ensure_account
  reserve key execution amount_text = do
    account ← ensure_account key none
    amount ← or_throw decimal_error (parse amount_text)
    transaction (reserve_locked key execution amount account.id)

  -- Which statuses a method lets through, besides the one that it returns at once.
  abbrev pub is_reserved : ReservationStatus → Bool
  is_reserved reserved = true
  is_reserved _ = false

  abbrev pub load_owned : ℕ → ℕ → Action (Store Decimal) (Reservation Decimal)
  load_owned company id s = or_throw (core not_found) (owned_row s company id) s

  -- What follows the guards of `commit`: lock the account, move the amount, mark the reservation.
  unfoldable pub commit_locked :
      ℕ → Reservation Decimal → Action (Store Decimal) (Reservation Decimal)
  commit_locked now res = do
    row ← (λ s. or_throw (core internal_error) (account_row s res.financial_account_id) s)
    modify (
        set_account res.financial_account_id (λ a. record a {
          current_reserved = minus row.current_reserved res.amount;
          current_committed = plus row.current_committed res.amount;
        }))
    modify (set_reservation res.id (λ r. record r { status = committed; committed_at = some now }))
    pure (record res { status = committed; committed_at = some now })

  -- The guards of `commit` on the row that it has read.
  unfoldable pub commit_row : ℕ → Reservation Decimal → Action (Store Decimal) (Reservation Decimal)
  unfolding commit_locked
  commit_row now res = elim res.status [
    | committed ↦ pure res
    | reserved ↦ commit_locked now res
    | _ ↦ throw (core conflict)
  ]

  unfoldable pub commit : ℕ → ℕ → ℕ → Action (Store Decimal) (Reservation Decimal)
  unfolding commit_row
  commit now company id = transaction (do res ← load_owned company id; commit_row now res)

  -- What `release` and `reconcileRelease` do past their guards.
  unfoldable pub release_locked :
      ℕ → Reservation Decimal → Action (Store Decimal) (Reservation Decimal)
  release_locked now res = do
    row ← (λ s. or_throw (core internal_error) (account_row s res.financial_account_id) s)
    modify (
        set_account res.financial_account_id
          (λ a. record a { current_reserved = minus row.current_reserved res.amount }))
    modify (set_reservation res.id (λ r. record r { status = released; released_at = some now }))
    pure (record res { status = released; released_at = some now })

  unfoldable pub release_row :
      ℕ → Reservation Decimal → Action (Store Decimal) (Reservation Decimal)
  unfolding release_locked
  release_row now res = elim res.status [
    | released ↦ pure res
    | reserved ↦ release_locked now res
    | _ ↦ throw (core conflict)
  ]

  unfoldable pub release : ℕ → ℕ → ℕ → Action (Store Decimal) (Reservation Decimal)
  unfolding release_row
  release now company id = transaction (do res ← load_owned company id; release_row now res)

  unfoldable pub reconcile_row :
      ℕ → Reservation Decimal → Action (Store Decimal) (Reservation Decimal)
  unfolding release_locked
  reconcile_row now res = elim res.status [
    | released ↦ pure res
    | committed ↦ throw (core conflict)
    | _ ↦ release_locked now res
  ]

  unfoldable pub reconcile_release : ℕ → ℕ → ℕ → Action (Store Decimal) (Reservation Decimal)
  unfolding reconcile_row
  reconcile_release now company id =
      transaction (do res ← load_owned company id; reconcile_row now res)

  -- What `markUnknown` writes to the row that it has read; it runs in no transaction.
  unfoldable pub mark_row : Reservation Decimal → Action (Store Decimal) (Reservation Decimal)
  mark_row res = do
    modify (set_reservation res.id (λ r. record r { status = unknown }))
    pure (record res { status = unknown })

  unfoldable pub mark_guard : Reservation Decimal → Action (Store Decimal) (Reservation Decimal)
  unfolding mark_row
  mark_guard res = elim res.status [
    | reserved ↦ mark_row res
    | unknown ↦ mark_row res
    | _ ↦ throw (core conflict)
  ]

  unfoldable pub mark_unknown : ℕ → ℕ → Action (Store Decimal) (Reservation Decimal)
  unfolding mark_guard
  mark_unknown company id = do res ← load_owned company id; mark_guard res

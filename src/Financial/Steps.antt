-- ===== src/Financial/Steps.antt =====
-- What the writing part of each method of the financial service does once it has found its account.
use orvex.Prelude.{ℕ, ◌≡◌, Option, none, some, true, false, arith}
use orvex.Errors.{internal_error, policy_violation, not_found}
use orvex.Outcome.{ok, err, core, settle}
use orvex.Runtime.{Decimals}
use orvex.Table.{find_first}
use orvex.Financial.Store.{
  Account, AccountKey, Reservation, committed, released, Store, account_row, owned_row, is_bucket,
  add_account, add_reservation, set_account, set_reservation,
}
use orvex.Financial.Service.{
  new_account, ensure_account, exceeds, new_reservation, reserve_locked, commit_locked, commit_row,
  commit, release_locked, release_row, release, reconcile_row, reconcile_release, mark_guard,
  mark_unknown,
}

module _ (api : Decimals) where
  open api use {Decimal, plus, minus}

  -- The account's row after a commit and after a release of `amount`, read as `row`.
  abbrev pub after_commit : Account Decimal → Decimal → Account Decimal → Account Decimal
  after_commit row amount a = record a {
    current_reserved = minus row.current_reserved amount;
    current_committed = plus row.current_committed amount;
  }

  abbrev pub after_release : Account Decimal → Decimal → Account Decimal → Account Decimal
  after_release row amount a = record a { current_reserved = minus row.current_reserved amount }

  abbrev pub mark_committed : ℕ → Reservation Decimal → Reservation Decimal
  mark_committed now r = record r { status = committed; committed_at = some now }

  abbrev pub mark_released : ℕ → Reservation Decimal → Reservation Decimal
  mark_released now r = record r { status = released; released_at = some now }

  module _ (now : ℕ) (res : Reservation Decimal) (s : Store Decimal) where
    pub commit_locked_found :
        (row : Account Decimal)
        → account_row s res.financial_account_id ≡ some row
        → commit_locked api now res s ≡ (
          ok (mark_committed now res),
          set_reservation res.id
              (mark_committed now)
              (set_account res.financial_account_id (after_commit row res.amount) s),
        )
    unfolding commit_locked
    commit_locked_found row e = ground arith

    pub commit_locked_missing :
        account_row s res.financial_account_id ≡ none
        → commit_locked api now res s ≡ (err (core internal_error), s)
    unfolding commit_locked
    commit_locked_missing e = ground arith

    pub release_locked_found :
        (row : Account Decimal)
        → account_row s res.financial_account_id ≡ some row
        → release_locked api now res s ≡ (
          ok (mark_released now res),
          set_reservation res.id
              (mark_released now)
              (set_account res.financial_account_id (after_release row res.amount) s),
        )
    unfolding release_locked
    release_locked_found row e = ground arith

    pub release_locked_missing :
        account_row s res.financial_account_id ≡ none
        → release_locked api now res s ≡ (err (core internal_error), s)
    unfolding release_locked
    release_locked_missing e = ground arith

  module _ (key : AccountKey) (limit : Option Decimal) (s : Store Decimal) where
    pub ensure_account_new :
        find_first (is_bucket key) s.accounts ≡ none
        → ensure_account api key limit s ≡ (
          ok (new_account api key limit s.next_id),
          add_account (new_account api key limit s.next_id) s,
        )
    unfolding ensure_account
    ensure_account_new e = ground arith

    pub ensure_account_old :
        (row : Account Decimal)
        → find_first (is_bucket key) s.accounts ≡ some row
        → ensure_account api key limit s ≡ (ok row, s)
    unfolding ensure_account
    ensure_account_old row e = ground arith

  module _ (key : AccountKey) (execution : Option ℕ) (amount : Decimal) (a : ℕ)
      (s : Store Decimal) where
    pub reserve_locked_missing :
        account_row s a ≡ none
        → reserve_locked api key execution amount a s ≡ (err (core internal_error), s)
    unfolding reserve_locked
    reserve_locked_missing e = ground arith

    abbrev pub projected : Account Decimal → Decimal
    projected row = plus (plus row.current_reserved row.current_committed) amount

    pub reserve_locked_over :
        (row : Account Decimal)
        → account_row s a ≡ some row
        → exceeds api (projected row) row.limit_amount ≡ true
        → reserve_locked api key execution amount a s ≡ (err (core policy_violation), s)
    unfolding reserve_locked
    reserve_locked_over row e o = ground arith

    abbrev pub held_row : Reservation Decimal
    held_row = new_reservation api key a execution amount s.next_id

    abbrev pub after_reserve : Account Decimal → Account Decimal → Account Decimal
    after_reserve row x = record x { current_reserved = plus row.current_reserved amount }

    pub reserve_locked_fits :
        (row : Account Decimal)
        → account_row s a ≡ some row
        → exceeds api (projected row) row.limit_amount ≡ false
        → reserve_locked api key execution amount a s
          ≡ (ok held_row, set_account a (after_reserve row) (add_reservation held_row s))
    unfolding reserve_locked
    reserve_locked_fits row e o = ground arith

  module _ (company id : ℕ) (s : Store Decimal) where
    pub commit_missing :
        (now : ℕ)
        → owned_row s company id ≡ none
        → commit api now company id s ≡ (err (core not_found), s)
    unfolding commit
    commit_missing now e = ground arith

    pub commit_found :
        (now : ℕ) (res : Reservation Decimal)
        → owned_row s company id ≡ some res
        → commit api now company id s ≡ settle s (commit_row api now res s)
    unfolding commit
    commit_found now res e = ground arith

    pub release_missing :
        (now : ℕ)
        → owned_row s company id ≡ none
        → release api now company id s ≡ (err (core not_found), s)
    unfolding release
    release_missing now e = ground arith

    pub release_found :
        (now : ℕ) (res : Reservation Decimal)
        → owned_row s company id ≡ some res
        → release api now company id s ≡ settle s (release_row api now res s)
    unfolding release
    release_found now res e = ground arith

    pub reconcile_missing :
        (now : ℕ)
        → owned_row s company id ≡ none
        → reconcile_release api now company id s ≡ (err (core not_found), s)
    unfolding reconcile_release
    reconcile_missing now e = ground arith

    pub reconcile_found :
        (now : ℕ) (res : Reservation Decimal)
        → owned_row s company id ≡ some res
        → reconcile_release api now company id s ≡ settle s (reconcile_row api now res s)
    unfolding reconcile_release
    reconcile_found now res e = ground arith

    pub mark_missing :
        owned_row s company id ≡ none → mark_unknown api company id s ≡ (err (core not_found), s)
    unfolding mark_unknown
    mark_missing e = ground arith

    pub mark_found :
        (res : Reservation Decimal)
        → owned_row s company id ≡ some res
        → mark_unknown api company id s ≡ mark_guard api res s
    unfolding mark_unknown
    mark_found res e = ground arith

-- ===== src/Execution/Payment.antt =====
-- A verified receipt does commit a reservation that is held.
use orvex.Prelude.{ℕ, Bool, true, ◌&&◌, ◌==◌, some, ◌≡◌, ◌∙◌, ap, arith, text_eq_iff}
use orvex.Runtime.{Decimals}
use orvex.Outcome.{ok, settle}
use orvex.Table.{find_first, find_first-holds, find_first-update_self}
use orvex.Table.Keys.{Distinct, find-any_query, find-more}
use orvex.Financial.Store.{
  Store, Account, Reservation, ReservationStatus, reserved, account_row, owned_row, has_id,
  set_account, set_reservation,
}
use orvex.Financial.Service.{commit, commit_row, is_reserved}
use orvex.Financial.Steps.{after_commit, mark_committed, commit_found, commit_locked_found}
use orvex.Execution.Store.{World, ExecutionRequest, ReceiptValues, get_request, is_for}
use orvex.Execution.Results.{
  Receipt, reserved_for, compare_receipt, none_noted, add_verification, finalize,
  verify_and_finalize,
}
use orvex.Execution.Receipts.{Agrees, verify_found, reported, is_committed, row}

module _ (api : Decimals) where
  open api use {Decimal, parse, equals}

  -- The tables of the money after the commit.
  abbrev pub paid : ℕ → Reservation Decimal → Account Decimal → Store Decimal → Store Decimal
  paid now r acc s =
      set_reservation r.id (mark_committed api now)
        (set_account r.financial_account_id (after_commit api acc r.amount) s)

  is_reserved-reserved : (st : ReservationStatus) → is_reserved api st ≡ true → st ≡ reserved
  is_reserved-reserved st h = ground (arith, h)

  commit_reserved :
      (now : ℕ) (r : Reservation Decimal) (acc : Account Decimal) (s : Store Decimal)
      → r.status ≡ reserved
      → account_row s r.financial_account_id ≡ some acc
      → settle s (commit_row api now r s) ≡ (ok (mark_committed api now r), paid now r acc s)
  unfolding commit_row
  commit_reserved now r acc s e h = ground (arith, e, commit_locked_found api now r s acc h)

  module _ (now company : ℕ) (r : Reservation Decimal) (acc : Account Decimal) (s : Store Decimal)
      (d : Distinct Reservation.id s.reservations) (p : Reservation Decimal → Bool)
      (found : find_first p s.reservations ≡ some r) where
    owned : r.company_id ≡ company → owned_row s company r.id ≡ some r
    owned c =
        find-more Reservation.id r.id (λ x. x.company_id == company) s.reservations {r = r}
          (find-any_query Reservation.id p s.reservations {r = r} d found) (ground (arith, c))

    commit_held :
        r.company_id ≡ company
        → r.status ≡ reserved
        → account_row s r.financial_account_id ≡ some acc
        → commit api now company r.id s ≡ (ok (mark_committed api now r), paid now r acc s)
    commit_held c e h =
        commit_found api company r.id s now r (owned c) ∙ commit_reserved now r acc s e h

  pub Agrees-none_noted :
      (authorized : ReceiptValues) (receipt : Receipt) (g : Agrees api authorized receipt)
      → none_noted (compare_receipt authorized receipt (equals g.expected g.actual)) ≡ true
  Agrees-none_noted authorized receipt g = ground (
    arith,
    (text_eq_iff authorized.recipient receipt.actual.recipient).1 g.same_recipient,
    (text_eq_iff authorized.asset receipt.actual.asset).1 g.same_asset,
    (text_eq_iff authorized.network receipt.actual.network).1 g.same_network,
    g.executor_verified,
    g.same_amount,
  )

  finalize_paid :
      (now company i : ℕ) (w : World Decimal) (r : Reservation Decimal) (s : Store Decimal)
      → reserved_for api company i w ≡ some r
      → commit api now company r.id w.financial ≡ (ok (mark_committed api now r), s)
      → (verified : Bool) → verified ≡ true
      → finalize api now company i verified w ≡ (ok true, record w { financial = s })
  unfolding finalize
  finalize_paid now company i w r s e c verified t = ground (arith, e, c, t)

  -- A verified receipt commits. The ids of the reservations are keys, the company has the request,
  -- the receipt agrees with what was authorized and is verified by the executor, and the first
  -- RESERVED reservation of the request has its account: then `verifyAndFinalize` returns a row
  -- and reports the commit, and the reservation is COMMITTED in the tables.
  pub verified_commits :
      (verify : ℕ → Receipt) (now company i : ℕ) (authorized : ReceiptValues) (w : World Decimal)
      (request : ExecutionRequest) (r : Reservation Decimal) (acc : Account Decimal)
      → Distinct Reservation.id w.financial.reservations
      → get_request company i w ≡ some request
      → Agrees api authorized (verify i)
      → reserved_for api company request.id w ≡ some r
      → account_row w.financial r.financial_account_id ≡ some acc
      → let out = verify_and_finalize api verify now company i authorized w in
        (is_committed out.0 ≡ true)
        × (find_first (has_id r.id) out.1.financial.reservations ≡ some (mark_committed api now r))
  verified_commits verify now company i authorized w request r acc d there g held has =
      let fits =
        find_first-holds (λ x. is_for company request.id x && is_reserved api x.status)
          w.financial.reservations {r = r} held in
      let own : r.company_id ≡ company = ground (arith, fits) in
      let st = is_reserved-reserved r.status (ground (arith, fits)) in
      let s = paid now r acc w.financial in
      let v = row api verify now company i authorized w request g.expected g.actual in
      let ends : finalize api now company request.id v.verified (add_verification api v w)
          ≡ (ok true, record (add_verification api v w) { financial = s }) =
        finalize_paid now company request.id (add_verification api v w) r s held
          (commit_held now company r acc w.financial d _ held own st has) v.verified
          (Agrees-none_noted authorized (verify i) g) in
      let done =
        verify_found api verify now company i authorized w request g.expected g.actual there
          g.expected_amount g.actual_amount
        ∙ ap (reported v) ends in
      (
        ap (λ x. is_committed x.0) done,
        ap (λ x. find_first (has_id r.id) x.1.financial.reservations) done
            ∙ find_first-update_self (has_id r.id) (mark_committed api now) w.financial.reservations
                {r = r} (ground arith)
                (find-any_query Reservation.id _ w.financial.reservations {r = r} d held),
      )

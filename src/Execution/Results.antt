-- ===== src/Execution/Results.antt =====
-- The methods of `ExecutionResultService`. What the execution client answers is a parameter.
use orvex.Prelude.{
  ℕ, String, Bool, true, false, not, ◌&&◌, Option, none, some, List, [], ◌∷◌, ◌++◌, text_eq,
  if◌then◌else◌,
}
use orvex.Errors.{authentication_error, execution_failed, transaction_mismatch}
use orvex.Runtime.{Decimals}
use orvex.Outcome.{core, decimal_error, Action, pure, gets, or_throw, throw_if, modify, ◌>>=◌, ◌>>◌}
use orvex.Table.{find_first}
use orvex.Financial.Store.{Reservation, ReservationStatus}
use orvex.Financial.Service.{commit, release, reconcile_release, mark_unknown, is_reserved}
use orvex.Execution.Store.{
  World, ExecutionRequest, ExecutionResult, ResultStatus, submitted, RequestStatus, ReceiptValues,
  Discrepancy, recipient, asset, amount, network, executor_unverified, Verification, get_request,
  set_status, on_financial, is_for,
}

pub record ResultInput : Type 0 where
  pub execution_id : ℕ
  pub status : ResultStatus
  pub chain : String
  pub transaction_hash : Option String
  pub authenticated : Bool

-- What `verify` of the execution client returns.
pub record Receipt : Type 0 where
  pub actual : ReceiptValues
  pub verified : Bool
  pub transaction_hash : String

-- The status that `getResult` of the execution client returns.
pub data ExecutionStatus : Type 0 where
  confirmed pending failed unknown : ExecutionStatus

pub data ReconcileOutcome : Type 0 where
  confirmed failed still_unknown : ReconcileOutcome

abbrev pub mirror : ResultStatus → RequestStatus
mirror submitted = RequestStatus.submitted
mirror ResultStatus.confirmed = RequestStatus.confirmed
mirror ResultStatus.failed = RequestStatus.failed
mirror ResultStatus.unknown = RequestStatus.unknown

abbrev pub is_held : ReservationStatus → Bool
is_held ReservationStatus.reserved = true
is_held ReservationStatus.unknown = true
is_held _ = false

abbrev pub note_if : Bool → Discrepancy → List Discrepancy → List Discrepancy
note_if c d ds = if c then d ∷ ds else ds

-- What differs, in the order in which it is noted.
abbrev pub compare_receipt : ReceiptValues → Receipt → Bool → List Discrepancy
compare_receipt authorized receipt same_amount =
    note_if (not (text_eq authorized.recipient receipt.actual.recipient)) recipient (
      note_if (not (text_eq authorized.asset receipt.actual.asset)) asset (
        note_if (not same_amount) amount (
          note_if (not (text_eq authorized.network receipt.actual.network)) network
            (note_if (not receipt.verified) executor_unverified []))))

abbrev pub none_noted : List Discrepancy → Bool
none_noted [] = true
none_noted (_ ∷ _) = false

abbrev pub verification_row : ReceiptValues → Receipt → List Discrepancy → ℕ → ℕ → Verification
verification_row authorized receipt discrepancies now i = record {
  execution_request_id = i;
  verified = none_noted discrepancies;
  transaction_hash = receipt.transaction_hash;
  expected = authorized;
  actual = receipt.actual;
  discrepancies = discrepancies;
  verified_at = now;
}

module _ (api : Decimals) where
  open api use {Decimal, parse, equals}

  abbrev pub reserved_for : ℕ → ℕ → World Decimal → Option (Reservation Decimal)
  reserved_for company i w =
      find_first (λ r. is_for company i r && is_reserved api r.status) w.financial.reservations

  abbrev pub held_for : ℕ → ℕ → World Decimal → Option (Reservation Decimal)
  held_for company i w =
      find_first (λ r. is_for company i r && is_held r.status) w.financial.reservations

  unfoldable pub hold_reservation : ℕ → ℕ → Action (World Decimal) (Unit {0})
  hold_reservation company i w = elim (reserved_for company i w) [
    | none ↦ pure tt w
    | some r ↦ (on_financial (mark_unknown api company r.id) >> pure tt) w
  ]

  unfoldable pub release_reservation : ℕ → ℕ → ℕ → Action (World Decimal) (Unit {0})
  release_reservation now company i w = elim (reserved_for company i w) [
    | none ↦ pure tt w
    | some r ↦ (on_financial (release api now company r.id) >> pure tt) w
  ]

  abbrev pub result_row : ResultInput → ExecutionRequest → ExecutionResult
  result_row input request = record {
    execution_request_id = request.id;
    transaction_hash = input.transaction_hash;
    status = input.status;
    chain = input.chain;
  }

  abbrev pub add_result : ExecutionResult → World Decimal → World Decimal
  add_result r w = record w { results = w.results ++ r ∷ [] }

  -- What a reported status does to the reservation.
  unfoldable pub settle_reservation : ℕ → ℕ → ResultStatus → ℕ → Action (World Decimal) (Unit {0})
  unfolding hold_reservation release_reservation
  settle_reservation now company status i = elim status [
    | ResultStatus.unknown ↦ hold_reservation company i
    | ResultStatus.failed ↦ release_reservation now company i
    | submitted ↦ pure tt
    | ResultStatus.confirmed ↦ pure tt
  ]

  -- The writes are not in one transaction.
  unfoldable pub ingest_result : ℕ → ℕ → ResultInput → Action (World Decimal) ExecutionResult
  unfolding settle_reservation
  ingest_result now company input = do
    throw_if (not input.authenticated) (core authentication_error)
    found ← gets (get_request company input.execution_id)
    request ← or_throw (core execution_failed) found
    throw_if (not (text_eq input.chain request.network)) (core transaction_mismatch)
    modify (add_result (result_row input request))
    modify (set_status request.id (mirror input.status))
    settle_reservation now company input.status request.id
    pure (result_row input request)

  -- What the authoritative status does to the reservation and to the request.
  unfoldable pub reconcile_request :
      ℕ → ℕ → ExecutionStatus → ℕ → Action (World Decimal) ReconcileOutcome
  reconcile_request now company status i = elim status [
    | ExecutionStatus.confirmed ↦ do
      modify (set_status i RequestStatus.confirmed)
      pure ReconcileOutcome.confirmed
    | ExecutionStatus.failed ↦ do
      modify (set_status i RequestStatus.failed)
      held ← gets (held_for company i)
      elim held [
        | none ↦ pure ReconcileOutcome.failed
        | some r ↦
            on_financial (reconcile_release api now company r.id) >> pure ReconcileOutcome.failed
      ]
    | pending ↦ pure still_unknown
    | ExecutionStatus.unknown ↦ pure still_unknown
  ]

  unfoldable pub reconcile :
      (ℕ → ExecutionStatus) → ℕ → ℕ → ℕ → Action (World Decimal) ReconcileOutcome
  unfolding reconcile_request
  reconcile get_result now company i = do
    found ← gets (get_request company i)
    request ← or_throw (core execution_failed) found
    reconcile_request now company (get_result i) request.id

  abbrev pub add_verification : Verification → World Decimal → World Decimal
  add_verification v w = record w { verifications = w.verifications ++ v ∷ [] }

  -- The reservation is committed on a verified receipt, if it is RESERVED.
  unfoldable pub finalize : ℕ → ℕ → ℕ → Bool → Action (World Decimal) Bool
  finalize now company i verified w = elim verified [
    | false ↦ pure false w
    | true ↦ elim (reserved_for company i w) [
      | none ↦ pure false w
      | some r ↦ (on_financial (commit api now company r.id) >> pure true) w
    ]
  ]

  unfoldable pub verify_and_finalize :
      (ℕ → Receipt) → ℕ → ℕ → ℕ → ReceiptValues → Action (World Decimal) (Verification × Bool)
  unfolding finalize
  verify_and_finalize verify now company i authorized = do
    found ← gets (get_request company i)
    request ← or_throw (core execution_failed) found
    expected ← or_throw decimal_error (parse authorized.amount)
    actual ← or_throw decimal_error (parse (verify i).actual.amount)
    row ← gets (λ w.
        verification_row authorized (verify i)
          (compare_receipt authorized (verify i) (equals expected actual)) now request.id)
    modify (add_verification row)
    committed ← finalize now company request.id row.verified
    pure (row, committed)

-- ===== src/Execution/Settlements.antt =====
-- Which call of the financial service a report, a reconciliation or a verification amounts to: what
-- Backend/src/execution-gate/execution-result.service.ts is to do to the money.
pub mod Reports
pub mod Reconciled
pub mod Verified
pub mod History
use orvex.Prelude.{
  ℕ, Bool, true, false, none, some, ◌≡◌, ◌≢◌, refl, sym, ◌∙◌, ap, ◌⊎◌, inl, inr, arith, Bool-cases,
  Option-cases, text_eq, text_eq_iff, List, [], ◌∷◌,
}
use mathlib.Core.Path.{subst}
use orvex.Runtime.{Decimals}
use orvex.Outcome.{Result, ok, err}
use orvex.Financial.Store.{Store, Reservation}
use orvex.Financial.Calls.{
  Call as FinancialCall, commit_call, release_call, reconcile_call, mark_unknown_call,
  perform as financial_perform, perform_all as financial_perform_all,
}
use orvex.Execution.Store.{
  World, ExecutionRequest, ResultStatus, submitted, unknown, ReceiptValues, Verification,
  get_request,
}
use orvex.Execution.Results.{
  ExecutionStatus, pending, ResultInput, reserved_for, held_for, hold_reservation,
  release_reservation, settle_reservation, ingest_result, reconcile_request, reconcile, finalize,
  verify_and_finalize, add_verification,
}
use orvex.Execution.Calls.{
  Call, ingest_call, reconcile_result_call, verify_call, Client, perform, perform_all, noted,
}
use orvex.Execution.Receipts.{Agrees, row, verify_found, world_reported, none_noted-Agrees}
use orvex.Execution.Payment.{Agrees-none_noted}

module _ (api : Decimals) where
  open api use {Decimal, parse, equals}

  -- A report that is let in: authenticated, of a request of the company, on its network.
  pub record IsGenuine (company : ℕ) (input : ResultInput) (w : World Decimal)
      (request : ExecutionRequest) : Type 0 where
    pub authenticated : input.authenticated ≡ true
    pub there : get_request company input.execution_id w ≡ some request
    pub same_chain : input.chain ≡ request.network

  -- The reports that have a consequence for the money.
  abbrev pub moves_money : ResultStatus → Bool
  moves_money unknown = true
  moves_money ResultStatus.failed = true
  moves_money _ = false

  -- The call of the financial service that belongs to a call of the results service.
  pub data Belongs (w : World Decimal) : Client → Call → FinancialCall api → Type 0 where
    -- an UNKNOWN report leaves the amount held
    report_unknown :
        {client : Client} (now company : ℕ) (input : ResultInput) (request : ExecutionRequest)
        (r : Reservation Decimal)
        → IsGenuine company input w request
        → input.status ≡ unknown
        → reserved_for api company request.id w ≡ some r
        → Belongs w client (ingest_call now company input) (mark_unknown_call company r.id)
    -- a FAILED report gives it back
    report_failed :
        {client : Client} (now company : ℕ) (input : ResultInput) (request : ExecutionRequest)
        (r : Reservation Decimal)
        → IsGenuine company input w request
        → input.status ≡ ResultStatus.failed
        → reserved_for api company request.id w ≡ some r
        → Belongs w client (ingest_call now company input) (release_call now company r.id)
    -- so does a request that the client says has FAILED, also from UNKNOWN
    reconciled_failed :
        {client : Client} (now company i : ℕ) (request : ExecutionRequest) (r : Reservation Decimal)
        → get_request company i w ≡ some request
        → client.get_result i ≡ ExecutionStatus.failed
        → held_for api company request.id w ≡ some r
        → Belongs w client (reconcile_result_call now company i) (reconcile_call now company r.id)
    -- a receipt that agrees with what was authorized spends it
    verified :
        {client : Client} (now company i : ℕ) (authorized : ReceiptValues)
        (request : ExecutionRequest) (r : Reservation Decimal)
        → get_request company i w ≡ some request
        → Agrees api authorized (client.verify i)
        → reserved_for api company request.id w ≡ some r
        → Belongs w client (verify_call now company i authorized) (commit_call now company r.id)

  abbrev pub IsUnmoved : Client → Call → World Decimal → Type 0
  IsUnmoved client c w = (perform api client c w).financial ≡ w.financial

  abbrev pub IsMoved : Client → Call → World Decimal → FinancialCall api → Type 0
  IsMoved client c w f = (perform api client c w).financial ≡ financial_perform api f w.financial

  -- What a reason says of the call that it is a reason for.
  abbrev pub HasReason : Client → World Decimal → Call → Type 0
  HasReason client w (ingest_call now company input) =
      (request : ExecutionRequest) × ((r : Reservation Decimal) × (IsGenuine company input w request
          × ((reserved_for api company request.id w ≡ some r) × (moves_money input.status ≡ true))))
  HasReason client w (reconcile_result_call now company i) =
      (request : ExecutionRequest) × ((r : Reservation Decimal) × ((get_request company i w
            ≡ some request)
          × ((client.get_result i ≡ ExecutionStatus.failed)
              × (held_for api company request.id w ≡ some r))))
  HasReason client w (verify_call now company i authorized) =
      (request : ExecutionRequest) × ((r : Reservation Decimal) × ((get_request company i w
            ≡ some request)
          × (Agrees api authorized (client.verify i)
              × (reserved_for api company request.id w ≡ some r))))

  pub Belongs-HasReason :
      (client : Client) (c : Call) (w : World Decimal) (f : FinancialCall api)
      → Belongs w client c f
      → HasReason client w c
  Belongs-HasReason client _ w _ (report_unknown now company input request r g e held) =
      (request, (r, (g, (held, rw e refl))))
  Belongs-HasReason client _ w _ (report_failed now company input request r g e held) =
      (request, (r, (g, (held, rw e refl))))
  Belongs-HasReason client _ w _ (reconciled_failed now company i request r there e held) =
      (request, (r, (there, (e, held))))
  Belongs-HasReason client _ w _ (verified now company i authorized request r there g held) =
      (request, (r, (there, (g, held))))

  -- No call of the financial service belongs to the call, and it moves nothing.
  abbrev pub IsIdle : Client → Call → World Decimal → Type 0
  IsIdle client c w = ((f : FinancialCall api) → Belongs w client c f → ⊥) × IsUnmoved client c w

  pub idle :
      (client : Client) (c : Call) (w : World Decimal)
      → (HasReason client w c → ⊥)
      → IsUnmoved client c w
      → IsIdle client c w
  idle client c w none_such same = (λ f h. none_such (Belongs-HasReason client c w f h), same)

-- ===== src/Execution/Store.antt =====
-- The rows of executions, and the database of the services together.
use orvex.Prelude.{ℕ, String, Bool, false, ◌&&◌, Option, none, some, List, ◌==◌}
use orvex.Outcome.{Action}
use orvex.Table.{find_first, update_first}
use orvex.Financial.Store.{Reservation}
use orvex.Financial.Store.{Store as FinancialStore}
use orvex.Authority.Store.{Store as AuthorityStore}
use orvex.Versions.Store.{Store as VersionStore}
use orvex.Approval.Service.{Store as ApprovalStore}
use orvex.Idempotency.Service.{Store as IdempotencyStore}

pub data RequestStatus : Type 0 where
  created authorized submitted confirmed failed unknown cancelled : RequestStatus

pub data ResultStatus : Type 0 where
  submitted confirmed failed unknown : ResultStatus

pub record ExecutionRequest : Type 0 where
  pub id : ℕ
  pub company_id : ℕ
  pub agent_id : ℕ
  pub decision_id : ℕ
  pub transaction_id : String
  pub policy_version_id : Option ℕ
  pub authorization_context_hash : String
  pub idempotency_key : String
  pub network : String
  pub status : RequestStatus
  pub authorized_at : Option ℕ

pub record ExecutionResult : Type 0 where
  pub execution_request_id : ℕ
  pub transaction_hash : Option String
  pub status : ResultStatus
  pub chain : String

-- The values of a receipt that are compared.
pub record ReceiptValues : Type 0 where
  pub recipient : String
  pub asset : String
  pub amount : String
  pub network : String

pub data Discrepancy : Type 0 where
  recipient asset amount network executor_unverified : Discrepancy

-- `verified` is VERIFIED, and MISMATCH if it is false.
pub record Verification : Type 0 where
  pub execution_request_id : ℕ
  pub verified : Bool
  pub transaction_hash : String
  pub expected : ReceiptValues
  pub actual : ReceiptValues
  pub discrepancies : List Discrepancy
  pub verified_at : ℕ

pub record World (D : Type 0) : Type 0 where
  pub authority : AuthorityStore D
  pub versions : VersionStore
  pub approvals : ApprovalStore
  pub idempotency : IdempotencyStore
  pub financial : FinancialStore D
  pub requests : List ExecutionRequest
  pub results : List ExecutionResult
  pub verifications : List Verification
  pub next_id : ℕ

abbrev pub is_request_of : ℕ → ℕ → ExecutionRequest → Bool
is_request_of company i r = r.id == i && r.company_id == company

module _ {D : Type 0} where
  abbrev pub get_request : ℕ → ℕ → World D → Option ExecutionRequest
  get_request company i w = find_first (is_request_of company i) w.requests

  abbrev pub set_status : ℕ → RequestStatus → World D → World D
  set_status i status w = record w {
    requests = update_first (λ r. r.id == i) (λ r. record r { status = status }) w.requests;
  }

  -- A method of the financial service on its tables.
  abbrev pub on_financial : {A : Type 0} → Action (FinancialStore D) A → Action (World D) A
  on_financial m w = let (r, f) = m w.financial in (r, record w { financial = f })

  abbrev pub on_idempotency : {A : Type 0} → Action IdempotencyStore A → Action (World D) A
  on_idempotency m w = let (r, f) = m w.idempotency in (r, record w { idempotency = f })

  abbrev pub is_for : ℕ → ℕ → Reservation D → Bool
  is_for company i r = r.company_id == company && is_same r.execution_request_id
    where
      is_same : Option ℕ → Bool
      is_same none = false
      is_same (some e) = e == i

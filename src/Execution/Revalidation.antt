-- ===== src/Execution/Revalidation.antt =====
-- `FinalRevalidationService.revalidate`.
use orvex.Prelude.{
  ℕ, suc, String, Bool, true, false, ◌&&◌, Option, none, some, [], ◌∷◌, ◌++◌, ◌==◌, text_eq,
  if◌then◌else◌,
}
use orvex.Errors.{policy_violation}
use orvex.Runtime.{Decimals, Host}
use orvex.Outcome.{Failure, core, Result, ok, err, Action, pure, gets, check, modify, ◌>>=◌, ◌>>◌}
use orvex.Table.{find_first}
use orvex.Decision.Engine.{DecisionResult, Determinant, decide}
use orvex.Financial.Store.{AccountKey, AccountScope, Reservation, set_reservation}
use orvex.Financial.Service.{reserve}
use orvex.Idempotency.Service.{OperationKey, register}
use orvex.Execution.Store.{World, ExecutionRequest, authorized, on_financial, on_idempotency}
use orvex.Execution.Context.{RevalidateInput, Operation, Hashes, PolicyFacts}
use orvex.Execution.Derivation.{the_payload_hash, read_policy, fresh_hash, decision_input}

pub data Reason : Type 0 where
  decided : Determinant → Reason
  budget_exceeded allow_idempotent allow : Reason

pub record RevalidationOutcome : Type 0 where
  pub result : DecisionResult
  pub determinant : Reason
  pub execution_request : Option ExecutionRequest
  pub reservation_id : Option ℕ

abbrev pub is_policy_violation : Failure → Bool
is_policy_violation (core policy_violation) = true
is_policy_violation _ = false

-- The failure of a full budget is caught.
abbrev pub catch_over_budget : {S A : Type 0} → Result A × S → Result (Option A) × S
catch_over_budget (ok a, s) = (ok (some a), s)
catch_over_budget (err e, s) = if is_policy_violation e then (ok none, s) else (err e, s)

module _ (api : Decimals) (host : Host) (hashes : Hashes) where
  open api use {Decimal}
  open hashes use {payload_hash, context_hash, evaluation_hash, operation_hash, to_iso_string}

  module _ (input : RevalidateInput) (now : ℕ) where
    abbrev pub operation_key : OperationKey
    operation_key = record {
      company_id = input.company_id;
      operation_type = "EXECUTION";
      idempotency_key = the_payload_hash api host hashes input now;
    }

    abbrev pub operation : Operation
    operation = record {
      decision_id = input.decision_id;
      transaction_id = input.transaction_id;
      amount = input.amount;
      recipient = input.analysis.recipient;
      network = input.actual_network;
    }

    abbrev pub is_same_execution : ExecutionRequest → Bool
    is_same_execution r =
        r.company_id == input.company_id
        && text_eq r.idempotency_key (the_payload_hash api host hashes input now)

    abbrev pub account_key : AccountKey
    account_key = record {
      company_id = input.company_id;
      agent_id = some input.agent_id;
      scope = AccountScope.agent;
      scope_key = input.financial_scope_key;
      asset = input.asset;
      network = some input.actual_network;
    }

    unfoldable pub try_reserve : Action (World Decimal) (Option (Reservation Decimal))
    try_reserve w = catch_over_budget (on_financial (reserve api account_key none input.amount) w)

    abbrev pub new_request : PolicyFacts → String → ℕ → ExecutionRequest
    new_request facts fresh id = record {
      id = id;
      company_id = input.company_id;
      agent_id = input.agent_id;
      decision_id = input.decision_id;
      transaction_id = input.transaction_id;
      policy_version_id = facts.version_id;
      authorization_context_hash = fresh;
      idempotency_key = the_payload_hash api host hashes input now;
      network = input.actual_network;
      status = authorized;
      authorized_at = some now;
    }

    abbrev pub add_request : ExecutionRequest → World Decimal → World Decimal
    add_request r w = record w { requests = w.requests ++ r ∷ []; next_id = suc w.next_id }

    -- The reservation is bound to the request.
    abbrev pub bind_reservation : ℕ → ℕ → World Decimal → World Decimal
    bind_reservation reservation request w = record w {
      financial =
          set_reservation reservation (λ r. record r { execution_request_id = some request })
            w.financial;
    }

    abbrev pub refuse : DecisionResult → Reason → RevalidationOutcome
    refuse result reason = record {
      result = result;
      determinant = reason;
      execution_request = none;
      reservation_id = none;
    }

    abbrev pub reuse : ExecutionRequest → RevalidationOutcome
    reuse r = record {
      result = DecisionResult.allow;
      determinant = allow_idempotent;
      execution_request = some r;
      reservation_id = none;
    }

    -- The request for a budget that is held.
    unfoldable pub mint :
        PolicyFacts → String → Reservation Decimal → Action (World Decimal) RevalidationOutcome
    mint facts fresh reservation = do
      request ← gets (λ w. new_request facts fresh w.next_id)
      modify (add_request request)
      modify (bind_reservation reservation.id request.id)
      pure (record {
        result = DecisionResult.allow;
        determinant = Reason.allow;
        execution_request = some request;
        reservation_id = some reservation.id;
      })

    unfoldable pub reserve_and_mint :
        PolicyFacts → String → Action (World Decimal) RevalidationOutcome
    unfolding try_reserve mint
    reserve_and_mint facts fresh = do
      held ← try_reserve
      elim held [
        | none ↦ pure (refuse DecisionResult.deny budget_exceeded)
        | some reservation ↦ mint facts fresh reservation
      ]

    -- What follows an ALLOW.
    unfoldable pub authorize : PolicyFacts → String → Action (World Decimal) RevalidationOutcome
    unfolding reserve_and_mint
    authorize facts fresh = do
      registration ← on_idempotency (register operation_hash operation_key operation)
      existing ← gets (λ w. find_first is_same_execution w.requests)
      elim existing [ some r ↦ pure (reuse r) | none ↦ reserve_and_mint facts fresh ]

    unfoldable pub revalidate : Action (World Decimal) RevalidationOutcome
    unfolding read_policy decision_input authorize
    revalidate = do
      facts ← check (read_policy api host hashes input now)
      decision ← gets (λ w. decide (decision_input api host hashes input now facts w))
      fresh ← gets (fresh_hash api host hashes input now facts)
      elim decision.result [
        | DecisionResult.allow ↦ authorize facts fresh
        | other ↦ pure (refuse other (decided decision.determinant))
      ]

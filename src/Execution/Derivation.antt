-- ===== src/Execution/Derivation.antt =====
-- What `revalidate` derives from the current rows: up to the input of the decision engine.
use orvex.Prelude.{
  ℕ, String, Bool, not, ◌&&◌, ◌||◌, Option, none, some, [], text_eq, is_some, if◌then◌else◌,
}
use orvex.Runtime.{Decimals, Host}
use orvex.Outcome.{Result, ok, err}
use orvex.Gate.Compare.{
  proposal_recipient, proposal_amount, proposal_currency, compare_proposal_vs_transaction,
}
use orvex.Gate.Simulation.{validate_simulation_binding, classify_simulation}
use orvex.Policy.Rules.{EvaluationContext}
use orvex.Policy.Engine.{evaluate}
use orvex.Decision.Engine.{ApprovalState, not_required, required, DecisionInput}
use orvex.Versions.Store.{VersionRow, get_active_version}
use orvex.Versions.Service.{load_rules}
use orvex.Approval.Service.{resolve_approval_state}
use orvex.Authority.Store.{Agent, Capability, get_agent}
use orvex.Authority.Constitutions.{get_active_constitution}
use orvex.Authority.Capabilities.{get_active_capabilities}
use orvex.Execution.Store.{World}
use orvex.Execution.Context.{
  RevalidateInput, Hashes, PolicyFacts, is_active_agent, is_intent_valid, is_assessment_old, is_pay,
  first, no_policy, payload, optional_time,
}

module _ (api : Decimals) (host : Host) (hashes : Hashes) where
  open api use {Decimal}
  open hashes use {payload_hash, context_hash, evaluation_hash, operation_hash, to_iso_string}

  module _ (input : RevalidateInput) (now : ℕ) where
    abbrev pub the_payload_hash : String
    the_payload_hash = payload_hash (payload input)

    abbrev pub find_agent : World Decimal → Option Agent
    find_agent w = get_agent input.company_id input.agent_id w.authority

    -- The first of the agent's capabilities that are ACTIVE at this time.
    abbrev pub find_capability : World Decimal → Option (Capability Decimal)
    find_capability w = elim (find_agent w) [
      | none ↦ none
      | some a ↦ first (get_active_capabilities api input.company_id input.agent_id now w.authority)
    ]

    abbrev pub expiry : Option (Capability Decimal) → Option ℕ
    expiry none = none
    expiry (some c) = c.expires_at

    abbrev pub evaluation_context : Option (Capability Decimal) → EvaluationContext
    evaluation_context capability = record {
      transaction = record {
        amount = proposal_amount input.proposal;
        asset = proposal_currency input.proposal;
        network = input.proposal.network;
        category = none;
        recipient = proposal_recipient input.proposal;
      };
      cumulative_spent = [];
      cumulative_by_key = [];
      known_recipients = [];
      trajectory_event_types = [];
      recent_transactions = [];
      capability_expires_at = optional_time to_iso_string (expiry capability);
      now = to_iso_string now;
    }

    -- The evaluation of an ACTIVE version, by its rules.
    unfoldable pub evaluate_version :
        Option (Capability Decimal) → ℕ → VersionRow → World Decimal → Result PolicyFacts
    evaluate_version capability policy v w = elim (load_rules input.company_id v.id w.versions).0 [
      | err e ↦ err e
      | ok rules ↦ elim (evaluate api host rules (evaluation_context capability)) [
        | err e ↦ err e
        | ok evaluation ↦ ok (record {
          version_id = some v.id;
          version = v.version;
          evaluation_hash = evaluation_hash policy v.version rules (evaluation_context capability);
          status = evaluation.status;
        })
      ]
    ]

    abbrev pub policy_id : World Decimal → Option ℕ
    policy_id w = elim (find_agent w) [ none ↦ none | some a ↦ a.active_policy_id ]

    unfoldable pub read_policy : World Decimal → Result PolicyFacts
    unfolding evaluate_version
    read_policy w = elim (policy_id w) [
      | none ↦ ok no_policy
      | some policy ↦ elim (get_active_version input.company_id policy w.versions) [
        | none ↦ ok no_policy
        | some v ↦ evaluate_version (find_capability w) policy v w
      ]
    ]

    unfoldable pub approval_state : World Decimal → ApprovalState
    approval_state w = elim input.approval_id [
      | none ↦ not_required
      | some i ↦
          required
            (resolve_approval_state input.company_id i input.decision_context_hash now w.approvals)
    ]

    -- The context hash derived now.
    abbrev pub fresh_hash : PolicyFacts → World Decimal → String
    fresh_hash facts w = context_hash (record {
      intent_id = input.intent_id;
      proposal_id = input.proposal.proposal_id;
      policy_id = policy_id w;
      policy_version = facts.version;
      policy_evaluation_hash = facts.evaluation_hash;
      security_assessment_id = input.assessment_id;
      transaction_id = input.transaction_id;
      transaction_payload_hash = the_payload_hash;
      simulation_id = input.simulation.transaction_id;
      approval_context_hash =
          if is_some input.approval_id then some input.decision_context_hash else none;
    })

    abbrev pub is_stale : PolicyFacts → World Decimal → Bool
    is_stale facts w =
        is_assessment_old host input now
        || (not (text_eq input.decision_context_hash "")
            && not (text_eq input.decision_context_hash (fresh_hash facts w)))

    unfoldable pub decision_input : PolicyFacts → World Decimal → DecisionInput
    unfolding approval_state
    decision_input facts w = record {
      platform_invariant_violated = none;
      agent_active = is_active_agent (find_agent w);
      intent_valid = is_intent_valid host input now;
      capability_valid = is_some (find_capability w);
      constitution_compatible =
          is_some (get_active_constitution input.company_id input.agent_id w.authority);
      policy_status = facts.status;
      transaction_gate = some (
          compare_proposal_vs_transaction api input.proposal input.analysis (record {
            expected_network = input.expected_network;
            actual_network = input.actual_network;
            expect_simple_payment = some (is_pay input.proposal.action_type);
          }));
      simulation_required = input.simulation_required;
      simulation_outcome = some (classify_simulation input.simulation);
      simulation_binding = some (
          validate_simulation_binding input.simulation (record {
            transaction_id = input.transaction_id;
            simulated_payload_hash = input.simulated_payload_hash;
            current_payload_hash = the_payload_hash;
          }));
      context_stale = some (is_stale facts w);
      approval = approval_state w;
      ai_recommended_handling = some input.recommended_handling;
    }

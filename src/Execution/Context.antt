-- ===== src/Execution/Context.antt =====
-- What `revalidate` reads and derives before it decides.
use orvex.Prelude.{ℕ, ◌+◌, String, Bool, true, false, ◌&&◌, Option, none, some, List, [], ◌∷◌, ltb}
use orvex.Runtime.{Host}
use orvex.Gate.Contracts.{ActionProposal, ActionType, pay, TransactionAnalysis, SimulationResult}
use orvex.Policy.Rules.{CompiledRule, EvaluationContext}
use orvex.Decision.Engine.{PolicyStatus, RecommendedHandling}
use orvex.Authority.Store.{Agent, AgentStatus}

pub data IntentStatus : Type 0 where
  valid needs_clarification expired invalid : IntentStatus

pub record RevalidateInput : Type 0 where
  pub company_id : ℕ
  pub agent_id : ℕ
  pub decision_id : ℕ
  pub intent_id : String
  pub intent_status : IntentStatus
  pub valid_until : String
  pub proposal : ActionProposal
  pub assessment_id : String
  pub assessment_created_at : String
  pub recommended_handling : RecommendedHandling
  pub transaction_id : String
  pub analysis : TransactionAnalysis
  pub expected_network : String
  pub actual_network : String
  pub simulation : SimulationResult
  pub simulated_payload_hash : String
  pub approval_id : Option ℕ
  pub decision_context_hash : String
  pub financial_scope_key : String
  pub asset : String
  pub amount : String
  pub assessment_max_age : Option ℕ
  pub simulation_required : Option Bool

-- The fields of `transactionPayloadHash`.
pub record Payload : Type 0 where
  pub transaction_id : String
  pub network : String
  pub recipient : String
  pub amount : String
  pub asset : String
  pub contract_address : String
  pub function_selector : String

-- The fields of `DecisionEngine.contextHash`.
pub record HashContext : Type 0 where
  pub intent_id : String
  pub proposal_id : String
  pub policy_id : Option ℕ
  pub policy_version : ℕ
  pub policy_evaluation_hash : String
  pub security_assessment_id : String
  pub transaction_id : String
  pub transaction_payload_hash : String
  pub simulation_id : String
  pub approval_context_hash : Option String

-- The request that the idempotency record is registered for.
pub record Operation : Type 0 where
  pub decision_id : ℕ
  pub transaction_id : String
  pub amount : String
  pub recipient : String
  pub network : String

-- `sha256Json` of what it is applied to, and `toISOString`.
pub record Hashes : Type 0 where
  pub payload_hash : Payload → String
  pub context_hash : HashContext → String
  pub evaluation_hash : ℕ → ℕ → List CompiledRule → EvaluationContext → String
  pub operation_hash : Operation → String
  pub to_iso_string : ℕ → String

-- What is read of the policy of an agent.
pub record PolicyFacts : Type 0 where
  pub version_id : Option ℕ
  pub version : ℕ
  pub evaluation_hash : String
  pub status : PolicyStatus

abbrev pub is_active_agent : Option Agent → Bool
is_active_agent none = false
is_active_agent (some a) = elim a.status [ AgentStatus.active ↦ true | _ ↦ false ]

abbrev pub is_valid_intent : IntentStatus → Bool
is_valid_intent valid = true
is_valid_intent _ = false

-- The time is no number, or it lies after now.
abbrev pub is_after : Option ℕ → ℕ → Bool
is_after none now = true
is_after (some t) now = ltb now t

-- The time is no number, or more than the age before now.
abbrev pub is_older : Option ℕ → ℕ → ℕ → Bool
is_older none age now = true
is_older (some t) age now = ltb (t + age) now

abbrev pub is_pay : ActionType → Bool
is_pay pay = true
is_pay _ = false

abbrev pub first : {A : Type 0} → List A → Option A
first [] = none
first (x ∷ xs) = some x

abbrev pub no_policy : PolicyFacts
no_policy = record {
  version_id = none;
  version = 0;
  evaluation_hash = "none";
  status = PolicyStatus.fail;
}

module _ (host : Host) where
  open host use {get_time}

  abbrev pub is_intent_valid : RevalidateInput → ℕ → Bool
  is_intent_valid input now =
      is_valid_intent input.intent_status && is_after (get_time input.valid_until) now

  abbrev pub is_assessment_old : RevalidateInput → ℕ → Bool
  is_assessment_old input now = elim input.assessment_max_age [
    | none ↦ false
    | some age ↦ is_older (get_time input.assessment_created_at) age now
  ]

abbrev pub payload : RevalidateInput → Payload
payload input = record {
  transaction_id = input.transaction_id;
  network = input.actual_network;
  recipient = input.analysis.recipient;
  amount = input.analysis.amount;
  asset = input.analysis.asset;
  contract_address = input.analysis.contract_address;
  function_selector = input.analysis.function.selector;
}

abbrev pub optional_time : (ℕ → String) → Option ℕ → Option String
optional_time show none = none
optional_time show (some t) = some (show t)

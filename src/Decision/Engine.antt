-- ===== src/Decision/Engine.antt =====
-- `DecisionEngine.decide`.
use orvex.Prelude.{Bool, true, false, not, ◌&&◌, Option, none, some, if◌then◌else◌, truthy}
use orvex.Gate.Compare.{GateStatus, match, GateResult}
use orvex.Gate.Simulation.{BindingStatus, SimulationOutcome}

pub data DecisionResult : Type 0 where
  allow review deny : DecisionResult

-- `absent` is NONE: there is no such request.
pub data ApprovalStatus : Type 0 where
  absent pending approved denied expired mismatch : ApprovalStatus

pub data ApprovalState : Type 0 where
  not_required : ApprovalState
  required : ApprovalStatus → ApprovalState

pub data PolicyStatus : Type 0 where
  pass fail review : PolicyStatus

pub data RecommendedHandling : Type 0 where
  proceed_candidate monitor review deny_recommended : RecommendedHandling

pub record DecisionInput : Type 0 where
  pub platform_invariant_violated : Option Bool
  pub agent_active : Bool
  pub intent_valid : Bool
  pub capability_valid : Bool
  pub constitution_compatible : Bool
  pub policy_status : PolicyStatus
  pub transaction_gate : Option GateResult
  pub simulation_required : Option Bool
  pub simulation_outcome : Option SimulationOutcome
  pub simulation_binding : Option BindingStatus
  pub context_stale : Option Bool
  pub approval : ApprovalState
  pub ai_recommended_handling : Option RecommendedHandling

pub data Determinant : Type 0 where
  platform_invariant agent_inactive intent_invalid constitution_incompatible : Determinant
  capability_invalid policy_violation transaction_mismatch : Determinant
  simulation_binding_invalid simulation_deny simulation_required context_stale : Determinant
  approval_denied approval_expired approval_mismatch approval_required : Determinant
  policy_review ai_advisory_review simulation_review allow : Determinant

pub record DecisionOutput : Type 0 where
  pub result : DecisionResult
  pub determinant : Determinant

abbrev pub deny_by : Determinant → DecisionOutput
deny_by d = record { result = DecisionResult.deny; determinant = d }

abbrev pub review_by : Determinant → DecisionOutput
review_by d = record { result = DecisionResult.review; determinant = d }

abbrev pub policy_failed : PolicyStatus → Bool
policy_failed fail = true
policy_failed _ = false

abbrev pub policy_wants_review : PolicyStatus → Bool
policy_wants_review PolicyStatus.review = true
policy_wants_review _ = false

abbrev pub gate_mismatch : Option GateResult → Bool
gate_mismatch none = false
gate_mismatch (some g) = elim g.status [ match ↦ false | GateStatus.mismatch ↦ true ]

abbrev pub binding_invalid : Option BindingStatus → Bool
binding_invalid none = false
binding_invalid (some BindingStatus.valid) = false
binding_invalid (some _) = true

abbrev pub outcome_denies : Option SimulationOutcome → Bool
outcome_denies (some SimulationOutcome.deny) = true
outcome_denies _ = false

-- The outcome is missing or FAIL_CLOSED.
abbrev pub outcome_missing : Option SimulationOutcome → Bool
outcome_missing none = true
outcome_missing (some SimulationOutcome.fail_closed) = true
outcome_missing _ = false

abbrev pub outcome_reviews : Option SimulationOutcome → Bool
outcome_reviews (some SimulationOutcome.review) = true
outcome_reviews _ = false

abbrev pub ai_wants_review : Option RecommendedHandling → Bool
ai_wants_review (some RecommendedHandling.review) = true
ai_wants_review (some deny_recommended) = true
ai_wants_review _ = false

-- What is left below the approval: reviews, then ALLOW.
unfoldable pub decide_reviews : DecisionInput → DecisionOutput
decide_reviews i =
    if policy_wants_review i.policy_status
    then review_by policy_review
    else if ai_wants_review i.ai_recommended_handling
    then review_by ai_advisory_review
    else if outcome_reviews i.simulation_outcome
    then review_by simulation_review
    else record { result = DecisionResult.allow; determinant = Determinant.allow }

-- The `switch` on a required approval.
unfoldable pub decide_approval : DecisionInput → DecisionOutput
unfolding decide_reviews
decide_approval i = elim i.approval [
  | not_required ↦ decide_reviews i
  | required status ↦ elim status [
    | approved ↦ decide_reviews i
    | denied ↦ deny_by approval_denied
    | expired ↦ deny_by approval_expired
    | ApprovalStatus.mismatch ↦ deny_by approval_mismatch
    | pending ↦ review_by approval_required
    | absent ↦ review_by approval_required
  ]
]

-- Steps 4 to 6: the transaction, the simulation and the freshness of the context.
unfoldable pub decide_transaction : DecisionInput → DecisionOutput
unfolding decide_approval
decide_transaction i =
    if gate_mismatch i.transaction_gate
    then deny_by transaction_mismatch
    else if binding_invalid i.simulation_binding
    then deny_by simulation_binding_invalid
    else if outcome_denies i.simulation_outcome
    then deny_by simulation_deny
    else if truthy i.simulation_required && outcome_missing i.simulation_outcome
    then deny_by Determinant.simulation_required
    else if truthy i.context_stale
    then deny_by Determinant.context_stale
    else decide_approval i

-- Steps 1 to 3: the platform, the authority and the policy.
unfoldable pub decide : DecisionInput → DecisionOutput
unfolding decide_transaction
decide i =
    if truthy i.platform_invariant_violated
    then deny_by platform_invariant
    else if not i.agent_active
    then deny_by agent_inactive
    else if not i.intent_valid
    then deny_by intent_invalid
    else if not i.constitution_compatible
    then deny_by constitution_incompatible
    else if not i.capability_valid
    then deny_by capability_invalid
    else if policy_failed i.policy_status
    then deny_by policy_violation
    else decide_transaction i

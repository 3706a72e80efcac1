-- ===== src/Decision/Ladder.antt =====
-- The ladder against its specification: when a decision is ALLOW, DENY or REVIEW.
use orvex.Prelude.{
  Bool, true, false, not, ◌&&◌, ◌||◌, ◌≡◌, refl, ap, ◌∙◌, arith, if◌then◌else◌, truthy,
}
use orvex.Decision.Engine.{
  DecisionResult, allow, review, deny, ApprovalState, not_required, required, ApprovalStatus,
  DecisionInput, DecisionOutput, policy_failed, policy_wants_review, gate_mismatch, binding_invalid,
  outcome_denies, outcome_missing, outcome_reviews, ai_wants_review, decide_reviews,
  decide_approval, decide_transaction, decide,
}

abbrev pub approval_granted : ApprovalState → Bool
approval_granted not_required = true
approval_granted (required ApprovalStatus.approved) = true
approval_granted (required _) = false

-- A human has refused, waited too long, or approved another context.
abbrev pub approval_refused : ApprovalState → Bool
approval_refused (required ApprovalStatus.denied) = true
approval_refused (required ApprovalStatus.expired) = true
approval_refused (required ApprovalStatus.mismatch) = true
approval_refused _ = false

-- The hard failures of the ladder, in no order.
abbrev pub blocked : DecisionInput → Bool
blocked i =
    truthy i.platform_invariant_violated
    || (not i.agent_active
        || (not i.intent_valid
            || (not i.constitution_compatible
                || (not i.capability_valid
                    || (policy_failed i.policy_status
                        || (gate_mismatch i.transaction_gate
                            || (binding_invalid i.simulation_binding
                                || (outcome_denies i.simulation_outcome
                                    || ((truthy i.simulation_required
                                          && outcome_missing i.simulation_outcome)
                                        || truthy i.context_stale)))))))))

abbrev pub scrutiny : DecisionInput → Bool
scrutiny i =
    policy_wants_review i.policy_status
    || (ai_wants_review i.ai_recommended_handling || outcome_reviews i.simulation_outcome)

-- The result that the specification names: hard failures and refusals deny, then what waits for a
-- human reviews, and only what is left is allowed.
abbrev pub specified : DecisionInput → DecisionResult
specified i =
    if blocked i || approval_refused i.approval
    then deny
    else if not (approval_granted i.approval) || scrutiny i
    then review
    else allow

-- One rung of the ladder.
rung :
    (c d : Bool) (x y : DecisionOutput) (z : DecisionResult)
    → x.result ≡ deny
    → y.result ≡ (if d then deny else z)
    → (if c then x else y).result ≡ (if c || d then deny else z)
rung true d x y z h k = h
rung false d x y z h k = k

or_assoc : (a b c : Bool) → ((a || b) || c) ≡ (a || (b || c))
or_assoc true b c = refl
or_assoc false b c = refl

spec_reviews :
    (i : DecisionInput) → (decide_reviews i).result ≡ (if scrutiny i then review else allow)
unfolding decide_reviews
spec_reviews i = ground arith

spec_approval :
    (i : DecisionInput)
    → (decide_approval i).result ≡ (
        if approval_refused i.approval
        then deny
        else if not (approval_granted i.approval) || scrutiny i
        then review
        else allow)
unfolding decide_approval
spec_approval i = ground (arith, spec_reviews i)

module _ (i : DecisionInput) where
  abbrev after_blocks : DecisionResult
  after_blocks = if not (approval_granted i.approval) || scrutiny i then review else allow

  abbrev transaction_blocked : Bool
  transaction_blocked =
      gate_mismatch i.transaction_gate
      || (binding_invalid i.simulation_binding
          || (outcome_denies i.simulation_outcome
              || ((truthy i.simulation_required && outcome_missing i.simulation_outcome)
                  || (truthy i.context_stale || approval_refused i.approval))))

  spec_transaction :
      (decide_transaction i).result ≡ (if transaction_blocked then deny else after_blocks)
  unfolding decide_transaction
  spec_transaction = rung (gate_mismatch i.transaction_gate) _ _ _ after_blocks refl (
      rung (binding_invalid i.simulation_binding) _ _ _ after_blocks refl (
        rung (outcome_denies i.simulation_outcome) _ _ _ after_blocks refl (
          rung (truthy i.simulation_required && outcome_missing i.simulation_outcome) _ _ _
            after_blocks refl
            (rung (truthy i.context_stale) _ _ _ after_blocks refl (spec_approval i)))))

  -- The ladder decides as specified: DENY exactly when a hard check fails or an approval was
  -- refused, REVIEW exactly when none of that holds but an approval is missing or the policy, the
  -- advisory signal or the simulation asks for a review, and ALLOW otherwise.
  pub decide-specified : (decide i).result ≡ specified i
  unfolding decide
  decide-specified =
      rung (truthy i.platform_invariant_violated) _ _ _ after_blocks refl (
        rung (not i.agent_active) _ _ _ after_blocks refl (
          rung (not i.intent_valid) _ _ _ after_blocks refl (
            rung (not i.constitution_compatible) _ _ _ after_blocks refl (
              rung (not i.capability_valid) _ _ _ after_blocks refl
                (rung (policy_failed i.policy_status) _ _ _ after_blocks refl spec_transaction)))))
      ∙ ap (λ b. if b then deny else after_blocks) (simp or_assoc)

-- ===== src/Decision/Tests.antt =====
-- Decisions on one input.
use orvex.Prelude.{true, false, ◌≡◌, none, some, refl, ◌↔◌, if◌then◌else◌}
use orvex.Decision.Engine.{
  allow, deny, not_required, required, ApprovalStatus, PolicyStatus, DecisionInput,
  deny_recommended, ai_wants_review, capability_invalid, decide,
}
use orvex.Decision.Ladder.{specified, decide-specified}
use orvex.Decision.Safety.{
  IsAuthorized, allow_iff_IsAuthorized, advised, ai_only_raises_scrutiny, with_approval,
  approval_overrides_nothing, approval_lifts_requirement, raised,
}

-- Everything in order; an approval was required and given.
abbrev in_order : DecisionInput
in_order = record {
  platform_invariant_violated = none;
  agent_active = true;
  intent_valid = true;
  capability_valid = true;
  constitution_compatible = true;
  policy_status = PolicyStatus.pass;
  transaction_gate = none;
  simulation_required = none;
  simulation_outcome = none;
  simulation_binding = none;
  context_stale = some false;
  approval = required ApprovalStatus.approved;
  ai_recommended_handling = none;
}

abbrev no_capability : DecisionInput
no_capability = record in_order { capability_valid = false }

allows : (decide in_order).result ≡ allow
unfolding decide
allows = refl

denies : decide no_capability ≡ record { result = deny; determinant = capability_invalid }
unfolding decide
denies = refl

decide-specified_example : (decide no_capability).result ≡ specified no_capability
decide-specified_example = decide-specified no_capability

allow_iff_IsAuthorized_example : ((decide in_order).result ≡ allow) ↔ IsAuthorized in_order
allow_iff_IsAuthorized_example = allow_iff_IsAuthorized in_order

ai_only_raises_scrutiny_example : (decide (advised in_order (some deny_recommended))).result ≡ (
    if ai_wants_review (some deny_recommended)
    then raised (decide (advised in_order none)).result
    else (decide (advised in_order none)).result)
ai_only_raises_scrutiny_example = ai_only_raises_scrutiny in_order (some deny_recommended)

approval_overrides_nothing_example :
    (decide (with_approval no_capability (required ApprovalStatus.approved))).result ≡ deny
approval_overrides_nothing_example =
    approval_overrides_nothing no_capability (required ApprovalStatus.approved) refl

approval_lifts_requirement_example :
    (decide (with_approval in_order (required ApprovalStatus.approved))).result
    ≡ (decide (with_approval in_order not_required)).result
approval_lifts_requirement_example =
    approval_lifts_requirement in_order (required ApprovalStatus.approved) refl

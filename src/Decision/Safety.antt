-- ===== src/Decision/Safety.antt =====
-- What ALLOW guarantees, and what an advisory signal and a human approval cannot do.
use orvex.Prelude.{
  Bool, true, false, not, ◌&&◌, ◌||◌, ◌≡◌, ◌↔◌, Option, none, refl, sym, ◌∙◌, arith, if◌then◌else◌,
  truthy,
}
use orvex.Decision.Engine.{
  DecisionResult, allow, review, deny, ApprovalState, not_required, DecisionInput,
  RecommendedHandling, policy_failed, policy_wants_review, gate_mismatch, binding_invalid,
  outcome_denies, outcome_missing, outcome_reviews, ai_wants_review, decide,
}
use orvex.Decision.Ladder.{
  approval_granted, approval_refused, blocked, scrutiny, specified, decide-specified,
}

-- All that an authorization rests on.
pub record IsAuthorized (i : DecisionInput) : Type 0 where
  pub platform_intact : truthy i.platform_invariant_violated ≡ false
  pub agent_is_active : i.agent_active ≡ true
  pub intent_is_valid : i.intent_valid ≡ true
  pub constitution_allows : i.constitution_compatible ≡ true
  pub capability_is_valid : i.capability_valid ≡ true
  pub policy_not_failed : policy_failed i.policy_status ≡ false
  pub policy_no_review : policy_wants_review i.policy_status ≡ false
  pub gate_matches : gate_mismatch i.transaction_gate ≡ false
  pub simulation_bound : binding_invalid i.simulation_binding ≡ false
  pub simulation_passes : outcome_denies i.simulation_outcome ≡ false
  pub simulation_expected : outcome_reviews i.simulation_outcome ≡ false
  pub simulation_present :
      (truthy i.simulation_required && outcome_missing i.simulation_outcome) ≡ false
  pub context_fresh : truthy i.context_stale ≡ false
  pub approval_given : approval_granted i.approval ≡ true
  pub no_advisory_review : ai_wants_review i.ai_recommended_handling ≡ false

or_false : (a b : Bool) → (a || b) ≡ false → (a ≡ false) × (b ≡ false)
or_false a b h = ground arith

not-false : (a : Bool) → not a ≡ false → a ≡ true
not-false a h = ground arith

granted_not_refused : (a : ApprovalState) → approval_granted a ≡ true → approval_refused a ≡ false
granted_not_refused a h = ground arith

-- What `specified` says of ALLOW.
allow_parts :
    (b r g s : Bool)
    → (if b || r then deny else if not g || s then review else allow) ≡ allow
    → (b ≡ false) × (g ≡ true) × (s ≡ false)
allow_parts b r g s h = ground arith

Authorized_of_allow : (i : DecisionInput) → specified i ≡ allow → IsAuthorized i
Authorized_of_allow i h =
    let (b, g, s) =
      allow_parts (blocked i) (approval_refused i.approval) (approval_granted i.approval)
        (scrutiny i) h in
    let (b₁, r₁) = or_false _ _ b in
    let (b₂, r₂) = or_false _ _ r₁ in
    let (b₃, r₃) = or_false _ _ r₂ in
    let (b₄, r₄) = or_false _ _ r₃ in
    let (b₅, r₅) = or_false _ _ r₄ in
    let (b₆, r₆) = or_false _ _ r₅ in
    let (b₇, r₇) = or_false _ _ r₆ in
    let (b₈, r₈) = or_false _ _ r₇ in
    let (b₉, r₉) = or_false _ _ r₈ in
    let (b₁₀, b₁₁) = or_false _ _ r₉ in
    let (s₁, t₁) = or_false _ _ s in
    let (s₂, s₃) = or_false _ _ t₁ in
    record {
      platform_intact = b₁;
      agent_is_active = not-false i.agent_active b₂;
      intent_is_valid = not-false i.intent_valid b₃;
      constitution_allows = not-false i.constitution_compatible b₄;
      capability_is_valid = not-false i.capability_valid b₅;
      policy_not_failed = b₆;
      policy_no_review = s₁;
      gate_matches = b₇;
      simulation_bound = b₈;
      simulation_passes = b₉;
      simulation_expected = s₃;
      simulation_present = b₁₀;
      context_fresh = b₁₁;
      approval_given = g;
      no_advisory_review = s₂;
    }

allow_of_Authorized : (i : DecisionInput) → IsAuthorized i → specified i ≡ allow
allow_of_Authorized i a =
    rw
      (
        a.platform_intact,
        a.agent_is_active,
        a.intent_is_valid,
        a.constitution_allows,
        a.capability_is_valid,
        a.policy_not_failed,
        a.gate_matches,
        a.simulation_bound,
        a.simulation_passes,
        a.simulation_present,
        a.context_fresh,
        granted_not_refused i.approval a.approval_given,
        a.approval_given,
        a.policy_no_review,
        a.no_advisory_review,
        a.simulation_expected,
      )
      refl

-- The engine answers ALLOW exactly when every condition of an authorization holds.
pub allow_iff_IsAuthorized : (i : DecisionInput) → ((decide i).result ≡ allow) ↔ IsAuthorized i
allow_iff_IsAuthorized i = (
  λ h. Authorized_of_allow i (sym (decide-specified i) ∙ h),
  λ a. decide-specified i ∙ allow_of_Authorized i a,
)

abbrev pub advised : DecisionInput → Option RecommendedHandling → DecisionInput
advised i h = record i { ai_recommended_handling = h }

-- One step towards a human: ALLOW becomes REVIEW.
abbrev pub raised : DecisionResult → DecisionResult
raised allow = review
raised review = review
raised deny = deny

advised_parts :
    (b g p a o : Bool)
    → let result =
        λ (x : Bool). if b then deny else if g || (p || (x || o)) then review else allow in
      result a ≡ (if a then raised (result false) else result false)
advised_parts b g p a o = ground arith

-- Whatever the advisory signal says, the decision is the one without a signal, except that an
-- ALLOW becomes a REVIEW where the signal recommends a review or a denial. It neither lifts nor
-- adds a DENY, and never leads to ALLOW.
pub ai_only_raises_scrutiny :
    (i : DecisionInput) (h : Option RecommendedHandling)
    → (decide (advised i h)).result ≡ (
        if ai_wants_review h
        then raised (decide (advised i none)).result
        else (decide (advised i none)).result)
ai_only_raises_scrutiny i h =
    rw (decide-specified (advised i h), decide-specified (advised i none))
      (advised_parts (blocked i || approval_refused i.approval) (not (approval_granted i.approval))
        (policy_wants_review i.policy_status) (ai_wants_review h)
        (outcome_reviews i.simulation_outcome))

abbrev pub with_approval : DecisionInput → ApprovalState → DecisionInput
with_approval i a = record i { approval = a }

-- No state of a human approval overrides a hard failure: where one of the checks above the
-- approval fails, the decision is DENY.
pub approval_overrides_nothing :
    (i : DecisionInput) (a : ApprovalState)
    → blocked i ≡ true
    → (decide (with_approval i a)).result ≡ deny
approval_overrides_nothing i a b = decide-specified (with_approval i a) ∙ rw b refl

-- An approval that was granted lifts the requirement of one and nothing else: the input is decided
-- as if no approval were required.
pub approval_lifts_requirement :
    (i : DecisionInput) (a : ApprovalState)
    → approval_granted a ≡ true
    → (decide (with_approval i a)).result ≡ (decide (with_approval i not_required)).result
approval_lifts_requirement i a g =
    decide-specified (with_approval i a)
    ∙ (rw (g, granted_not_refused a g) refl ∙ sym (decide-specified (with_approval i not_required)))

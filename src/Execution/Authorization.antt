-- ===== src/Execution/Authorization.antt =====
-- What an ALLOW of the final revalidation rests on, and what a refusal leaves.
use orvex.Prelude.{
  ℕ, Bool, true, false, ◌≡◌, refl, ◌⊎◌, inl, inr, arith, Bool-cases, Option, none, some, is_some,
  Option-cases, text_eq_iff,
}
use orvex.Runtime.{Decimals, Host}
use orvex.Outcome.{Failure, Result, ok, err}
use orvex.Decision.Engine.{DecisionResult, decide}
use orvex.Decision.Safety.{IsAuthorized, allow_iff_IsAuthorized}
use orvex.Authority.Store.{Agent, AgentStatus, Constitution, Capability, get_agent}
use orvex.Authority.Constitutions.{get_active_constitution}
use orvex.Authority.Capabilities.{get_active_capabilities}
use orvex.Approval.Service.{resolve_approval_state}
use orvex.Decision.Engine.{ApprovalStatus, required, binding_invalid}
use orvex.Decision.Ladder.{approval_granted}
use orvex.Gate.Contracts.{SimulationResult}
use orvex.Gate.Simulation.{BindingExpectation, validate_simulation_binding}
use orvex.Execution.Store.{World}
use orvex.Execution.Context.{RevalidateInput, Hashes, PolicyFacts, is_active_agent, first}
use orvex.Execution.Derivation.{
  the_payload_hash, find_agent, find_capability, approval_state, read_policy, decision_input,
  fresh_hash,
}
use orvex.Execution.Revalidation.{RevalidationOutcome, authorize, revalidate}

abbrev pub is_allow : DecisionResult → Bool
is_allow DecisionResult.allow = true
is_allow _ = false

-- The call returned an ALLOW.
abbrev pub is_allowed : Result RevalidationOutcome → Bool
is_allowed (ok o) = is_allow o.result
is_allowed (err e) = false

pub Result-cases :
    {A : Type 0} (r : Result A) → ((e : Failure) × (r ≡ err e)) ⊎ ((a : A) × (r ≡ ok a))
Result-cases (ok a) = inr (a, refl)
Result-cases (err e) = inl (e, refl)

is_allow-allow : (r : DecisionResult) → is_allow r ≡ true → r ≡ DecisionResult.allow
is_allow-allow r h = ground (arith, h)

module _ (api : Decimals) (host : Host) (hashes : Hashes) (input : RevalidateInput) (now : ℕ)
    (w : World (Decimals.Decimal api)) where
  revalidate_unread :
      (e : Failure)
      → read_policy api host hashes input now w ≡ err e
      → revalidate api host hashes input now w ≡ (err e, w)
  unfolding revalidate
  revalidate_unread e h = ground (arith, h)

  module _ (facts : PolicyFacts) (h : read_policy api host hashes input now w ≡ ok facts) where
    abbrev decision : DecisionResult
    decision = (decide (decision_input api host hashes input now facts w)).result

    revalidate_refused :
        is_allow decision ≡ false
        → ((revalidate api host hashes input now w).1 ≡ w)
          × (is_allowed (revalidate api host hashes input now w).0 ≡ false)
    unfolding revalidate
    revalidate_refused n = ground (arith, h, n)

    revalidate_granted :
        decision ≡ DecisionResult.allow
        → revalidate api host hashes input now w
          ≡ authorize api host hashes input now facts
              (fresh_hash api host hashes input now facts w)
              w
    unfolding revalidate
    revalidate_granted a = ground (arith, h, a)

  -- What the rows of the database say now.
  pub record IsCurrent : Type 0 where
    pub agent : Agent
    pub agent_there : get_agent input.company_id input.agent_id w.authority ≡ some agent
    pub agent_active : agent.status ≡ AgentStatus.active
    pub constitution : Constitution
    pub constitution_there :
        get_active_constitution input.company_id input.agent_id w.authority ≡ some constitution
    pub capability : Capability (Decimals.Decimal api)
    pub capability_there :
        first (get_active_capabilities api input.company_id input.agent_id now w.authority)
        ≡ some capability
    pub simulated_payload :
        input.simulated_payload_hash ≡ the_payload_hash api host hashes input now
    pub approval_given :
        (input.approval_id ≡ none)
        ⊎ ((i : ℕ) × ((input.approval_id ≡ some i)
              × (resolve_approval_state input.company_id i input.decision_context_hash now
                    w.approvals
                  ≡ ApprovalStatus.approved)))

  is_some-some : {A : Type 0} (o : Option A) → is_some o ≡ true → (a : A) × (o ≡ some a)
  is_some-some none h = absurd (ground (arith, h))
  is_some-some (some a) h = (a, refl)

  active_status : (a : Agent) → is_active_agent (some a) ≡ true → a.status ≡ AgentStatus.active
  active_status a h = ground (arith, h)

  agent_of :
      (o : Option Agent)
      → is_active_agent o ≡ true
      → (a : Agent) × ((o ≡ some a) × (a.status ≡ AgentStatus.active))
  agent_of none h = absurd (ground (arith, h))
  agent_of (some a) h = (a, (refl, active_status a h))

  approved_status :
      (st : ApprovalStatus) → approval_granted (required st) ≡ true → st ≡ ApprovalStatus.approved
  approved_status st h = ground (arith, h)

  same_payload :
      (r : SimulationResult) (e : BindingExpectation)
      → binding_invalid (some (validate_simulation_binding r e)) ≡ false
      → e.simulated_payload_hash ≡ e.current_payload_hash
  unfolding validate_simulation_binding
  same_payload r e h =
      (text_eq_iff e.simulated_payload_hash e.current_payload_hash).0 (ground (arith, h))

  approval_of :
      approval_granted (approval_state api host hashes input now w) ≡ true
      → (input.approval_id ≡ none)
        ⊎ ((i : ℕ) × ((input.approval_id ≡ some i)
              × (resolve_approval_state input.company_id i input.decision_context_hash now
                    w.approvals
                  ≡ ApprovalStatus.approved)))
  unfolding approval_state
  approval_of h = elim (Option-cases input.approval_id) [
    | inl no_one ↦ inl no_one
    | inr (i, given) ↦ inr (i, (given, approved_status _ (ground (arith, h, given))))
  ]

  current_of_Authorized :
      (facts : PolicyFacts)
      → IsAuthorized (decision_input api host hashes input now facts w)
      → IsCurrent
  unfolding decision_input
  current_of_Authorized facts a =
      let (agent, (there, status)) =
        agent_of (find_agent api host hashes input now w) a.agent_is_active in
      let (constitution, c) =
        is_some-some (get_active_constitution input.company_id input.agent_id w.authority)
          a.constitution_allows in
      let (capability, k) =
        is_some-some (find_capability api host hashes input now w) a.capability_is_valid in
      record {
        agent = agent;
        agent_there = there;
        agent_active = status;
        constitution = constitution;
        constitution_there = c;
        capability = capability;
        capability_there = ground (arith, k, there);
        simulated_payload = same_payload _ _ a.simulation_bound;
        approval_given = approval_of a.approval_given;
      }

  -- `revalidate` writes nothing and does not answer ALLOW, or these hold of the database as it is
  -- now: the agent's policy was read and evaluated; every condition of an authorization holds of
  -- the decision input; the agent is there and ACTIVE, has an ACTIVE constitution and a capability
  -- that is ACTIVE, begun and not expired; the simulated payload is the current one; an approval
  -- that is named is APPROVED for the captured context hash; and the call goes on to `authorize`.
  pub allow_rests_on_now :
      let out = revalidate api host hashes input now w in
      ((out.1 ≡ w) × (is_allowed out.0 ≡ false))
      ⊎ ((facts : PolicyFacts) × ((read_policy api host hashes input now w ≡ ok facts)
            × (IsAuthorized (decision_input api host hashes input now facts w)
                × (IsCurrent
                    × (out
                        ≡ authorize api host hashes input now facts
                            (fresh_hash api host hashes input now facts w)
                            w)))))
  allow_rests_on_now = elim (Result-cases (read_policy api host hashes input now w)) [
    | inl (e, bad) ↦ inl (rw (revalidate_unread e bad) (refl, refl))
    | inr (facts, good) ↦ elim (Bool-cases (is_allow (decision facts good))) [
      | inr n ↦ inl (revalidate_refused facts good n)
      | inl y ↦
          let a = is_allow-allow (decision facts good) y in
          let authorized =
            (allow_iff_IsAuthorized (decision_input api host hashes input now facts w)).0 a in
          inr (
            facts,
            (
              good,
              (
                authorized,
                (current_of_Authorized facts authorized, revalidate_granted facts good a),
              ),
            ),
          )
    ]
  ]

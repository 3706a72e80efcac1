-- ===== src/Approval/Binding.antt =====
-- The approval state that the decision engine reads, and what an ALLOW then rests on.
use orvex.Prelude.{
  ℕ, String, true, none, some, List, ◌≡◌, inl, inr, text_eq, text_eq_iff, filter, arith,
  Option-cases,
}
use orvex.Decision.Engine.{DecisionInput, DecisionResult, ApprovalStatus, required, decide}
use orvex.Decision.Ladder.{approval_granted}
use orvex.Decision.Safety.{allow_iff_IsAuthorized, with_approval}
use orvex.Approval.Service.{
  RequestStatus, ApprovalRequest, Store, get_request, has_id, resolve_approval_state,
}
use orvex.Approval.Induction.{Call, perform_all, perform_all-keeps}
use orvex.Approval.Answers.{is_for, are_answers, IsAnswered, Answered}
use orvex.Approval.Evidence.{Answered-Kept, found_by_id}
use orvex.Table.{All-find}

-- The company has an APPROVED request of this id, for exactly this context, and an approver's
-- result stands for it.
pub record IsApprovedFor (company id : ℕ) (hash : String) (s : Store) : Type 0 where
  pub request : ApprovalRequest
  pub found : get_request company id s ≡ some request
  pub approved : request.status ≡ RequestStatus.approved
  pub same_context : request.context_hash ≡ hash
  pub one_result : are_answers request (filter (is_for request.id) s.results) ≡ true

module _ (company id : ℕ) (hash : String) (now : ℕ) (s : Store) where
  -- What each state says of the request.
  state_absent :
      get_request company id s ≡ none
      → resolve_approval_state company id hash now s ≡ ApprovalStatus.absent
  unfolding resolve_approval_state
  state_absent e = ground arith

  state_approved :
      (r : ApprovalRequest)
      → get_request company id s ≡ some r
      → approval_granted (required (resolve_approval_state company id hash now s)) ≡ true
      → (r.status ≡ RequestStatus.approved) × (text_eq r.context_hash hash ≡ true)
  unfolding resolve_approval_state
  state_approved r e g = ground arith

  granted_of_approved :
      (r : ApprovalRequest)
      → get_request company id s ≡ some r
      → r.status ≡ RequestStatus.approved
      → text_eq r.context_hash hash ≡ true
      → resolve_approval_state company id hash now s ≡ ApprovalStatus.approved
  unfolding resolve_approval_state
  granted_of_approved r e p h = ground arith

-- Over any history of calls from a store whose requests are answered by their results, for any
-- input to the decision engine that puts the approval state of the request there as required: an
-- ALLOW means that the company has an APPROVED request of that id, made for exactly the current
-- decision context, and the result of one authorized approver stands for it.
pub allow_rests_on_approval :
    (cs : List Call) (s : Store) (company id : ℕ) (hash : String) (now : ℕ) (i : DecisionInput)
    → IsAnswered s
    → (decide (
        with_approval i
          (required (resolve_approval_state company id hash now (perform_all cs s))))).result
      ≡ DecisionResult.allow
    → IsApprovedFor company id hash (perform_all cs s)
allow_rests_on_approval cs s company id hash now i b h =
    let t = perform_all cs s in
    let given =
      ((allow_iff_IsAuthorized
          (with_approval i (required (resolve_approval_state company id hash now t)))).0
        h).approval_given in
    elim (Option-cases (get_request company id t)) [
      | inl gone ↦ absurd (ground (arith, given, state_absent company id hash now t gone))
      | inr (r, there) ↦
          let later = perform_all-keeps Answered-Kept cs s b in
          let parts = state_approved company id hash now t r there given in
          record {
            request = r;
            found = there;
            approved = parts.0;
            same_context = (text_eq_iff r.context_hash hash).0 parts.1;
            one_result =
                All-find (Answered t.results) (has_id r.id) t.requests later.answered
                  (found_by_id company id t r later there);
          }
    ]

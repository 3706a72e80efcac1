-- ===== src/Approval/Tests.antt =====
-- One company, one decision, and the requests for its approval.
use orvex.Prelude.{true, some, none, List, [], ◌∷◌, ◌≡◌, refl, filter, ◌⊎◌, text_eq, ◌&&◌}
use orvex.Errors.{approval_expired}
use orvex.Outcome.{err, core}
use orvex.Table.{find_first}
use orvex.Decision.Engine.{
  ApprovalStatus, DecisionInput, DecisionResult, PolicyStatus, not_required, required, decide,
}
use orvex.Decision.Safety.{with_approval}
use orvex.Approval.Service.{
  RequestStatus, pending, approved, expired, ApprovalRequest, Store, CreateInput, Approver, has_id,
  get_request, set_status, create_request, approve, deny, cancel, new_request, expire_stale,
  resolve_approval_state, is_pending,
}
use orvex.Approval.Branches.{
  expired_rolls_back, is_waiting, is_authorized, returned, approve_ok_iff,
}
use orvex.Approval.Induction.{
  Call, create_call, approve_call, deny_call, cancel_call, expire_call, perform, perform_all-keeps,
  perform_all,
}
use orvex.Approval.Answers.{IsAnswered, is_for, are_answers}
use orvex.Approval.Evidence.{Answered-Kept, one_result_per_answer}
use orvex.Approval.History.{request_history}
use orvex.Approval.Binding.{IsApprovedFor, allow_rests_on_approval}

abbrev start : Store
start = record {
  decisions = record { id = 4; company_id = 1 } ∷ [];
  requests = [];
  results = [];
  next_id = 9;
}

start-IsAnswered : IsAnswered start
start-IsAnswered = record { answered = tt; below = tt; distinct = tt; results_below = tt }

abbrev input : CreateInput
input = record {
  company_id = 1;
  agent_id = 2;
  decision_id = 4;
  transaction_id = none;
  policy_version_id = none;
  required_role = "APPROVER";
  context_hash = "a1";
  expires_at = 50;
}

abbrev request : RequestStatus → ApprovalRequest
request st = record {
  id = 9;
  company_id = 1;
  agent_id = 2;
  decision_id = 4;
  transaction_id = none;
  policy_version_id = none;
  required_role = "APPROVER";
  context_hash = "a1";
  status = st;
  expires_at = 50;
}

abbrev ann : Approver
ann = record { approver_id = 3; company_id = 1; role = "APPROVER" }

abbrev stranger : Approver
stranger = record { approver_id = 3; company_id = 2; role = "ADMIN" }

abbrev calls : List Call
calls =
    create_call input
    ∷ approve_call 1 9 stranger "a1" 10
    ∷ approve_call 1 9 ann "b2" 10
    ∷ approve_call 1 9 ann "a1" 10
    ∷ cancel_call 1 9 11
    ∷ expire_call 1 99
    ∷ []

after_calls : Store
after_calls = perform_all calls start

row_after : find_first (has_id 9) after_calls.requests ≡ some (request approved)
unfolding after_calls perform_all perform create_request new_request approve cancel expire_stale
    text_eq
row_after = refl

one_result_per_answer_example :
    are_answers (request approved) (filter (is_for 9) (perform_all calls start).results) ≡ true
one_result_per_answer_example =
    one_result_per_answer calls start 9 (request approved) start-IsAnswered
      (unfold after_calls in row_after)

-- The approval is given, then nothing changes it.
abbrev later_calls : List Call
later_calls = cancel_call 1 9 11 ∷ deny_call 1 9 ann 12 ∷ expire_call 1 99 ∷ []

after_calls-IsAnswered : IsAnswered after_calls
unfolding after_calls
after_calls-IsAnswered = perform_all-keeps Answered-Kept calls start start-IsAnswered

request_history_example :
    (row : ApprovalRequest) × ((find_first (has_id 9) (perform_all later_calls after_calls).requests
        ≡ some row)
      × ((row ≡ record (request approved) { status = row.status })
          × ((is_pending (request approved).status ≡ true) ⊎ (row ≡ request approved))))
request_history_example =
    request_history later_calls after_calls 9 (request approved) after_calls-IsAnswered row_after

-- Everything in order, and an approval is required.
abbrev in_order : DecisionInput
in_order = record {
  platform_invariant_violated = none;
  agent_active = true;
  intent_valid = true;
  capability_valid = true;
  constitution_compatible = true;
  policy_status = PolicyStatus.pass;
  transaction_gate = none;
  simulation_required = none;
  simulation_outcome = none;
  simulation_binding = none;
  context_stale = none;
  approval = not_required;
  ai_recommended_handling = none;
}

state_after : resolve_approval_state 1 9 "a1" 20 (perform_all calls start) ≡ ApprovalStatus.approved
unfolding perform_all perform create_request new_request approve cancel expire_stale text_eq
    resolve_approval_state
state_after = refl

allowed :
    (decide (
      with_approval in_order
        (required (resolve_approval_state 1 9 "a1" 20 (perform_all calls start))))).result
    ≡ DecisionResult.allow
unfolding decide
allowed = rw state_after refl

allow_rests_on_approval_example : IsApprovedFor 1 9 "a1" (perform_all calls start)
allow_rests_on_approval_example =
    allow_rests_on_approval calls start 1 9 "a1" 20 in_order start-IsAnswered allowed

-- The request waits until 50.
waiting : Store
waiting = perform_all (create_call input ∷ []) start

waiting_row : get_request 1 9 waiting ≡ some (request pending)
unfolding waiting perform_all perform create_request new_request
waiting_row = refl

expired_rolls_back_example :
    (approve 1 9 ann "a1" 50 waiting ≡ (err (core approval_expired), waiting))
    × (deny 1 9 ann 50 waiting ≡ (err (core approval_expired), waiting))
    × (cancel 1 9 50 waiting ≡ (err (core approval_expired), set_status 9 expired waiting))
expired_rolls_back_example =
    expired_rolls_back 1 9 ann 50 waiting (request pending) waiting_row "a1" refl refl

approve_ok_iff_example : returned (approve 1 9 ann "a1" 10 waiting).0 ≡ (
    is_waiting (request pending) 10 && (is_authorized (request pending) ann && text_eq "a1" "a1"))
approve_ok_iff_example = approve_ok_iff 1 9 ann 10 waiting (request pending) waiting_row "a1"

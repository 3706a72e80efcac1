-- ===== src/Approval/Service.antt =====
-- The methods of `ApprovalService`.
use orvex.Prelude.{
  ℕ, suc, String, Bool, true, false, not, ◌&&◌, ◌||◌, Option, none, some, List, [], ◌∷◌, ◌++◌, ◌==◌,
  leb, text_eq, includes, if◌then◌else◌, ◌+◌,
}
use orvex.Errors.{
  not_found, authorization_error, approval_not_found, conflict, approval_expired, approval_mismatch,
}
use orvex.Outcome.{
  core, Action, pure, throw, gets, or_throw, throw_if, modify, transaction, ◌>>=◌, ◌>>◌,
}
use orvex.Decision.Engine.{ApprovalStatus}
use orvex.Table.{find_first, update_first, update_all}

pub data RequestStatus : Type 0 where
  pending approved denied expired cancelled : RequestStatus

pub data ResultKind : Type 0 where
  approved denied : ResultKind

pub record DecisionRow : Type 0 where
  pub id : ℕ
  pub company_id : ℕ

pub record ApprovalRequest : Type 0 where
  pub id : ℕ
  pub company_id : ℕ
  pub agent_id : ℕ
  pub decision_id : ℕ
  pub transaction_id : Option ℕ
  pub policy_version_id : Option ℕ
  pub required_role : String
  pub context_hash : String
  pub status : RequestStatus
  pub expires_at : ℕ

pub record ApprovalResult : Type 0 where
  pub approval_request_id : ℕ
  pub decision_id : ℕ
  pub approver_id : ℕ
  pub approver_role : String
  pub result : ResultKind
  pub context_hash : String

pub record Store : Type 0 where
  pub decisions : List DecisionRow
  pub requests : List ApprovalRequest
  pub results : List ApprovalResult
  pub next_id : ℕ

pub record CreateInput : Type 0 where
  pub company_id : ℕ
  pub agent_id : ℕ
  pub decision_id : ℕ
  pub transaction_id : Option ℕ
  pub policy_version_id : Option ℕ
  pub required_role : String
  pub context_hash : String
  pub expires_at : ℕ

pub record Approver : Type 0 where
  pub approver_id : ℕ
  pub company_id : ℕ
  pub role : String

abbrev pub approver_roles : List String
approver_roles = "ADMIN" ∷ "AUTHORIZED_OPERATOR" ∷ "APPROVER" ∷ []

abbrev pub has_id : ℕ → ApprovalRequest → Bool
has_id i r = r.id == i

abbrev pub is_owned : ℕ → ℕ → ApprovalRequest → Bool
is_owned company i r = r.id == i && r.company_id == company

-- `getRequest`
abbrev pub get_request : ℕ → ℕ → Store → Option ApprovalRequest
get_request company i s = find_first (is_owned company i) s.requests

abbrev pub set_status : ℕ → RequestStatus → Store → Store
set_status i st s = record s {
  requests = update_first (has_id i) (λ r. record r { status = st }) s.requests;
}

abbrev pub add_result : ApprovalResult → Store → Store
add_result x s = record s { results = s.results ++ x ∷ [] }

abbrev pub add_request : ApprovalRequest → Store → Store
add_request r s = record s { requests = s.requests ++ r ∷ []; next_id = suc s.next_id }

unfoldable pub new_request : CreateInput → ℕ → ApprovalRequest
new_request input id = record {
  id = id;
  company_id = input.company_id;
  agent_id = input.agent_id;
  decision_id = input.decision_id;
  transaction_id = input.transaction_id;
  policy_version_id = input.policy_version_id;
  required_role = input.required_role;
  context_hash = input.context_hash;
  status = pending;
  expires_at = input.expires_at;
}

abbrev pub has_decision : ℕ → ℕ → DecisionRow → Bool
has_decision company i d = d.id == i && d.company_id == company

unfoldable pub create_request : CreateInput → Action Store ApprovalRequest
unfolding new_request
create_request input = do
  decision ← gets (λ s. find_first (has_decision input.company_id input.decision_id) s.decisions)
  or_throw (core not_found) decision
  row ← gets (λ s. new_request input s.next_id)
  modify (add_request row)
  pure row

-- `request.requiredRole && role !== requiredRole && role !== "ADMIN"`, the other way round.
abbrev pub satisfies_role : String → String → Bool
satisfies_role required role =
    text_eq required "" || (text_eq role required || text_eq role "ADMIN")

-- `assertApproverAuthorized`
pub assert_authorized : ApprovalRequest → Approver → Action Store (Unit {0})
assert_authorized request approver = do
  throw_if (not (approver.company_id == request.company_id)) (core authorization_error)
  throw_if (not (includes approver_roles approver.role)) (core authorization_error)
  throw_if (not (satisfies_role request.required_role approver.role)) (core authorization_error)

abbrev pub is_pending : RequestStatus → Bool
is_pending pending = true
is_pending _ = false

-- The expiry guard of `loadPending` and `loadPendingTx`: it writes EXPIRED, then throws.
abbrev pub refuse_expired : ℕ → ApprovalRequest → Action Store ApprovalRequest
refuse_expired now request =
    if leb request.expires_at now
    then (modify (set_status request.id expired) >> throw (core approval_expired))
    else pure request

-- `loadPending` and `loadPendingTx` agree: a status that is not PENDING is one of the four terminal
-- ones.
pub load_pending : ℕ → ℕ → ℕ → Action Store ApprovalRequest
load_pending company i now = do
  found ← gets (get_request company i)
  request ← or_throw (core approval_not_found) found
  throw_if (not (is_pending request.status)) (core conflict)
  refuse_expired now request

abbrev pub result_row : ApprovalRequest → Approver → ResultKind → String → ApprovalResult
result_row request approver kind hash = record {
  approval_request_id = request.id;
  decision_id = request.decision_id;
  approver_id = approver.approver_id;
  approver_role = approver.role;
  result = kind;
  context_hash = hash;
}

unfoldable pub approve :
    ℕ → ℕ → Approver → String → ℕ → Action Store (ApprovalRequest × ApprovalResult)
unfolding load_pending assert_authorized
approve company i approver hash now = transaction (do
  request ← load_pending company i now
  assert_authorized request approver
  throw_if (not (text_eq request.context_hash hash)) (core approval_mismatch)
  modify (set_status request.id RequestStatus.approved)
  let row = result_row request approver ResultKind.approved hash
  modify (add_result row)
  pure (record request { status = RequestStatus.approved }, row))

unfoldable pub deny : ℕ → ℕ → Approver → ℕ → Action Store (ApprovalRequest × ApprovalResult)
unfolding load_pending assert_authorized
deny company i approver now = transaction (do
  request ← load_pending company i now
  assert_authorized request approver
  modify (set_status request.id RequestStatus.denied)
  let row = result_row request approver ResultKind.denied request.context_hash
  modify (add_result row)
  pure (record request { status = RequestStatus.denied }, row))

-- In no transaction.
unfoldable pub cancel : ℕ → ℕ → ℕ → Action Store ApprovalRequest
unfolding load_pending
cancel company i now = do
  request ← load_pending company i now
  modify (set_status request.id cancelled)
  pure (record request { status = cancelled })

abbrev pub is_stale : ℕ → ℕ → ApprovalRequest → Bool
is_stale company now r = r.company_id == company && (is_pending r.status && leb r.expires_at now)

abbrev pub count_if : {A : Type 0} → (A → Bool) → List A → ℕ
count_if p [] = 0
count_if p (x ∷ xs) = (if p x then 1 else 0) + count_if p xs

abbrev pub expire : ApprovalRequest → ApprovalRequest
expire r = record r { status = expired }

unfoldable pub expire_stale : ℕ → ℕ → Action Store ℕ
expire_stale company now = do
  count ← gets (λ s. count_if (is_stale company now) s.requests)
  modify (λ s. record s { requests = update_all (is_stale company now) expire s.requests })
  pure count

-- `resolveApprovalState`, into the state that the decision engine reads.
unfoldable pub resolve_approval_state : ℕ → ℕ → String → ℕ → Store → ApprovalStatus
resolve_approval_state company i hash now s = elim (get_request company i s) [
  | none ↦ ApprovalStatus.absent
  | some request ↦ elim request.status [
    | expired ↦ ApprovalStatus.expired
    | pending ↦
        if leb request.expires_at now then ApprovalStatus.expired else ApprovalStatus.pending
    | denied ↦ ApprovalStatus.denied
    | cancelled ↦ ApprovalStatus.denied
    | approved ↦
        if text_eq request.context_hash hash
        then ApprovalStatus.approved
        else ApprovalStatus.mismatch
  ]
]

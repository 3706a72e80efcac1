-- ===== src/Approval/Answers.antt =====
-- What it is that the results of a request are its answers.
use orvex.Prelude.{
  ℕ, ◌≤◌, ◌≢◌, Bool, true, false, not, ◌&&◌, List, [], ◌∷◌, ◌++◌, ◌≡◌, refl, ◌==◌, text_eq,
  includes, filter, if◌then◌else◌, arith, All,
}
use orvex.Table.Keys.{Below, Distinct}
use orvex.Approval.Service.{
  RequestStatus, approved, denied, ResultKind, ApprovalRequest, ApprovalResult, Store,
  approver_roles, satisfies_role, is_pending,
}

abbrev pub is_for : ℕ → ApprovalResult → Bool
is_for i row = row.approval_request_id == i

-- The status that the result leads to.
abbrev pub leads_to : RequestStatus → ResultKind → Bool
leads_to approved approved = true
leads_to denied denied = true
leads_to _ _ = false

-- The result answers the request: its kind is the request's status, it is of the same decision and
-- context, and its approver's role may answer the request.
abbrev pub answers : ApprovalRequest → ApprovalResult → Bool
answers r row =
    leads_to r.status row.result
    && (row.decision_id == r.decision_id
        && (text_eq r.context_hash row.context_hash
            && (includes approver_roles row.approver_role
                && satisfies_role r.required_role row.approver_role)))

abbrev pub is_answered : RequestStatus → Bool
is_answered approved = true
is_answered denied = true
is_answered _ = false

-- The results of the request `r` are the one that answers it, or none if it is not answered.
abbrev pub are_answers : ApprovalRequest → List ApprovalResult → Bool
are_answers r [] = not (is_answered r.status)
are_answers r (row ∷ []) = answers r row
are_answers r (row ∷ row' ∷ rows) = false

abbrev pub Answered : List ApprovalResult → ApprovalRequest → Type 0
Answered rows r = are_answers r (filter (is_for r.id) rows) ≡ true

-- The ids are keys, and the results of every request are its answers.
pub record IsAnswered (s : Store) : Type 0 where
  pub answered : All (Answered s.results) s.requests
  pub below : Below ApprovalRequest.id s.next_id s.requests
  pub distinct : Distinct ApprovalRequest.id s.requests
  pub results_below : Below ApprovalResult.approval_request_id s.next_id s.results

pub filter-append :
    (i : ℕ) (rows : List ApprovalResult) (row : ApprovalResult)
    → filter (is_for i) (rows ++ row ∷ [])
      ≡ (if is_for i row then filter (is_for i) rows ++ row ∷ [] else filter (is_for i) rows)
filter-append i [] row = ground arith
filter-append i (x ∷ rows) row = ground (arith, filter-append i rows row)

pub filter-fresh :
    (n i : ℕ) (rows : List ApprovalResult)
    → Below ApprovalResult.approval_request_id n rows
    → n ≤ i
    → filter (is_for i) rows ≡ []
filter-fresh n i [] b h = refl
filter-fresh n i (x ∷ rows) b h = ground (arith, filter-fresh n i rows b.1 h)

-- A request that waits has no result.
pub none_of_pending :
    (r : ApprovalRequest) (rows : List ApprovalResult)
    → is_pending r.status ≡ true
    → are_answers r rows ≡ true
    → rows ≡ []
none_of_pending r [] p h = refl
none_of_pending r (row ∷ []) p h = ground arith
none_of_pending r (row ∷ row' ∷ rows) p h = ground arith

-- Closing a request that waits, for a status that is no answer.
pub closed_is_answered :
    (st : RequestStatus) (r : ApprovalRequest) (rows : List ApprovalResult)
    → is_answered st ≡ false
    → is_pending r.status ≡ true
    → Answered rows r
    → Answered rows (record r { status = st })
closed_is_answered st r rows n p h = rw (none_of_pending r (filter (is_for r.id) rows) p h, n) refl

-- A result is added to a request that waits.
pub answer_is_Answered :
    (st : RequestStatus) (r : ApprovalRequest) (rows : List ApprovalResult) (row : ApprovalResult)
    → is_for r.id row ≡ true
    → answers (record r { status = st }) row ≡ true
    → is_pending r.status ≡ true
    → Answered rows r
    → Answered (rows ++ row ∷ []) (record r { status = st })
answer_is_Answered st r rows row i a p h =
    rw (filter-append r.id rows row, i, none_of_pending r (filter (is_for r.id) rows) p h) a

pub others-Answered :
    (i : ℕ) (rows : List ApprovalResult) (row : ApprovalResult)
    → row.approval_request_id ≡ i
    → (x : ApprovalRequest) → x.id ≢ i
    → Answered rows x
    → Answered (rows ++ row ∷ []) x
others-Answered i rows row e x n h =
    let other : is_for x.id row ≡ false = ground arith in rw (filter-append x.id rows row, other) h

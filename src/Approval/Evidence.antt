-- ===== src/Approval/Evidence.antt =====
-- Which results stand for a request: an answered request has exactly the one that answered it.
use mathlib.Core.Path.{subst}
use orvex.Prelude.{
  ℕ, suc, ◌<◌, String, true, false, ◌&&◌, some, List, [], ◌∷◌, ◌++◌, ◌≡◌, refl, inl, inr, ◌==◌,
  text_eq, text_eq_iff, filter, ◌⊎◌, arith, All-append, sym,
}
use orvex.Table.{find_first, find_first-holds, update_all, All-find, All-update, All-update_all}
use orvex.Table.Keys.{
  Below-add, Below-mono, Distinct-add, Below-find, find-own_key, Below-update, Distinct-update,
  All-update_key, Below-update_all, Distinct-update_all,
}
use orvex.Approval.Service.{
  RequestStatus, expired, cancelled, ResultKind, ApprovalRequest, ApprovalResult, Store,
  CreateInput, Approver, has_id, get_request, set_status, add_result, add_request, new_request,
  is_pending, is_owned, is_stale, expire, result_row,
}
use orvex.Approval.Branches.{is_authorized, is_waiting}
use orvex.Approval.Induction.{Call, perform_all, Kept, perform_all-keeps}
use orvex.Approval.Answers.{
  is_for, answers, is_answered, are_answers, Answered, IsAnswered, filter-fresh, closed_is_answered,
  answer_is_Answered, others-Answered,
}

text_eq_refl : (x : String) → text_eq x x ≡ true
text_eq_refl x = (text_eq_iff x x).1 refl

pub found_by_id :
    (company i : ℕ) (s : Store) (r : ApprovalRequest)
    → IsAnswered s
    → get_request company i s ≡ some r
    → find_first (has_id r.id) s.requests ≡ some r
found_by_id company i s r b found =
    find-own_key ApprovalRequest.id i (λ x. x.company_id == company) s.requests b.distinct found

-- An answer: the status of the request and its result are written.
answer-keeps :
    (st : RequestStatus) (company i : ℕ) (s : Store) (r : ApprovalRequest) (row : ApprovalResult)
    → get_request company i s ≡ some r
    → is_for r.id row ≡ true
    → answers (record r { status = st }) row ≡ true
    → is_pending r.status ≡ true
    → IsAnswered s
    → IsAnswered (add_result row (set_status r.id st s))
answer-keeps st company i s r row found own a p b =
    let there = found_by_id company i s r b found in
    let same : row.approval_request_id ≡ r.id = ground (arith, own) in
    let bound : row.approval_request_id < s.next_id =
      subst (λ k. k < s.next_id) (sym same)
        (Below-find ApprovalRequest.id (is_owned company i) s.next_id s.requests b.below found) in
    let f = λ (x : ApprovalRequest). record x { status = st } in
    record {
      answered =
          All-update_key ApprovalRequest.id (Answered s.results) (Answered (s.results ++ row ∷ []))
            r.id f (others-Answered r.id s.results row same) s.requests b.distinct b.answered there
            (answer_is_Answered st r s.results row own a p
              (All-find (Answered s.results) (has_id r.id) s.requests b.answered there));
      below =
          Below-update ApprovalRequest.id f (λ x. refl) (has_id r.id) s.next_id s.requests b.below;
      distinct =
          Distinct-update ApprovalRequest.id f (λ x. refl) (has_id r.id) s.requests b.distinct;
      results_below =
          All-append (λ y. y.approval_request_id < s.next_id) s.results (row ∷ []) b.results_below
            (bound, tt);
    }

close-keeps :
    (company i : ℕ) (st : RequestStatus) (s : Store) (r : ApprovalRequest)
    → get_request company i s ≡ some r
    → is_pending r.status ≡ true
    → is_answered st ≡ false
    → IsAnswered s
    → IsAnswered (set_status r.id st s)
close-keeps company i st s r found p n b =
    let there = found_by_id company i s r b found in
    let f = λ (x : ApprovalRequest). record x { status = st } in
    record {
      answered = All-update (Answered s.results) (has_id r.id) f s.requests b.answered there (
          closed_is_answered st r s.results n p
            (All-find (Answered s.results) (has_id r.id) s.requests b.answered there));
      below =
          Below-update ApprovalRequest.id f (λ x. refl) (has_id r.id) s.next_id s.requests b.below;
      distinct =
          Distinct-update ApprovalRequest.id f (λ x. refl) (has_id r.id) s.requests b.distinct;
      results_below = b.results_below;
    }

create-keeps :
    (input : CreateInput) (s : Store)
    → IsAnswered s
    → IsAnswered (add_request (new_request input s.next_id) s)
unfolding new_request
create-keeps input s b = record {
  answered =
      All-append (Answered s.results) s.requests (new_request input s.next_id ∷ []) b.answered
        (rw (filter-fresh s.next_id s.next_id s.results b.results_below (omega arith)) refl, tt);
  below =
      Below-add ApprovalRequest.id s.next_id s.requests (new_request input s.next_id) b.below refl;
  distinct =
      Distinct-add ApprovalRequest.id s.next_id s.requests (new_request input s.next_id) b.below
        refl b.distinct;
  results_below =
      Below-mono ApprovalResult.approval_request_id s.next_id (suc s.next_id) s.results
        (omega arith) b.results_below;
}

pub pending_of_stale :
    (company now : ℕ) (r : ApprovalRequest)
    → is_stale company now r ≡ true
    → is_pending r.status ≡ true
pending_of_stale company now r h = ground arith

expire-keeps :
    (company now : ℕ) (s : Store)
    → IsAnswered s
    → IsAnswered (record s { requests = update_all (is_stale company now) expire s.requests })
expire-keeps company now s b = record {
  answered =
      All-update_all (Answered s.results) (is_stale company now) expire
        (λ r h a. closed_is_answered expired r s.results refl (pending_of_stale company now r h) a)
        s.requests b.answered;
  below =
      Below-update_all ApprovalRequest.id expire (λ x. refl) (is_stale company now) s.next_id
        s.requests b.below;
  distinct =
      Distinct-update_all ApprovalRequest.id expire (λ x. refl) (is_stale company now) s.requests
        b.distinct;
  results_below = b.results_below;
}

no_answer : {st : RequestStatus} → (st ≡ cancelled) ⊎ (st ≡ expired) → is_answered st ≡ false
no_answer (inl e) = rw e
no_answer (inr e) = rw e

pub approval_answers :
    (r : ApprovalRequest) (a : Approver) (now : ℕ) (hash : String)
    → (is_waiting r now && (is_authorized r a && text_eq r.context_hash hash)) ≡ true
    → (answers
          (record r { status = RequestStatus.approved })
          (result_row r a ResultKind.approved hash)
        ≡ true)
      × (is_pending r.status ≡ true)
approval_answers r a now hash h = ground (arith, h)

pub denial_answers :
    (r : ApprovalRequest) (a : Approver) (now : ℕ)
    → (is_waiting r now && is_authorized r a) ≡ true
    → (answers
          (record r { status = RequestStatus.denied })
          (result_row r a ResultKind.denied r.context_hash)
        ≡ true)
      × (is_pending r.status ≡ true)
denial_answers r a now h = ground (arith, h, text_eq_refl r.context_hash)

pub Answered-Kept : Kept IsAnswered
Answered-Kept = record {
  on_create = create-keeps;
  on_approve = λ company i a now hash s r found h b.
      answer-keeps RequestStatus.approved company i s r (result_row r a ResultKind.approved hash)
        found (ground arith) (approval_answers r a now hash h).0 (approval_answers r a now hash h).1
        b;
  on_deny = λ company i a now s r found h b.
      answer-keeps RequestStatus.denied company i s r
        (result_row r a ResultKind.denied r.context_hash) found (ground arith)
        (denial_answers r a now h).0 (denial_answers r a now h).1 b;
  on_close = λ company i st s r found p e b. close-keeps company i st s r found p (no_answer e) b;
  on_expire = expire-keeps;
}

-- From a store whose requests are answered by their results (an empty one is), after any calls in
-- any order: an APPROVED or DENIED request has exactly one result, which says the same, is of the
-- request's decision and context hash, and names an approver in a permitted role that satisfies
-- the role the request asks for; a request of another status has no result.
pub one_result_per_answer :
    (cs : List Call) (s : Store) (i : ℕ) (r : ApprovalRequest)
    → IsAnswered s
    → find_first (has_id i) (perform_all cs s).requests ≡ some r
    → are_answers r (filter (is_for i) (perform_all cs s).results) ≡ true
one_result_per_answer cs s i r b found =
    let later = perform_all-keeps Answered-Kept cs s b in
    let named = find_first-holds (has_id i) (perform_all cs s).requests {r = r} found in
    let same : r.id ≡ i = ground (arith, named) in
    subst (λ k. are_answers r (filter (is_for k) (perform_all cs s).results) ≡ true) same
      (All-find (Answered (perform_all cs s).results) (has_id i) (perform_all cs s).requests
        later.answered found)

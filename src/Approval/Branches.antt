-- ===== src/Approval/Branches.antt =====
-- What the approval methods do on each branch.
use orvex.Prelude.{
  ℕ, String, Bool, true, false, not, ◌&&◌, none, some, ◌≡◌, arith, ◌==◌, leb, text_eq, includes,
  if◌then◌else◌,
}
use orvex.Errors.{not_found, approval_not_found, approval_expired}
use orvex.Outcome.{Result, ok, err, core}
use orvex.Approval.Service.{
  RequestStatus, pending, expired, cancelled, ResultKind, ApprovalRequest, Store, Approver,
  approver_roles, get_request, set_status, add_result, satisfies_role, is_pending, result_row,
  approve, deny, cancel, CreateInput, DecisionRow, has_decision, create_request, new_request,
  add_request,
}
use orvex.Table.{find_first}

-- The approver is of the request's company and in a role that may approve it.
abbrev pub is_authorized : ApprovalRequest → Approver → Bool
is_authorized r a =
    a.company_id == r.company_id
    && (includes approver_roles a.role && satisfies_role r.required_role a.role)

-- The request waits for an answer at `now`.
abbrev pub is_waiting : ApprovalRequest → ℕ → Bool
is_waiting r now = is_pending r.status && not (leb r.expires_at now)

-- The call returned.
abbrev pub returned : {A : Type 0} → Result A → Bool
returned (ok x) = true
returned (err e) = false

module _ (company i : ℕ) (a : Approver) (now : ℕ) (s : Store) (r : ApprovalRequest)
    (found : get_request company i s ≡ some r) where
  abbrev pub approved_store : String → Store
  approved_store hash =
      add_result (result_row r a ResultKind.approved hash)
        (set_status r.id RequestStatus.approved s)

  abbrev pub denied_store : Store
  denied_store =
      add_result (result_row r a ResultKind.denied r.context_hash)
        (set_status r.id RequestStatus.denied s)

  pub approve_ok :
      (hash : String)
      → is_waiting r now ≡ true
      → is_authorized r a ≡ true
      → text_eq r.context_hash hash ≡ true
      → approve company i a hash now s ≡ (
        ok (record r { status = RequestStatus.approved }, result_row r a ResultKind.approved hash),
        approved_store hash,
      )
  unfolding approve
  approve_ok hash w p h = ground arith

  pub approve_state :
      (hash : String)
      → (approve company i a hash now s).1 ≡ (
          if is_waiting r now && (is_authorized r a && text_eq r.context_hash hash)
          then approved_store hash
          else s)
  unfolding approve
  approve_state hash = ground arith

  pub deny_state :
      (deny company i a now s).1
      ≡ (if is_waiting r now && is_authorized r a then denied_store else s)
  unfolding deny
  deny_state = ground arith

  pub cancel_state : (cancel company i now s).1 ≡ (
      if is_waiting r now
      then set_status r.id cancelled s
      else if is_pending r.status
      then set_status r.id expired s
      else s)
  unfolding cancel
  cancel_state = ground arith

  -- An approval is given exactly when the request is PENDING and not expired, the approver is of
  -- its company and in a role that may approve it, and the context is the one it was made for.
  pub approve_ok_iff :
      (hash : String)
      → returned (approve company i a hash now s).0
        ≡ (is_waiting r now && (is_authorized r a && text_eq r.context_hash hash))
  unfolding approve
  approve_ok_iff hash = ground arith

  -- On an expired request `approve` and `deny` fail and leave it PENDING, as their transaction
  -- rolls back the write of EXPIRED, and `cancel` fails and leaves it EXPIRED.
  pub expired_rolls_back :
      (hash : String)
      → r.status ≡ pending
      → leb r.expires_at now ≡ true
      → (approve company i a hash now s ≡ (err (core approval_expired), s))
        × (deny company i a now s ≡ (err (core approval_expired), s))
        × (cancel company i now s ≡ (err (core approval_expired), set_status r.id expired s))
  unfolding approve deny cancel
  expired_rolls_back hash p e = ground arith

module _ (company i : ℕ) (a : Approver) (now : ℕ) (s : Store)
    (gone : get_request company i s ≡ none) where
  pub approve_missing :
      (hash : String) → approve company i a hash now s ≡ (err (core approval_not_found), s)
  unfolding approve
  approve_missing hash = ground arith

  pub deny_missing : deny company i a now s ≡ (err (core approval_not_found), s)
  unfolding deny
  deny_missing = ground arith

  pub cancel_missing : cancel company i now s ≡ (err (core approval_not_found), s)
  unfolding cancel
  cancel_missing = ground arith

module _ (input : CreateInput) (s : Store) where
  pub create_missing :
      find_first (has_decision input.company_id input.decision_id) s.decisions ≡ none
      → create_request input s ≡ (err (core not_found), s)
  unfolding create_request
  create_missing e = ground arith

  pub create_found :
      (d : DecisionRow)
      → find_first (has_decision input.company_id input.decision_id) s.decisions ≡ some d
      → create_request input s
        ≡ (ok (new_request input s.next_id), add_request (new_request input s.next_id) s)
  unfolding create_request
  create_found d e = ground arith

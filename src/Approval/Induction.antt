-- ===== src/Approval/Induction.antt =====
-- The service as its clients drive it, and properties that its writes keep.
use orvex.Prelude.{
  ℕ, String, Bool, true, false, ◌&&◌, some, List, [], ◌∷◌, ◌≡◌, refl, inl, inr, text_eq,
  if◌then◌else◌, ◌⊎◌, arith, Option-cases,
}
use orvex.Table.{find_first, update_all}
use orvex.Approval.Service.{
  RequestStatus, expired, cancelled, ApprovalRequest, Store, CreateInput, Approver, get_request,
  set_status, add_request, new_request, has_decision, is_pending, is_stale, expire, create_request,
  approve, deny, cancel, expire_stale,
}
use orvex.Approval.Branches.{
  is_authorized, is_waiting, approved_store, denied_store, approve_state, deny_state, cancel_state,
  approve_missing, deny_missing, cancel_missing, create_missing, create_found,
}

pub data Call : Type 0 where
  create_call : CreateInput → Call
  approve_call : ℕ → ℕ → Approver → String → ℕ → Call
  deny_call : ℕ → ℕ → Approver → ℕ → Call
  cancel_call : ℕ → ℕ → ℕ → Call
  expire_call : ℕ → ℕ → Call

unfoldable pub perform : Call → Store → Store
perform (create_call input) s = (create_request input s).1
perform (approve_call company i a hash now) s = (approve company i a hash now s).1
perform (deny_call company i a now) s = (deny company i a now s).1
perform (cancel_call company i now) s = (cancel company i now s).1
perform (expire_call company now) s = (expire_stale company now s).1

unfoldable pub perform_all : List Call → Store → Store
unfolding perform
perform_all [] s = s
perform_all (c ∷ cs) s = perform_all cs (perform c s)

-- What has to be shown of a property of the store.
pub record Kept (P : Store → Type 0) : Type 0 where
  pub on_create :
      (input : CreateInput) (s : Store) → P s → P (add_request (new_request input s.next_id) s)
  pub on_approve :
      (company i : ℕ) (a : Approver) (now : ℕ) (hash : String) (s : Store) (r : ApprovalRequest)
      (found : get_request company i s ≡ some r)
      → (is_waiting r now && (is_authorized r a && text_eq r.context_hash hash)) ≡ true
      → P s
      → P (approved_store company i a now s r found hash)
  pub on_deny :
      (company i : ℕ) (a : Approver) (now : ℕ) (s : Store) (r : ApprovalRequest)
      (found : get_request company i s ≡ some r)
      → (is_waiting r now && is_authorized r a) ≡ true
      → P s
      → P (denied_store company i a now s r found)
  pub on_close :
      (company i : ℕ) (st : RequestStatus) (s : Store) (r : ApprovalRequest)
      → get_request company i s ≡ some r
      → is_pending r.status ≡ true
      → (st ≡ cancelled) ⊎ (st ≡ expired)
      → P s
      → P (set_status r.id st s)
  pub on_expire :
      (company now : ℕ) (s : Store)
      → P s
      → P (record s { requests = update_all (is_stale company now) expire s.requests })

-- An approver that a proof may name where none is read.
abbrev nobody : Approver
nobody = record { approver_id = 0; company_id = 0; role = "" }

module _ {P : Store → Type 0} (kept : Kept P) where
  if-keeps : (b : Bool) (s t : Store) → (b ≡ true → P s) → P t → P (if b then s else t)
  if-keeps true s t h k = h refl
  if-keeps false s t h k = k

  pending_of_waiting :
      (r : ApprovalRequest) (now : ℕ) → is_waiting r now ≡ true → is_pending r.status ≡ true
  pending_of_waiting r now h = ground arith

  create-keeps : (input : CreateInput) (s : Store) → P s → P (create_request input s).1
  create-keeps input s b =
      elim (Option-cases
        (find_first (has_decision input.company_id input.decision_id) s.decisions)) [
          | inl gone ↦ rw (create_missing input s gone) b
          | inr (d, there) ↦ rw (create_found input s d there) (kept.on_create input s b)
        ]

  approve-keeps :
      (company i : ℕ) (a : Approver) (hash : String) (now : ℕ) (s : Store)
      → P s
      → P (approve company i a hash now s).1
  approve-keeps company i a hash now s b = elim (Option-cases (get_request company i s)) [
    | inl gone ↦ rw (approve_missing company i a now s gone hash) b
    | inr (r, found) ↦ rw (approve_state company i a now s r found hash) (
        if-keeps (is_waiting r now && (is_authorized r a && text_eq r.context_hash hash)) _ s
          (λ h. kept.on_approve company i a now hash s r found h b) b)
  ]

  deny-keeps :
      (company i : ℕ) (a : Approver) (now : ℕ) (s : Store) → P s → P (deny company i a now s).1
  deny-keeps company i a now s b = elim (Option-cases (get_request company i s)) [
    | inl gone ↦ rw (deny_missing company i a now s gone) b
    | inr (r, found) ↦ rw (deny_state company i a now s r found) (
        if-keeps (is_waiting r now && is_authorized r a) _ s
          (λ h. kept.on_deny company i a now s r found h b) b)
  ]

  cancel-keeps : (company i now : ℕ) (s : Store) → P s → P (cancel company i now s).1
  cancel-keeps company i now s b = elim (Option-cases (get_request company i s)) [
    | inl gone ↦ rw (cancel_missing company i nobody now s gone) b
    | inr (r, found) ↦ rw (cancel_state company i nobody now s r found) (
        if-keeps (is_waiting r now) _ _
          (λ h.
            kept.on_close company i cancelled s r found (pending_of_waiting r now h) (inl refl) b)
          (if-keeps (is_pending r.status) _ s
            (λ h. kept.on_close company i expired s r found h (inr refl) b) b))
  ]

  -- One call keeps the property.
  pub perform-keeps : (c : Call) (s : Store) → P s → P (perform c s)
  unfolding perform expire_stale
  perform-keeps (create_call input) s b = create-keeps input s b
  perform-keeps (approve_call company i a hash now) s b = approve-keeps company i a hash now s b
  perform-keeps (deny_call company i a now) s b = deny-keeps company i a now s b
  perform-keeps (cancel_call company i now) s b = cancel-keeps company i now s b
  perform-keeps (expire_call company now) s b = kept.on_expire company now s b

  -- A history of calls keeps the property.
  pub perform_all-keeps : (cs : List Call) (s : Store) → P s → P (perform_all cs s)
  unfolding perform_all
  perform_all-keeps [] s b = b
  perform_all-keeps (c ∷ cs) s b = perform_all-keeps cs (perform c s) (perform-keeps c s b)

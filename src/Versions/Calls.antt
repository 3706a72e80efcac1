-- ===== src/Versions/Calls.antt =====
-- The service as its clients drive it: over any history, a policy has at most one active version.
use orvex.Prelude.{
  ℕ, ◌≡◌, refl, String, false, not, ◌&&◌, Option, none, some, List, [], ◌∷◌, ◌==◌, any, text_eq,
  if◌then◌else◌, arith, Option-cases, inl, inr,
}
use orvex.Table.{find_first}
use orvex.Policy.Rules.{validate_compiled_rules}
use orvex.Policy.Status.{is_ok}
use orvex.Versions.Store.{
  VersionStatus, validating, simulated, approved, active, disabled, PolicyRow, Store, DraftInput,
  may_become, is_active, get_version, is_named,
}
use orvex.Versions.Service.{
  new_policy, add_policy, new_version, add_version, trimmed, write_draft, create_draft, transition,
  validate, simulate, disable, approve, activate,
}
use orvex.Versions.Activation.{
  IsVersioned, if-keeps, transition_missing, transition_found, approve_missing, approve_found,
  activate_missing, activate_found, write-keeps, append-keeps, policy-keeps, activation-keeps,
}

pub data Call : Type 0 where
  create_call : DraftInput → Call
  validate_call simulate_call disable_call : ℕ → ℕ → Call
  approve_call : ℕ → ℕ → Option String → Call
  activate_call : ℕ → ℕ → ℕ → Call

module _ (trim : String → String) where
  unfoldable pub perform : Call → Store → Store
  perform (create_call input) s = (create_draft trim input s).1
  perform (validate_call company i) s = (validate company i s).1
  perform (simulate_call company i) s = (simulate company i s).1
  perform (disable_call company i) s = (disable company i s).1
  perform (approve_call company i by) s = (approve company i by s).1
  perform (activate_call company i now) s = (activate company i now s).1

  unfoldable pub perform_all : List Call → Store → Store
  unfolding perform
  perform_all [] s = s
  perform_all (c ∷ cs) s = perform_all cs (perform c s)

module _ (trim : String → String) (input : DraftInput) (s : Store) where
  write_draft_old :
      (name : String) (p : PolicyRow)
      → find_first (is_named input.company_id input.agent_id name) s.policies ≡ some p
      → (write_draft input name s).1 ≡ add_version (new_version input p.id s) s
  write_draft_old name p e = ground arith

  write_draft_new :
      (name : String)
      → find_first (is_named input.company_id input.agent_id name) s.policies ≡ none
      → let s' = add_policy (new_policy input name s.next_id) s in
        (write_draft input name s).1 ≡ add_version (new_version input s.next_id s') s'
  write_draft_new name e = ground arith

  create_draft_state : (create_draft trim input s).1 ≡ (
      if not (text_eq (trimmed trim input.name) "")
        && (is_ok (validate_compiled_rules input.rules)
            && any (λ c. c == input.company_id) s.companies)
      then (write_draft input (trimmed trim input.name) s).1
      else s)
  unfolding create_draft
  create_draft_state = ground arith

  write_draft-keeps : (name : String) → IsVersioned s → IsVersioned (write_draft input name s).1
  write_draft-keeps name b =
      elim (Option-cases (find_first (is_named input.company_id input.agent_id name) s.policies)) [
        | inl new ↦ rw (write_draft_new name new) (
            append-keeps input s.next_id (add_policy (new_policy input name s.next_id) s)
              (policy-keeps (new_policy input name s.next_id) s b))
        | inr (p, old) ↦ rw (write_draft_old name p old) (append-keeps input p.id s b)
      ]

  create_draft-keeps : IsVersioned s → IsVersioned (create_draft trim input s).1
  create_draft-keeps b =
      rw create_draft_state (if-keeps _ _ s (write_draft-keeps (trimmed trim input.name) b) b)

module _ (company i : ℕ) (s : Store) (b : IsVersioned s) where
  transition-keeps :
      (to : VersionStatus) → is_active to ≡ false → IsVersioned (transition company i to s).1
  transition-keeps to n = elim (Option-cases (get_version company i s)) [
    | inl gone ↦ rw (transition_missing company i s to gone) b
    | inr (r, there) ↦ rw (transition_found company i s to r there) (
        if-keeps (may_become r.status to) _ s
          (write-keeps r.id (λ v. record v { status = to }) (λ x. refl) (λ x. n) s b) b)
  ]

  approve-keeps : (by : Option String) → IsVersioned (approve company i by s).1
  approve-keeps by = elim (Option-cases (get_version company i s)) [
    | inl gone ↦ rw (approve_missing company i s by gone) b
    | inr (r, there) ↦ rw (approve_found company i s by r there) (
        if-keeps (may_become r.status approved) _ s
          (write-keeps r.id (λ v. record v { status = approved; approved_by = by }) (λ x. refl)
            (λ x. refl) s b)
          b)
  ]

  activate-keeps : (now : ℕ) → IsVersioned (activate company i now s).1
  activate-keeps now = elim (Option-cases (get_version company i s)) [
    | inl gone ↦ rw (activate_missing company i s now gone) b
    | inr (r, there) ↦
        rw (activate_found company i s now r there)
          (if-keeps (may_become r.status active) _ s (activation-keeps company i now s r there b) b)
  ]

module _ (trim : String → String) where
  perform-keeps : (c : Call) (s : Store) → IsVersioned s → IsVersioned (perform trim c s)
  unfolding perform
  perform-keeps (create_call input) s b = create_draft-keeps trim input s b
  perform-keeps (validate_call company i) s b = transition-keeps company i s b validating refl
  perform-keeps (simulate_call company i) s b = transition-keeps company i s b simulated refl
  perform-keeps (disable_call company i) s b = transition-keeps company i s b disabled refl
  perform-keeps (approve_call company i by) s b = approve-keeps company i s b by
  perform-keeps (activate_call company i now) s b = activate-keeps company i s b now

  -- After any calls in any order, successful or not, on a store where the ids of the versions are
  -- keys and no policy has two active versions (an empty one is such a store): this holds still.
  pub perform_all-IsVersioned :
      (cs : List Call) (s : Store) → IsVersioned s → IsVersioned (perform_all trim cs s)
  unfolding perform_all
  perform_all-IsVersioned [] s b = b
  perform_all-IsVersioned (c ∷ cs) s b =
      perform_all-IsVersioned cs (perform trim c s) (perform-keeps c s b)

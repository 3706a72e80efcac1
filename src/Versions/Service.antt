-- ===== src/Versions/Service.antt =====
-- The methods of `PolicyService`.
use orvex.Prelude.{
  ℕ, suc, String, Bool, true, false, not, ◌&&◌, Option, none, some, List, [], ◌∷◌, ◌++◌, ◌==◌, ltb,
  text_eq, any, coalesce, if◌then◌else◌, ◌+◌, map,
}
use orvex.Errors.{invalid_input, tenant_error, not_found, conflict, policy_invalid}
use orvex.Outcome.{
  core, Action, pure, gets, lift, or_throw, throw_if, modify, transaction, ◌>>=◌, ◌>>◌,
}
use orvex.Table.{find_first, update_first, update_all}
use orvex.Policy.Rules.{CompiledRule, validate_compiled_rules}
use orvex.Versions.Store.{
  PolicyState, VersionStatus, validating, simulated, approved, active, superseded, disabled, draft,
  PolicyRow, VersionRow, RuleRow, Store, DraftInput, may_become, has_id, get_version, is_active,
  is_named,
}

-- The highest version of a policy, 0 if there is none.
abbrev pub latest : ℕ → List VersionRow → ℕ
latest policy [] = 0
latest policy (v ∷ vs) =
    let rest = latest policy vs in
    if v.policy_id == policy && ltb rest v.version then v.version else rest

abbrev pub new_policy : DraftInput → String → ℕ → PolicyRow
new_policy input name id = record {
  id = id;
  company_id = input.company_id;
  agent_id = input.agent_id;
  name = name;
  status = PolicyState.draft;
  current_version = 0;
}

abbrev pub add_policy : PolicyRow → Store → Store
add_policy p s = record s { policies = s.policies ++ p ∷ []; next_id = suc s.next_id }

-- `findFirst` of the policy by its name, and `??= create`.
abbrev pub ensure_policy : DraftInput → String → Action Store PolicyRow
ensure_policy input name s =
    elim (find_first (is_named input.company_id input.agent_id name) s.policies) [
      | some p ↦ pure p s
      | none ↦
          (modify (add_policy (new_policy input name s.next_id))
              >> pure (new_policy input name s.next_id))
            s
    ]

abbrev pub new_version : DraftInput → ℕ → Store → VersionRow
new_version input policy s = record {
  id = s.next_id;
  policy_id = policy;
  version = latest policy s.versions + 1;
  status = draft;
  rules = input.rules;
  activated_at = none;
  deactivated_at = none;
  approved_by = none;
}

abbrev pub rule_row : ℕ → CompiledRule → RuleRow
rule_row version rule = record {
  policy_version_id = version;
  rule_id = rule.rule_id;
  priority = coalesce rule.priority 100;
  enabled = coalesce rule.enabled true;
  configuration = rule;
}

abbrev pub add_version : VersionRow → Store → Store
add_version v s = record s {
  versions = s.versions ++ v ∷ [];
  rule_rows = s.rule_rows ++ map (rule_row v.id) v.rules;
  next_id = suc s.next_id;
}

abbrev pub write_draft : DraftInput → String → Action Store (PolicyRow × VersionRow)
write_draft input name = do
  policy ← ensure_policy input name
  version ← gets (new_version input policy.id)
  modify (add_version version)
  pure (policy, version)

-- `name?.trim()`, by JavaScript's `trim`; a missing name is refused like an empty one.
abbrev pub trimmed : (String → String) → Option String → String
trimmed trim none = ""
trimmed trim (some name) = trim name

unfoldable pub create_draft : (String → String) → DraftInput → Action Store (PolicyRow × VersionRow)
create_draft trim input = do
  let name = trimmed trim input.name
  throw_if (text_eq name "") (core invalid_input)
  lift (validate_compiled_rules input.rules)
  known ← gets (λ s. any (λ c. c == input.company_id) s.companies)
  throw_if (not known) (core tenant_error)
  transaction (write_draft input name)

abbrev pub set_status : ℕ → VersionStatus → Store → Store
set_status i st s = record s {
  versions = update_first (has_id i) (λ v. record v { status = st }) s.versions;
}

-- The common part of `validate`, `simulate` and `disable`.
unfoldable pub transition : ℕ → ℕ → VersionStatus → Action Store VersionRow
transition company i to = do
  found ← gets (get_version company i)
  current ← or_throw (core not_found) found
  throw_if (not (may_become current.status to)) (core conflict)
  modify (set_status current.id to)
  pure (record current { status = to })

abbrev pub validate : ℕ → ℕ → Action Store VersionRow
validate company i = transition company i validating

abbrev pub simulate : ℕ → ℕ → Action Store VersionRow
simulate company i = transition company i simulated

abbrev pub disable : ℕ → ℕ → Action Store VersionRow
disable company i = transition company i disabled

abbrev pub set_approved : ℕ → Option String → Store → Store
set_approved i by s = record s {
  versions =
      update_first (has_id i) (λ v. record v { status = approved; approved_by = by }) s.versions;
}

unfoldable pub approve : ℕ → ℕ → Option String → Action Store VersionRow
approve company i by = transaction (do
  found ← gets (get_version company i)
  current ← or_throw (core not_found) found
  throw_if (not (may_become current.status approved)) (core conflict)
  modify (set_approved current.id by)
  pure (record current { status = approved; approved_by = by }))

-- The three writes of `activate`.
abbrev pub supersede : ℕ → ℕ → Store → Store
supersede policy now s = record s {
  versions =
      update_all (λ v. v.policy_id == policy && is_active v.status)
        (λ v. record v { status = superseded; deactivated_at = some now }) s.versions;
}

abbrev pub set_active : ℕ → ℕ → Store → Store
set_active i now s = record s {
  versions =
      update_first (has_id i) (λ v. record v { status = active; activated_at = some now })
        s.versions;
}

abbrev pub point_to : ℕ → ℕ → Store → Store
point_to policy version s = record s {
  policies =
      update_first (λ p. p.id == policy)
        (λ p. record p { status = PolicyState.active; current_version = version }) s.policies;
}

unfoldable pub activate : ℕ → ℕ → ℕ → Action Store VersionRow
activate company i now = transaction (do
  found ← gets (get_version company i)
  target ← or_throw (core not_found) found
  throw_if (not (may_become target.status active)) (core conflict)
  modify (supersede target.policy_id now)
  modify (set_active target.id now)
  modify (point_to target.policy_id target.version)
  pure (record target { status = active; activated_at = some now }))

-- `assertMutableForEdit`
unfoldable pub assert_mutable_for_edit : ℕ → ℕ → Action Store (Unit {0})
assert_mutable_for_edit company i = do
  found ← gets (get_version company i)
  v ← or_throw (core not_found) found
  throw_if (is_frozen v.status) (core policy_invalid)
  where
    is_frozen : VersionStatus → Bool
    is_frozen active = true
    is_frozen superseded = true
    is_frozen _ = false

-- `loadRules`
unfoldable pub load_rules : ℕ → ℕ → Action Store (List CompiledRule)
load_rules company i = do
  found ← gets (get_version company i)
  v ← or_throw (core not_found) found
  pure v.rules

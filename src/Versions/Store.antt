-- ===== src/Versions/Store.antt =====
-- The rows of the policy tables, the transitions of a version, and the queries.
use orvex.Prelude.{ℕ, String, Bool, true, false, ◌&&◌, Option, List, ◌==◌, text_eq, any, same_text?}
use orvex.Table.{find_first}
use orvex.Policy.Rules.{CompiledRule}

pub data PolicyState : Type 0 where
  draft active disabled : PolicyState

pub data VersionStatus : Type 0 where
  draft validating simulated approved active superseded disabled : VersionStatus

pub record PolicyRow : Type 0 where
  pub id : ℕ
  pub company_id : ℕ
  pub agent_id : Option String
  pub name : String
  pub status : PolicyState
  pub current_version : ℕ

pub record VersionRow : Type 0 where
  pub id : ℕ
  pub policy_id : ℕ
  pub version : ℕ
  pub status : VersionStatus
  pub rules : List CompiledRule
  pub activated_at : Option ℕ
  pub deactivated_at : Option ℕ
  pub approved_by : Option String

pub record RuleRow : Type 0 where
  pub policy_version_id : ℕ
  pub rule_id : String
  pub priority : ℕ
  pub enabled : Bool
  pub configuration : CompiledRule

pub record Store : Type 0 where
  pub companies : List ℕ
  pub policies : List PolicyRow
  pub versions : List VersionRow
  pub rule_rows : List RuleRow
  pub next_id : ℕ

pub record DraftInput : Type 0 where
  pub company_id : ℕ
  pub agent_id : Option String
  pub name : Option String
  pub rules : List CompiledRule

-- `VERSION_TRANSITIONS[from].includes(to)`
unfoldable pub may_become : VersionStatus → VersionStatus → Bool
may_become draft validating = true
may_become draft disabled = true
may_become validating simulated = true
may_become validating draft = true
may_become validating disabled = true
may_become simulated approved = true
may_become simulated draft = true
may_become simulated disabled = true
may_become approved active = true
may_become approved disabled = true
may_become active superseded = true
may_become active disabled = true
may_become _ _ = false

abbrev pub has_id : ℕ → VersionRow → Bool
has_id i v = v.id == i

abbrev pub is_policy_of : ℕ → ℕ → PolicyRow → Bool
is_policy_of company i p = p.id == i && p.company_id == company

-- The policy of the version is of the company.
abbrev pub belongs_to : ℕ → Store → VersionRow → Bool
belongs_to company s v = any (is_policy_of company v.policy_id) s.policies

-- `getVersion`
abbrev pub get_version : ℕ → ℕ → Store → Option VersionRow
get_version company i s = find_first (λ v. has_id i v && belongs_to company s v) s.versions

abbrev pub is_active : VersionStatus → Bool
is_active active = true
is_active _ = false

-- `getActiveVersion`
abbrev pub get_active_version : ℕ → ℕ → Store → Option VersionRow
get_active_version company policy s =
    find_first (λ v. v.policy_id == policy && (is_active v.status && belongs_to company s v))
      s.versions

abbrev pub is_named : ℕ → Option String → String → PolicyRow → Bool
is_named company agent name p =
    p.company_id == company && (same_text? p.agent_id agent && text_eq p.name name)

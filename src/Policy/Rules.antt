-- ===== src/Policy/Rules.antt =====
-- The rules of a policy, the context of an evaluation, and the check of a rule set.
use orvex.Prelude.{
  ℕ, String, Bool, true, false, Option, List, [], ◌∷◌, includes, text_eq, if◌then◌else◌,
}
use orvex.Errors.{policy_invalid, policy_conflict}
use orvex.Outcome.{Result, ok, err, core}

-- `unknown_type` is a text that is none of `RULE_TYPES` and no member that every JavaScript object
-- has (`constructor`): `EVALUATORS` has nothing under it.
pub data RuleType : Type 0 where
  amount_limit cumulative_limit recipient_allowlist recipient_blocklist : RuleType
  new_recipient_approval category_allow category_block asset_allow asset_block : RuleType
  network_allow network_block time_window human_approval required_predecessor : RuleType
  no_structuring capability_expiry : RuleType
  unknown_type : String → RuleType

-- A list of the configuration: `none` where it is no array, and an entry `none` is no text.
abbrev pub TextArray : Type 0
TextArray = Option (List (Option String))

pub record RuleConfig : Type 0 where
  pub maximum : Option String
  pub window : Option String
  pub recipients : TextArray
  pub assets : TextArray
  pub networks : TextArray
  pub categories : TextArray
  pub start_hour : Option ℕ
  pub end_hour : Option ℕ
  pub predecessor : Option String
  pub threshold : Option String
  pub window_minutes : Option ℕ
  pub max_count : Option ℕ

pub record CompiledRule : Type 0 where
  pub rule_id : String
  pub rule_type : RuleType
  pub priority : Option ℕ
  pub enabled : Option Bool
  pub config : RuleConfig

pub record TransactionFacts : Type 0 where
  pub amount : Option String
  pub asset : Option String
  pub network : Option String
  pub category : Option String
  pub recipient : Option String

pub record RecentTransaction : Type 0 where
  pub amount : String
  pub made_at : String

pub record EvaluationContext : Type 0 where
  pub transaction : TransactionFacts
  pub cumulative_spent : List (String × String)
  pub cumulative_by_key : List (String × List (String × String))
  pub known_recipients : List String
  pub trajectory_event_types : List String
  pub recent_transactions : List RecentTransaction
  pub capability_expires_at : Option String
  pub now : String

pub data RuleResult : Type 0 where
  pass violation review require_approval skipped : RuleResult

pub data Severity : Type 0 where
  low medium high critical : Severity

pub record RuleOutcome : Type 0 where
  pub rule_id : String
  pub rule_type : RuleType
  pub result : RuleResult
  pub reason : Option String
  pub field : Option String
  pub actual_value : Option String
  pub expected : Option String
  pub severity : Option Severity

-- `RULE_TYPES.includes(type)`
abbrev pub is_known : RuleType → Bool
is_known (unknown_type name) = false
is_known _ = true

-- The loop of `validateCompiledRules`, with the ids that it has seen.
unfoldable pub validate_from : List String → List CompiledRule → Result (Unit {0})
validate_from seen [] = ok tt
validate_from seen (rule ∷ rules) =
    let rest = validate_from (rule.rule_id ∷ seen) rules in
    if text_eq rule.rule_id ""
    then err (core policy_invalid)
    else if includes seen rule.rule_id
    then err (core policy_conflict)
    else if is_known rule.rule_type
    then rest
    else err (core policy_invalid)

-- `validateCompiledRules`
unfoldable pub validate_compiled_rules : List CompiledRule → Result (Unit {0})
unfolding validate_from
validate_compiled_rules rules = validate_from [] rules

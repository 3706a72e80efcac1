-- ===== src/Policy/Engine.antt =====
-- `PolicyEngine.evaluate`.
use orvex.Prelude.{
  String, Bool, true, false, ◌&&◌, ◌||◌, ◌==◌, Option, List, [], ◌∷◌, map, filter, if◌then◌else◌,
  ltb, coalesce,
}
use orvex.Runtime.{Decimals, Host}
use orvex.Outcome.{Result, ok}
use orvex.Outcome.Results.{◌>>=◌, map_results}
use orvex.Decision.Engine.{PolicyStatus}
use orvex.Policy.Rules.{
  RuleType, CompiledRule, EvaluationContext, RuleResult, violation, review, require_approval,
  Severity, high, RuleOutcome,
}
use orvex.Policy.Limits.{evaluate_rule}

pub record PolicyViolation : Type 0 where
  pub rule_id : String
  pub rule_type : RuleType
  pub field : Option String
  pub actual_value : Option String
  pub expected : Option String
  pub severity : Severity
  pub message : String

pub record Requirement : Type 0 where
  pub rule_id : String
  pub rule_type : RuleType
  pub reason : String

pub record RuleChecked : Type 0 where
  pub rule_id : String
  pub result : RuleResult

pub record PolicyEvaluation : Type 0 where
  pub status : PolicyStatus
  pub rules_checked : List RuleChecked
  pub violations : List PolicyViolation
  pub requirements : List Requirement
  pub evaluated_at : String

abbrev pub is_violation : RuleResult → Bool
is_violation violation = true
is_violation _ = false

abbrev pub is_requirement : RuleResult → Bool
is_requirement require_approval = true
is_requirement review = true
is_requirement _ = false

-- `r.enabled !== false`
abbrev pub is_enabled : CompiledRule → Bool
is_enabled rule = coalesce rule.enabled true

abbrev pub to_violation : RuleOutcome → PolicyViolation
to_violation o = record {
  rule_id = o.rule_id;
  rule_type = o.rule_type;
  field = o.field;
  actual_value = o.actual_value;
  expected = o.expected;
  severity = coalesce o.severity high;
  message = coalesce o.reason "Policy rule violated.";
}

abbrev pub to_requirement : RuleOutcome → Requirement
to_requirement o = record {
  rule_id = o.rule_id;
  rule_type = o.rule_type;
  reason = coalesce o.reason "";
}

abbrev pub has_any : {A : Type 0} → List A → Bool
has_any [] = false
has_any (_ ∷ _) = true

-- The stable sort of `Array.sort`, by a test of whether one may stand before the other.
abbrev pub insert : {A : Type 0} → (A → A → Bool) → A → List A → List A
insert before x [] = x ∷ []
insert before x (y ∷ ys) = if before x y then x ∷ y ∷ ys else y ∷ insert before x ys

abbrev pub sort : {A : Type 0} → (A → A → Bool) → List A → List A
sort before [] = []
sort before (x ∷ xs) = insert before x (sort before xs)

-- What `evaluate` makes of the outcomes.
unfoldable pub summarize : EvaluationContext → List RuleOutcome → PolicyEvaluation
summarize context outcomes =
    let violations = map to_violation (filter (λ o. is_violation o.result) outcomes) in
    let requirements = map to_requirement (filter (λ o. is_requirement o.result) outcomes) in
    record {
      status =
          if has_any violations
          then PolicyStatus.fail
          else if has_any requirements
          then PolicyStatus.review
          else PolicyStatus.pass;
      rules_checked = map (λ o. record { rule_id = o.rule_id; result = o.result }) outcomes;
      violations = violations;
      requirements = requirements;
      evaluated_at = context.now;
    }

module _ (api : Decimals) (host : Host) where
  open host use {locale_before}

  -- The comparison of the sort: by priority, 100 where there is none, then by id.
  abbrev pub before_rule : CompiledRule → CompiledRule → Bool
  before_rule a b =
      ltb (coalesce a.priority 100) (coalesce b.priority 100)
      || (coalesce a.priority 100 == coalesce b.priority 100 && locale_before a.rule_id b.rule_id)

  abbrev pub enabled_rules : List CompiledRule → List CompiledRule
  enabled_rules rules = sort before_rule (filter is_enabled rules)

  unfoldable pub evaluate : List CompiledRule → EvaluationContext → Result PolicyEvaluation
  unfolding summarize evaluate_rule
  evaluate rules context = do
    outcomes ← map_results (λ rule. evaluate_rule api host rule context) (enabled_rules rules)
    ok (summarize context outcomes)

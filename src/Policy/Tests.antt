-- ===== src/Policy/Tests.antt =====
-- A policy of three rules, evaluated at 23:00 UTC.
use orvex.Prelude.{
  String, true, not, ◌&&◌, ◌||◌, none, some, List, [], ◌∷◌, ◌≡◌, ◌↔◌, refl, all, arith,
  if◌then◌else◌, ltb, text_eq,
}
use orvex.Prelude.Int.{pos, ◌+ℤ◌, ◌≤ℤ◌}
use orvex.Runtime.{Host}
use orvex.Runtime.{IsShort}
use orvex.Runtime.Whole.{whole}
use orvex.Outcome.{Result, ok, err}
use orvex.Decision.Engine.{not_required, PolicyStatus, DecisionInput, DecisionResult, decide}
use orvex.Policy.Rules.{
  RuleType, cumulative_limit, time_window, human_approval, RuleConfig, CompiledRule,
  EvaluationContext, pass, violation, RuleOutcome, validate_compiled_rules,
}
use orvex.Policy.Evaluators.{evaluate_human_approval}
use orvex.Policy.Limits.{evaluate_time_window, evaluate_cumulative_limit, evaluate_rule}
use orvex.Policy.Engine.{
  PolicyEvaluation, is_violation, is_requirement, is_enabled, evaluate, summarize,
}
use orvex.Policy.Status.{
  is_ok, status_of, some_rule, evaluate-status, evaluate-returns, violation_denies,
}
use orvex.Policy.Limited.{
  hours_since, time_window_result, cumulative_pass_iff, is_formed, distinct_ids,
  validate_compiled_rules-is_ok,
}

abbrev late : Host
late = record {
  get_time = λ text. some 0;
  get_utc_hours = λ text. some 23;
  show_number = λ n. "n";
  locale_before = λ a b. true;
}

abbrev no_config : RuleConfig
no_config = record {
  maximum = none;
  window = none;
  recipients = none;
  assets = none;
  networks = none;
  categories = none;
  start_hour = none;
  end_hour = none;
  predecessor = none;
  threshold = none;
  window_minutes = none;
  max_count = none;
}

abbrev rule : String → RuleType → RuleConfig → CompiledRule
rule id kind config = record {
  rule_id = id;
  rule_type = kind;
  priority = none;
  enabled = none;
  config = config;
}

abbrev daily : CompiledRule
daily =
    rule "daily" cumulative_limit (record no_config { window = some "daily"; maximum = some "60" })

-- From 22 to 6.
abbrev night : CompiledRule
night = rule "night" time_window (record no_config { start_hour = some 22; end_hour = some 6 })

abbrev human : CompiledRule
human = record (rule "human" human_approval no_config) { priority = some 1 }

abbrev rules : List CompiledRule
rules = daily ∷ night ∷ human ∷ []

abbrev context : EvaluationContext
context = record {
  transaction = record {
    amount = some "40";
    asset = some "USDC";
    network = some "base";
    category = none;
    recipient = some "0x1";
  };
  cumulative_spent = ("daily", "50") ∷ [];
  cumulative_by_key = [];
  known_recipients = [];
  trajectory_event_types = [];
  recent_transactions = [];
  capability_expires_at = none;
  now = "2026-01-01T23:00:00Z";
}

abbrev blank : PolicyEvaluation
blank = record {
  status = PolicyStatus.pass;
  rules_checked = [];
  violations = [];
  requirements = [];
  evaluated_at = "";
}

abbrev value_or : PolicyEvaluation → Result PolicyEvaluation → PolicyEvaluation
value_or e (ok a) = a
value_or e (err f) = e

evaluation : PolicyEvaluation
evaluation = value_or blank (evaluate whole late rules context)

-- The budget of the day is exceeded, the window holds, and a human has to approve.
evaluation_eq : evaluate whole late rules context ≡ ok evaluation
unfolding evaluation evaluate summarize evaluate_rule evaluate_time_window evaluate_cumulative_limit
    evaluate_human_approval text_eq ◌+ℤ◌
evaluation_eq = refl

fails : evaluation.status ≡ PolicyStatus.fail
unfolding evaluation evaluate summarize evaluate_rule evaluate_time_window evaluate_cumulative_limit
    evaluate_human_approval text_eq ◌+ℤ◌
fails = refl

violated : some_rule whole late rules context is_violation ≡ true
unfolding evaluate summarize evaluate_rule evaluate_time_window evaluate_cumulative_limit
    evaluate_human_approval text_eq ◌+ℤ◌
violated = refl

evaluate-status_example :
    evaluation.status
    ≡ status_of
        (some_rule whole late rules context is_violation)
        (some_rule whole late rules context is_requirement)
evaluate-status_example = evaluate-status whole late rules context evaluation evaluation_eq

evaluate-returns_example :
    is_ok (evaluate whole late rules context)
    ≡ all (λ r. not (is_enabled r) || is_ok (evaluate_rule whole late r context)) rules
evaluate-returns_example = evaluate-returns whole late rules context

-- Everything else is in order.
abbrev in_order : DecisionInput
in_order = record {
  platform_invariant_violated = none;
  agent_active = true;
  intent_valid = true;
  capability_valid = true;
  constitution_compatible = true;
  policy_status = PolicyStatus.pass;
  transaction_gate = none;
  simulation_required = none;
  simulation_outcome = none;
  simulation_binding = none;
  context_stale = none;
  approval = not_required;
  ai_recommended_handling = none;
}

violation_denies_example :
    (decide (record in_order { policy_status = evaluation.status })).result ≡ DecisionResult.deny
violation_denies_example =
    violation_denies whole late rules context evaluation in_order evaluation_eq violated

time_window_result_example :
    (evaluate_time_window whole late night context).result
    ≡ (if ltb (hours_since 22 23) (hours_since 22 6) then pass else violation)
time_window_result_example =
    time_window_result whole late night context 22 6 23 (omega arith) (omega arith) (omega arith)
      refl refl refl

spends_short : IsShort 0 (pos 50 +ℤ pos 40)
unfolding ◌+ℤ◌
spends_short = ((90, (0, refl)), (omega arith, omega arith))

cumulative_pass_iff_example :
    (o : RuleOutcome) × ((evaluate_cumulative_limit whole late daily context ≡ ok o)
      × ((o.result ≡ pass) ↔ (pos 50 +ℤ pos 40 ≤ℤ pos 60)))
cumulative_pass_iff_example =
    cumulative_pass_iff whole late daily context "daily" "60" (pos 40) (pos 0) (pos 50) (pos 60)
      (unfold text_eq in refl) refl (unfold text_eq in refl) refl (unfold text_eq in refl) refl 0
      spends_short

validate_compiled_rules-is_ok_example :
    is_ok (validate_compiled_rules rules) ≡ (all is_formed rules && distinct_ids rules)
validate_compiled_rules-is_ok_example = validate_compiled_rules-is_ok rules

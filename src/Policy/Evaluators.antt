-- ===== src/Policy/Evaluators.antt =====
-- The evaluators of the sixteen types of rules.
use orvex.Prelude.{
  String, not, Option, none, some, List, [], ◌∷◌, includes, text_eq, if◌then◌else◌, concat, join,
}
use orvex.Policy.Rules.{
  TextArray, CompiledRule, EvaluationContext, RuleResult, pass, violation, require_approval,
  skipped, Severity, medium, high, critical, RuleOutcome,
}

-- `outcome` of a result alone.
abbrev pub plain : CompiledRule → RuleResult → RuleOutcome
plain rule result = record {
  rule_id = rule.rule_id;
  rule_type = rule.rule_type;
  result = result;
  reason = none;
  field = none;
  actual_value = none;
  expected = none;
  severity = none;
}

-- `outcome` of a violation with nothing but a reason and a severity.
abbrev pub violates : CompiledRule → String → Severity → RuleOutcome
violates rule reason severity = record (plain rule violation) {
  reason = some reason;
  severity = some severity;
}

-- The same with the field and its value.
abbrev pub violates_in : CompiledRule → String → String → Option String → Severity → RuleOutcome
violates_in rule reason field actual severity = record (violates rule reason severity) {
  field = some field;
  actual_value = actual;
}

abbrev pub expecting : String → RuleOutcome → RuleOutcome
expecting text o = record o { expected = some text }

-- `asStringArray`
abbrev pub texts_only : List (Option String) → List String
texts_only [] = []
texts_only (some s ∷ xs) = s ∷ texts_only xs
texts_only (none ∷ xs) = texts_only xs

abbrev pub as_string_array : TextArray → List String
as_string_array none = []
as_string_array (some xs) = texts_only xs

-- The text of a value, if it is a text and not empty.
abbrev pub nonempty : Option String → Option String
nonempty none = none
nonempty (some s) = if text_eq s "" then none else some s

-- The property of an object, by its name.
abbrev pub get_property : {A : Type 0} → String → List (String × A) → Option A
get_property name [] = none
get_property name ((k, v) ∷ entries) = if text_eq k name then some v else get_property name entries

module _ (rule : CompiledRule) (context : EvaluationContext) where
  unfoldable pub evaluate_recipient_allowlist : RuleOutcome
  evaluate_recipient_allowlist = elim (nonempty context.transaction.recipient) [
    | none ↦ violates rule "No recipient to match allowlist." high
    | some recipient ↦
        if includes (as_string_array rule.config.recipients) recipient
        then plain rule pass
        else expecting "recipient must be allowlisted" (
            violates_in rule "Recipient is not in the allowlist." "transaction.recipient"
              (some recipient) critical)
  ]

  unfoldable pub evaluate_recipient_blocklist : RuleOutcome
  evaluate_recipient_blocklist = elim (nonempty context.transaction.recipient) [
    | none ↦ plain rule pass
    | some recipient ↦
        if not (includes (as_string_array rule.config.recipients) recipient)
        then plain rule pass
        else expecting "recipient must not be blocklisted" (
            violates_in rule "Recipient is blocklisted." "transaction.recipient" (some recipient)
              critical)
  ]

  unfoldable pub evaluate_new_recipient : RuleOutcome
  evaluate_new_recipient = elim (nonempty context.transaction.recipient) [
    | none ↦ plain rule skipped
    | some recipient ↦
        if includes context.known_recipients recipient
        then plain rule pass
        else record (violates_in rule "New recipient requires human approval."
            "transaction.recipient" (some recipient) medium) { result = require_approval }
  ]

  unfoldable pub evaluate_asset_allow : RuleOutcome
  evaluate_asset_allow =
      let allow = as_string_array rule.config.assets in
      elim (nonempty context.transaction.asset) [
        | none ↦ violates rule "No asset specified." high
        | some asset ↦
            if includes allow asset
            then plain rule pass
            else expecting (concat ("one of " ∷ join "," allow ∷ []))
                (violates_in rule "Asset is not allowed." "transaction.asset" (some asset) high)
      ]

  unfoldable pub evaluate_asset_block : RuleOutcome
  evaluate_asset_block = elim (nonempty context.transaction.asset) [
    | none ↦ plain rule pass
    | some asset ↦
        if not (includes (as_string_array rule.config.assets) asset)
        then plain rule pass
        else violates_in rule "Asset is blocked." "transaction.asset" (some asset) high
  ]

  unfoldable pub evaluate_network_allow : RuleOutcome
  evaluate_network_allow =
      let allow = as_string_array rule.config.networks in
      elim (nonempty context.transaction.network) [
        | none ↦ violates rule "No network specified." high
        | some network ↦
            if includes allow network
            then plain rule pass
            else expecting (concat ("one of " ∷ join "," allow ∷ [])) (
                violates_in rule "Network is not allowed." "transaction.network" (some network)
                  critical)
      ]

  unfoldable pub evaluate_network_block : RuleOutcome
  evaluate_network_block = elim (nonempty context.transaction.network) [
    | none ↦ plain rule pass
    | some network ↦
        if not (includes (as_string_array rule.config.networks) network)
        then plain rule pass
        else violates_in rule "Network is blocked." "transaction.network" (some network) critical
  ]

  unfoldable pub evaluate_category_allow : RuleOutcome
  evaluate_category_allow = elim (nonempty context.transaction.category) [
    | none ↦ violates rule "No category specified." medium
    | some category ↦
        if includes (as_string_array rule.config.categories) category
        then plain rule pass
        else violates_in rule "Category is not allowed." "transaction.category" (some category)
            medium
  ]

  unfoldable pub evaluate_category_block : RuleOutcome
  evaluate_category_block = elim (nonempty context.transaction.category) [
    | none ↦ plain rule pass
    | some category ↦
        if not (includes (as_string_array rule.config.categories) category)
        then plain rule pass
        else violates_in rule "Category is blocked." "transaction.category" (some category) medium
  ]

  unfoldable pub evaluate_human_approval : RuleOutcome
  evaluate_human_approval =
      record (violates rule "Policy requires human approval for this action." medium) {
        result = require_approval;
      }

  unfoldable pub evaluate_required_predecessor : RuleOutcome
  evaluate_required_predecessor = elim (nonempty rule.config.predecessor) [
    | none ↦ plain rule skipped
    | some predecessor ↦
        if includes context.trajectory_event_types predecessor
        then plain rule pass
        else expecting predecessor (
            violates_in rule
              (concat (
                "Required predecessor '" ∷ predecessor ∷ "' did not occur before this action."
                ∷ []))
              "trajectory.predecessor" none high)
  ]

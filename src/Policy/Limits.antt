-- ===== src/Policy/Limits.antt =====
-- The evaluators that read amounts and times, and the registry of all of them.
use orvex.Prelude.{
  ℕ, ◌+◌, ◌*◌, String, Bool, false, not, ◌&&◌, ◌||◌, Option, none, some, List, [], ◌∷◌, ◌++◌,
  filter, text_eq, if◌then◌else◌, leb, ltb, length, concat, coalesce,
}
use orvex.Runtime.{Decimals, Host}
use orvex.Outcome.{Result, ok, err, decimal_error, type_error}
use orvex.Outcome.Results.{◌>>=◌, some_or, map_results}
use orvex.Policy.Rules.{
  CompiledRule, EvaluationContext, RecentTransaction, pass, skipped, medium, high, critical,
  RuleOutcome, amount_limit, cumulative_limit, recipient_allowlist, recipient_blocklist,
  new_recipient_approval, category_allow, category_block, asset_allow, asset_block, network_allow,
  network_block, time_window, human_approval, required_predecessor, no_structuring,
  capability_expiry, unknown_type,
}
use orvex.Policy.Evaluators.{
  plain, violates, violates_in, expecting, nonempty, get_property, evaluate_recipient_allowlist,
  evaluate_recipient_blocklist, evaluate_new_recipient, evaluate_asset_allow, evaluate_asset_block,
  evaluate_network_allow, evaluate_network_block, evaluate_category_allow, evaluate_category_block,
  evaluate_human_approval, evaluate_required_predecessor,
}

-- The windows whose total is kept per recipient, category or asset, with the key of the
-- transaction; `none` for the others.
abbrev pub keyed_by : String → EvaluationContext → Option (Option String)
keyed_by window context =
    if text_eq window "recipient"
    then some context.transaction.recipient
    else if text_eq window "category"
    then some context.transaction.category
    else if text_eq window "asset"
    then some context.transaction.asset
    else none

-- The total that was spent in the window, as a text.
abbrev pub spent_in : String → EvaluationContext → String
spent_in window context = elim (keyed_by window context) [
  | none ↦ coalesce (get_property window context.cumulative_spent) "0"
  | some key ↦ elim (nonempty key) [
    | none ↦ "0"
    | some name ↦
        coalesce
          (nonempty
            (get_property name (coalesce (get_property window context.cumulative_by_key) [])))
          "0"
  ]
]

-- Whether the hour, where there is one, lies in the window, which may wrap midnight.
abbrev pub in_window : ℕ → ℕ → Option ℕ → Bool
in_window start end none = false
in_window start end (some hour) =
    if leb start end then leb start hour && ltb hour end else leb start hour || ltb hour end

-- `now - at <= window`, false where one of them is NaN.
abbrev pub is_recent : Option ℕ → ℕ → Option ℕ → Bool
is_recent (some now) window (some made) = leb now (made + window)
is_recent _ window _ = false

-- `expires > now`, false where one of them is NaN.
abbrev pub is_after : Option ℕ → Option ℕ → Bool
is_after (some expires) (some now) = ltb now expires
is_after _ _ = false

module _ (api : Decimals) (host : Host) where
  open api use {Decimal, parse, print, less_than_or_equal_to, greater_than, plus}
  open host use {get_time, get_utc_hours, show_number}

  -- `toDecimal`
  abbrev pub to_decimal : String → Result Decimal
  to_decimal text = some_or decimal_error (parse text)

  module _ (rule : CompiledRule) (context : EvaluationContext) where
    unfoldable pub evaluate_amount_limit : Result RuleOutcome
    evaluate_amount_limit = elim rule.config.maximum [
      | none ↦ ok (plain rule skipped)
      | some max ↦ elim context.transaction.amount [
        | none ↦ ok (violates rule "No amount to check against limit." high)
        | some text ↦ do
          amount ← to_decimal text
          limit ← to_decimal max
          ok (
              if less_than_or_equal_to amount limit
              then plain rule pass
              else expecting (concat ("<= " ∷ max ∷ [])) (
                  violates_in rule "Amount exceeds the configured limit." "transaction.amount"
                    (some text) high))
      ]
    ]

    -- `toDecimal(ctx.transaction.amount)`, with 0 for a missing or an empty amount.
    abbrev pub amount_or_zero : Result Decimal
    amount_or_zero = to_decimal (coalesce (nonempty context.transaction.amount) "0")

    -- The total that the transaction would lead to, against the maximum.
    abbrev pub cumulative_outcome : String → String → Decimal → Decimal → RuleOutcome
    cumulative_outcome window max projected limit =
        if less_than_or_equal_to projected limit
        then plain rule pass
        else expecting (concat ("<= " ∷ max ∷ [])) (
            violates_in rule
              (concat ("Cumulative " ∷ window ∷ " spend would exceed the limit." ∷ []))
              (concat ("cumulative." ∷ window ∷ [])) (some (print projected)) high)

    unfoldable pub cumulative_check : String → String → Result RuleOutcome
    cumulative_check window max = do
      amount ← amount_or_zero
      _zero ← to_decimal "0"
      spent ← to_decimal (spent_in window context)
      limit ← to_decimal max
      ok (cumulative_outcome window max (plus spent amount) limit)

    unfoldable pub evaluate_cumulative_limit : Result RuleOutcome
    unfolding cumulative_check
    evaluate_cumulative_limit = elim (nonempty rule.config.window) [
      | none ↦ ok (plain rule skipped)
      | some window ↦ elim rule.config.maximum [
        | none ↦ ok (plain rule skipped)
        | some max ↦ cumulative_check window max
      ]
    ]

    abbrev pub shown_hour : Option ℕ → String
    shown_hour none = "NaN"
    shown_hour (some hour) = show_number hour

    unfoldable pub evaluate_time_window : RuleOutcome
    evaluate_time_window = elim rule.config.start_hour [
      | none ↦ plain rule skipped
      | some start ↦ elim rule.config.end_hour [
        | none ↦ plain rule skipped
        | some end ↦
            if in_window start end (get_utc_hours context.now)
            then plain rule pass
            else expecting (concat ("[" ∷ show_number start ∷ "," ∷ show_number end ∷ ")" ∷ [])) (
                violates_in rule "Outside the permitted UTC time window." "time.utc_hour"
                  (some (shown_hour (get_utc_hours context.now))) medium)
      ]
    ]

    -- The recent transactions of the window, and the one under evaluation if it has an amount.
    abbrev pub counted : ℕ → List String
    counted window =
        map_amounts (
          filter (λ t. is_recent (get_time context.now) window (get_time t.made_at))
            context.recent_transactions)
        ++ own context.transaction.amount
      where
        map_amounts : List RecentTransaction → List String
        map_amounts [] = []
        map_amounts (t ∷ ts) = t.amount ∷ map_amounts ts

        own : Option String → List String
        own none = []
        own (some amount) = amount ∷ []

    unfoldable pub structuring_check : String → Result RuleOutcome
    structuring_check threshold = do
      bound ← to_decimal threshold
      amounts ← map_results to_decimal (counted (coalesce rule.config.window_minutes 60 * 60000))
      let max_count = coalesce rule.config.max_count 3
      let count = length (filter (λ amount. not (greater_than amount bound)) amounts)
      ok (
          if ltb max_count count
          then expecting (concat ("<= " ∷ show_number max_count ∷ [])) (
              violates_in rule
                "Potential structuring: too many sub-threshold transactions in window."
                "structuring.count" (some (show_number count)) high)
          else plain rule pass)

    unfoldable pub evaluate_no_structuring : Result RuleOutcome
    unfolding structuring_check
    evaluate_no_structuring = elim rule.config.threshold [
      | none ↦ ok (plain rule skipped)
      | some threshold ↦ structuring_check threshold
    ]

    unfoldable pub evaluate_capability_expiry : RuleOutcome
    evaluate_capability_expiry = elim (nonempty context.capability_expires_at) [
      | none ↦ plain rule skipped
      | some expires ↦
          if is_after (get_time expires) (get_time context.now)
          then plain rule pass
          else expecting (concat ("> " ∷ context.now ∷ [])) (
              violates_in rule "Required capability has expired." "capability.expires_at"
                (some expires) critical)
    ]

    -- `EVALUATORS[rule.type](rule, ctx)`; there is no evaluator of an unknown type to call.
    unfoldable pub evaluate_rule : Result RuleOutcome
    unfolding evaluate_amount_limit evaluate_cumulative_limit evaluate_time_window
        evaluate_no_structuring evaluate_capability_expiry
    evaluate_rule = elim rule.rule_type [
      | amount_limit ↦ evaluate_amount_limit
      | cumulative_limit ↦ evaluate_cumulative_limit
      | recipient_allowlist ↦ ok (evaluate_recipient_allowlist rule context)
      | recipient_blocklist ↦ ok (evaluate_recipient_blocklist rule context)
      | new_recipient_approval ↦ ok (evaluate_new_recipient rule context)
      | asset_allow ↦ ok (evaluate_asset_allow rule context)
      | asset_block ↦ ok (evaluate_asset_block rule context)
      | network_allow ↦ ok (evaluate_network_allow rule context)
      | network_block ↦ ok (evaluate_network_block rule context)
      | category_allow ↦ ok (evaluate_category_allow rule context)
      | category_block ↦ ok (evaluate_category_block rule context)
      | time_window ↦ ok evaluate_time_window
      | human_approval ↦ ok (evaluate_human_approval rule context)
      | required_predecessor ↦ ok (evaluate_required_predecessor rule context)
      | no_structuring ↦ evaluate_no_structuring
      | capability_expiry ↦ ok evaluate_capability_expiry
      | unknown_type name ↦ err type_error
    ]

-- ===== src/Policy/Limited.antt =====
-- When the rules on times and amounts pass, and which rule sets are accepted.
use orvex.Prelude.{
  ℕ, ◌+◌, ◌-◌, ◌%◌, ◌<◌, String, Bool, true, false, not, ◌&&◌, ◌||◌, some, List, [], ◌∷◌, ◌≡◌, ◌≢◌,
  ◌↔◌, refl, sym, ap, ◌∙◌, if◌then◌else◌, ltb, arith, any, all, text_eq, includes, coalesce,
}
use mathlib.Core.Path.{subst}
use orvex.Policy.Status.{is_ok}
use orvex.Prelude.Int.{◌+ℤ◌, ◌≤ℤ◌}
use orvex.Runtime.{Decimals, Host, IsShort}
use orvex.Errors.{policy_invalid, policy_conflict}
use orvex.Outcome.{Result, ok, err, core}
use orvex.Policy.Rules.{
  CompiledRule, EvaluationContext, pass, violation, RuleOutcome, is_known, validate_from,
  validate_compiled_rules,
}
use orvex.Policy.Evaluators.{nonempty, plain}
use orvex.Policy.Limits.{
  cumulative_outcome, in_window, spent_in, evaluate_time_window, evaluate_cumulative_limit,
}

-- A window [start, end) on the clock, measured forward from its start.
abbrev pub hours_since : ℕ → ℕ → ℕ
hours_since start hour = (hour + 24 - start) % 24

in_window_lem :
    (start end hour : ℕ)
    → start < 24
    → end < 24
    → hour < 24
    → in_window start end (some hour) ≡ ltb (hours_since start hour) (hours_since start end)
in_window_lem start end hour s e h = ground arith

judged :
    (b : Bool) (x y : RuleOutcome)
    → x.result ≡ pass
    → y.result ≡ violation
    → (if b then x else y).result ≡ (if b then pass else violation)
judged true x y p q = p
judged false x y p q = q

passes_iff :
    (b : Bool) (x y : RuleOutcome)
    → x.result ≡ pass
    → y.result ≡ violation
    → ((if b then x else y).result ≡ pass) ↔ (b ≡ true)
passes_iff true x y p q = (λ h. refl, λ h. p)
passes_iff false x y p q = (λ h. absurd (violation_fails (sym q ∙ h)), λ h. cc)
  where
    violation_fails : violation ≢ pass
    violation_fails h = cc

module _ (api : Decimals) (host : Host) (rule : CompiledRule) (context : EvaluationContext) where
  open api use {Decimal, parse, units, plus, plus_units, lte_iff}
  open host use {get_utc_hours}

  -- A rule with a time window passes exactly when fewer hours of the clock have gone by since the
  -- start of the window than the window is long, and is violated otherwise, whether or not the
  -- window wraps midnight; it holds of start, end and hour below 24.
  pub time_window_result :
      (start end hour : ℕ)
      → start < 24
      → end < 24
      → hour < 24
      → rule.config.start_hour ≡ some start
      → rule.config.end_hour ≡ some end
      → get_utc_hours context.now ≡ some hour
      → (evaluate_time_window api host rule context).result
        ≡ (if ltb (hours_since start hour) (hours_since start end) then pass else violation)
  unfolding evaluate_time_window
  time_window_result start end hour s e h p q r =
      rw (p, q, r, in_window_lem start end hour s e h) (judged _ _ _ refl refl)

  -- A cumulative limit, where the window, the maximum and the texts of the amounts can be read: the
  -- rule passes exactly when what was spent in the window and the amount of the transaction
  -- together are at most the maximum, given that for some k their exact sum counts whole steps of
  -- 10^k units of 10^-18, fewer than 10^20 of them, as decimal.js keeps twenty digits.
  pub cumulative_pass_iff :
      (window max : String) (amount zero spent limit : Decimal)
      → nonempty rule.config.window ≡ some window
      → rule.config.maximum ≡ some max
      → parse (coalesce (nonempty context.transaction.amount) "0") ≡ some amount
      → parse "0" ≡ some zero
      → parse (spent_in window context) ≡ some spent
      → parse max ≡ some limit
      → (k : ℕ) → IsShort k (units spent +ℤ units amount)
      → (o : RuleOutcome) × ((evaluate_cumulative_limit api host rule context ≡ ok o)
          × ((o.result ≡ pass) ↔ (units spent +ℤ units amount ≤ℤ units limit)))
  unfolding evaluate_cumulative_limit
  cumulative_pass_iff window max amount zero spent limit w m a z p l k short =
      let law = lte_iff (plus spent amount) limit in
      let o = cumulative_outcome api host rule context window max (plus spent amount) limit in
      let decided =
        passes_iff (api.less_than_or_equal_to (plus spent amount) limit) (plain rule pass) _ refl
          refl in
      (
        o,
        (
          ground (arith, w, m, a, z, p, l),
          (
            λ h.
                subst (λ u. u ≤ℤ units limit) (plus_units spent amount k short)
                  (law.0 (decided.0 h)),
            λ h.
                decided.1
                  (law.1 (subst (λ u. u ≤ℤ units limit) (sym (plus_units spent amount k short)) h)),
          ),
        ),
      )

-- The ids differ from one another.
abbrev pub distinct_ids : List CompiledRule → Bool
distinct_ids [] = true
distinct_ids (r ∷ rs) = not (any (λ x. text_eq x.rule_id r.rule_id) rs) && distinct_ids rs

-- A rule that has an id and a known type.
abbrev pub is_formed : CompiledRule → Bool
is_formed r = not (text_eq r.rule_id "") && is_known r.rule_type

all-not_or :
    (p q : CompiledRule → Bool) (rs : List CompiledRule)
    → all (λ x. not (p x || q x)) rs ≡ (not (any p rs) && all (λ x. not (q x)) rs)
all-not_or p q [] = refl
all-not_or p q (r ∷ rs) = ground (arith, all-not_or p q rs)

guards-is_ok :
    (e i k : Bool) (rest : Result (Unit {0}))
    → is_ok (
        if e
        then err (core policy_invalid)
        else if i
        then err (core policy_conflict)
        else if k
        then rest
        else err (core policy_invalid))
      ≡ (not e && (not i && (k && is_ok rest)))
guards-is_ok true i k rest = refl
guards-is_ok false true k rest = refl
guards-is_ok false false true rest = refl
guards-is_ok false false false rest = refl

regroup :
    (e i k g d a u : Bool)
    → (e && (i && (k && (g && (d && (a && u)))))) ≡ (((e && k) && g) && ((a && d) && (i && u)))
regroup false i k g d a u = refl
regroup true i false g d a u = ground arith
regroup true i true false d a u = ground arith
regroup true i true true d a u = ground arith

validate_from-is_ok :
    (seen : List String) (rs : List CompiledRule)
    → is_ok (validate_from seen rs)
      ≡ (all is_formed rs && (distinct_ids rs && all (λ r. not (includes seen r.rule_id)) rs))
unfolding validate_from
validate_from-is_ok seen [] = refl
validate_from-is_ok seen (r ∷ rs) =
    guards-is_ok (text_eq r.rule_id "") (includes seen r.rule_id) (is_known r.rule_type)
      (validate_from (r.rule_id ∷ seen) rs)
    ∙ (ap
          (λ b.
            not (text_eq r.rule_id "")
            && (not (includes seen r.rule_id) && (is_known r.rule_type && b)))
          (validate_from-is_ok (r.rule_id ∷ seen) rs
            ∙ ap (λ b. all is_formed rs && (distinct_ids rs && b))
                (all-not_or (λ x. text_eq x.rule_id r.rule_id) (λ x. includes seen x.rule_id) rs))
        ∙ regroup (not (text_eq r.rule_id "")) (not (includes seen r.rule_id))
            (is_known r.rule_type) (all is_formed rs) (distinct_ids rs)
            (not (any (λ x. text_eq x.rule_id r.rule_id) rs))
            (all (λ x. not (includes seen x.rule_id)) rs))

all-true :
    (p : CompiledRule → Bool) (rs : List CompiledRule)
    → ((x : CompiledRule) → p x ≡ true)
    → all p rs ≡ true
all-true p [] h = refl
all-true p (r ∷ rs) h = rw (h r, all-true p rs h)

and_true : (b : Bool) → (b && true) ≡ b
and_true b = ground arith

-- A rule set is accepted exactly when every rule has a non-empty id and a known type, and no two
-- rules have the same id.
pub validate_compiled_rules-is_ok :
    (rs : List CompiledRule)
    → is_ok (validate_compiled_rules rs) ≡ (all is_formed rs && distinct_ids rs)
unfolding validate_compiled_rules
validate_compiled_rules-is_ok rs =
    let unseen = all-true (λ r. not (includes [] r.rule_id)) rs (λ x. refl) in
    validate_from-is_ok [] rs ∙ rw (unseen, and_true (distinct_ids rs)) refl

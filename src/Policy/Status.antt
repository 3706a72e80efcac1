-- ===== src/Policy/Status.antt =====
-- The status of an evaluation does not depend on the order of the rules, and a violation denies.
use orvex.Prelude.{
  Bool, true, false, not, ◌&&◌, ◌||◌, List, [], ◌∷◌, map, filter, any, all, ◌≡◌, refl, sym, ap, ◌∙◌,
  if◌then◌else◌, arith,
}
use orvex.Runtime.{Decimals, Host}
use orvex.Outcome.{Result, ok, err}
use orvex.Outcome.Results.{◌>>=◌, map_results}
use orvex.Decision.Engine.{PolicyStatus, DecisionInput, DecisionResult, decide}
use orvex.Policy.Rules.{CompiledRule, EvaluationContext, RuleResult, RuleOutcome}
use orvex.Policy.Limits.{evaluate_rule}
use orvex.Policy.Engine.{
  PolicyEvaluation, is_violation, is_requirement, is_enabled, to_violation, to_requirement, has_any,
  insert, sort, summarize, before_rule, enabled_rules, evaluate,
}

module _ {A : Type 0} (before : A → A → Bool) (p : A → Bool) where
  any-insert : (x : A) (xs : List A) → any p (insert before x xs) ≡ (p x || any p xs)
  any-insert x [] = refl
  any-insert x (y ∷ ys) = ground (arith, any-insert x ys)

  any-sort : (xs : List A) → any p (sort before xs) ≡ any p xs
  any-sort [] = refl
  any-sort (x ∷ xs) = any-insert x (sort before xs) ∙ ap (λ b. p x || b) (any-sort xs)

  all-insert : (x : A) (xs : List A) → all p (insert before x xs) ≡ (p x && all p xs)
  all-insert x [] = refl
  all-insert x (y ∷ ys) = ground (arith, all-insert x ys)

  all-sort : (xs : List A) → all p (sort before xs) ≡ all p xs
  all-sort [] = refl
  all-sort (x ∷ xs) = all-insert x (sort before xs) ∙ ap (λ b. p x && b) (all-sort xs)

module _ {A : Type 0} (q p : A → Bool) where
  any-filter : (xs : List A) → any p (filter q xs) ≡ any (λ x. q x && p x) xs
  any-filter [] = refl
  any-filter (x ∷ xs) = ground (arith, any-filter xs)

  all-filter : (xs : List A) → all p (filter q xs) ≡ all (λ x. not (q x) || p x) xs
  all-filter [] = refl
  all-filter (x ∷ xs) = ground (arith, all-filter xs)

-- A test of the value of a call that returned.
abbrev pub on_ok : {A : Type 0} → (A → Bool) → Result A → Bool
on_ok p (ok a) = p a
on_ok p (err e) = false

abbrev pub is_ok : {A : Type 0} → Result A → Bool
is_ok (ok a) = true
is_ok (err e) = false

module _ {A B : Type 0} (f : A → Result B) where
  map_results-is_ok : (xs : List A) → is_ok (map_results f xs) ≡ all (λ x. is_ok (f x)) xs
  map_results-is_ok [] = refl
  map_results-is_ok (x ∷ xs) = ground (arith, map_results-is_ok xs)

  on_ok-map_results :
      (p : B → Bool) (xs : List A)
      → on_ok (any p) (map_results f xs) ≡ (is_ok (map_results f xs) && any (λ x. on_ok p (f x)) xs)
  on_ok-map_results p [] = refl
  on_ok-map_results p (x ∷ xs) = ground (arith, on_ok-map_results p xs)

  map_results-any :
      (p : B → Bool) (xs : List A) (ys : List B)
      → map_results f xs ≡ ok ys
      → any p ys ≡ any (λ x. on_ok p (f x)) xs
  map_results-any p xs ys h =
      sym (ap (on_ok (any p)) h)
      ∙ (on_ok-map_results p xs ∙ ap (λ r. is_ok r && any (λ x. on_ok p (f x)) xs) h)

has_any-filter :
    {A B : Type 0} (g : A → B) (p : A → Bool) (xs : List A)
    → has_any (map g (filter p xs)) ≡ any p xs
has_any-filter g p [] = refl
has_any-filter g p (x ∷ xs) = ground (arith, has_any-filter g p xs)

-- The call that comes before `summarize` returned, with the outcomes.
summarized :
    (context : EvaluationContext) (r : Result (List RuleOutcome)) (e : PolicyEvaluation)
    → (r >>= λ outcomes. ok (summarize context outcomes)) ≡ ok e
    → (ys : List RuleOutcome) × ((r ≡ ok ys) × (summarize context ys ≡ e))
summarized context (ok ys) e h = (ys, (refl, ok_value h))
  where
    ok_value : {x y : PolicyEvaluation} → ok x ≡ ok y → x ≡ y
    ok_value q = cc
summarized context (err f) e h = cc

summarize-is_ok :
    (context : EvaluationContext) (r : Result (List RuleOutcome))
    → is_ok (r >>= λ outcomes. ok (summarize context outcomes)) ≡ is_ok r
summarize-is_ok context (ok ys) = refl
summarize-is_ok context (err f) = refl

-- The status by what the outcomes contain.
abbrev pub status_of : Bool → Bool → PolicyStatus
status_of violated required =
    if violated
    then PolicyStatus.fail
    else if required
    then PolicyStatus.review
    else PolicyStatus.pass

summarize-status :
    (context : EvaluationContext) (ys : List RuleOutcome)
    → (summarize context ys).status
      ≡ status_of (any (λ o. is_violation o.result) ys) (any (λ o. is_requirement o.result) ys)
unfolding summarize
summarize-status context ys =
    rw
      (
        has_any-filter to_violation (λ o. is_violation o.result) ys,
        has_any-filter to_requirement (λ o. is_requirement o.result) ys,
      )
      refl

denied_on_fail :
    (i : DecisionInput)
    → (decide (record i { policy_status = PolicyStatus.fail })).result ≡ DecisionResult.deny
unfolding decide
denied_on_fail i = ground arith

module _ (api : Decimals) (host : Host) (rules : List CompiledRule)
    (context : EvaluationContext) where
  -- Some enabled rule has an outcome of this kind.
  abbrev pub some_rule : (RuleResult → Bool) → Bool
  some_rule p =
      any (λ rule. is_enabled rule && on_ok (λ o. p o.result) (evaluate_rule api host rule context))
        rules

  some_rule-sorted :
      (p : RuleResult → Bool) (ys : List RuleOutcome)
      → map_results (λ rule. evaluate_rule api host rule context) (enabled_rules api host rules)
        ≡ ok ys
      → any (λ o. p o.result) ys ≡ some_rule p
  some_rule-sorted p ys h =
      map_results-any (λ rule. evaluate_rule api host rule context) (λ o. p o.result)
        (enabled_rules api host rules) ys h
      ∙ (any-sort (before_rule api host) _ (filter is_enabled rules)
          ∙ any-filter is_enabled _ rules)

  -- An evaluation that returns has the status FAIL if some enabled rule is violated, else REVIEW if
  -- some enabled rule requires an approval or a review, else PASS. The order and the priorities of
  -- the rules play no part in it.
  pub evaluate-status :
      (e : PolicyEvaluation)
      → evaluate api host rules context ≡ ok e
      → e.status ≡ status_of (some_rule is_violation) (some_rule is_requirement)
  unfolding evaluate
  evaluate-status e h =
      let (ys, (r, s)) = summarized context _ e h in
      ap PolicyEvaluation.status (sym s)
      ∙ (summarize-status context ys
          ∙ rw (some_rule-sorted is_violation ys r, some_rule-sorted is_requirement ys r) refl)

  -- An evaluation returns exactly when the evaluator of every enabled rule does.
  pub evaluate-returns :
      is_ok (evaluate api host rules context)
      ≡ all (λ rule. not (is_enabled rule) || is_ok (evaluate_rule api host rule context)) rules
  unfolding evaluate
  evaluate-returns =
      summarize-is_ok context _
      ∙ (map_results-is_ok (λ rule. evaluate_rule api host rule context)
            (enabled_rules api host rules)
          ∙ (all-sort (before_rule api host) _ (filter is_enabled rules)
              ∙ all-filter is_enabled _ rules))

  -- If some enabled rule is violated, then whatever else holds, and whatever an approver or an
  -- advisory signal says, the decision on this evaluation is DENY.
  pub violation_denies :
      (e : PolicyEvaluation) (i : DecisionInput)
      → evaluate api host rules context ≡ ok e
      → some_rule is_violation ≡ true
      → (decide (record i { policy_status = e.status })).result ≡ DecisionResult.deny
  violation_denies e i h v =
      let failed : e.status ≡ PolicyStatus.fail = evaluate-status e h ∙ rw v refl in
      rw failed (denied_on_fail i)

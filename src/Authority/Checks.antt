-- ===== src/Authority/Checks.antt =====
-- The checks of `createCapability`: `assertWithinConstitution` and `assertWithinParent`.
use orvex.Prelude.{
  ℕ, String, Bool, true, false, not, ◌&&◌, Option, none, some, List, [], ◌∷◌, leb, coalesce, all,
  includes, text_eq, same_text?, if◌then◌else◌,
}
use orvex.Errors.{authorization_error}
use orvex.Runtime.{Decimals}
use orvex.Outcome.{Failure, core, decimal_error, Result, ok}
use orvex.Outcome.Results.{some_or, refuse_if, ◌>>=◌, ◌>>◌}
use orvex.Policy.Evaluators.{nonempty}
use orvex.Authority.Store.{ConstitutionConfig, Capability, CapabilityStatus, active}
use orvex.Authority.Limits.{Limits, parse_limits, limit_within_parent}

pub record CreateInput : Type 0 where
  pub company_id : ℕ
  pub agent_id : ℕ
  pub action : String
  pub asset : Option String
  pub network : Option String
  pub category_scope : Option (List String)
  pub recipient_scope : Option (List String)
  pub single_transaction_limit : Option String
  pub daily_limit : Option String
  pub weekly_limit : Option String
  pub monthly_limit : Option String
  pub valid_from : Option ℕ
  pub expires_at : Option ℕ
  pub parent_capability_id : Option ℕ

-- The list of a scope, if there is one and it is not empty.
abbrev pub restricting : Option (List String) → Option (List String)
restricting none = none
restricting (some []) = none
restricting (some (x ∷ xs)) = some (x ∷ xs)

-- `scopeWithinParent`
abbrev pub scope_within_parent : Option (List String) → Option (List String) → Bool
scope_within_parent child parent = elim (restricting parent) [
  | none ↦ true
  | some names ↦ elim (restricting child) [ none ↦ false | some own ↦ all (includes names) own ]
]

-- A value that is given lies in a list that is given and not empty.
abbrev pub is_listed : Option String → Option (List String) → Bool
is_listed value allowed = elim (nonempty value) [
  | none ↦ true
  | some v ↦ elim (restricting allowed) [ none ↦ true | some names ↦ includes names v ]
]

-- The categories that are given all lie in the list.
abbrev pub are_listed : Option (List String) → Option (List String) → Bool
are_listed none allowed = true
are_listed (some own) allowed = elim (restricting allowed) [
  | none ↦ true
  | some names ↦ all (includes names) own
]

abbrev pub get_limit : String → List (String × String) → Option String
get_limit name [] = none
get_limit name ((k, v) ∷ entries) = if text_eq k name then some v else get_limit name entries

-- `parent.asset && input.asset !== parent.asset`, the other way round.
abbrev pub matches_parent : Option String → Option String → Bool
matches_parent child parent = elim (nonempty parent) [
  | none ↦ true
  | some p ↦ same_text? child (some p)
]

-- The child's expiry is not later than the parent's, where the parent has one.
abbrev pub expires_within : Option ℕ → Option ℕ → Bool
expires_within child none = true
expires_within none (some p) = false
expires_within (some c) (some p) = leb c p

abbrev pub is_active : CapabilityStatus → Bool
is_active active = true
is_active _ = false

module _ (api : Decimals) where
  open api use {Decimal, parse, greater_than}

  -- The check of the single-transaction limit, where both limits are given and not empty.
  abbrev pub assert_under_cap : Option String → Option String → Result (Unit {0})
  assert_under_cap cap limit = elim (nonempty cap) [
    | none ↦ ok tt
    | some c ↦ elim (nonempty limit) [
      | none ↦ ok tt
      | some l ↦ do
        own ← some_or decimal_error (parse l)
        most ← some_or decimal_error (parse c)
        refuse_if (greater_than own most) (core authorization_error)
    ]
  ]

  unfoldable pub assert_within_constitution : CreateInput → ConstitutionConfig → Result (Unit {0})
  assert_within_constitution input constitution = do
    refuse_if (not (includes constitution.allowed_actions input.action)) (core authorization_error)
    refuse_if (includes (coalesce constitution.blocked_actions []) input.action)
        (core authorization_error)
    refuse_if (not (is_listed input.asset constitution.allowed_assets)) (core authorization_error)
    refuse_if (not (is_listed input.network constitution.allowed_networks))
        (core authorization_error)
    refuse_if (not (are_listed input.category_scope constitution.allowed_categories))
        (core authorization_error)
    assert_under_cap (get_limit "single_transaction" (coalesce constitution.spending_limits []))
        input.single_transaction_limit

  abbrev pub read_limits : Failure → CreateInput → Result (Limits api)
  read_limits e input =
      parse_limits api e input.single_transaction_limit input.daily_limit input.weekly_limit
        input.monthly_limit

  abbrev pub limits_within : Limits api → Capability Decimal → Bool
  limits_within (single, (daily, (weekly, monthly))) parent =
      limit_within_parent api single parent.single_transaction_limit
      && (limit_within_parent api daily parent.daily_limit
          && (limit_within_parent api weekly parent.weekly_limit
              && limit_within_parent api monthly parent.monthly_limit))

  unfoldable pub assert_within_parent : CreateInput → Capability Decimal → Result (Unit {0})
  unfolding parse_limits
  assert_within_parent input parent = do
    refuse_if (not (is_active parent.status)) (core authorization_error)
    refuse_if (not (text_eq parent.action input.action)) (core authorization_error)
    refuse_if (not (matches_parent input.asset parent.asset)) (core authorization_error)
    refuse_if (not (matches_parent input.network parent.network)) (core authorization_error)
    refuse_if (not (scope_within_parent input.category_scope parent.category_scope))
        (core authorization_error)
    refuse_if (not (scope_within_parent input.recipient_scope parent.recipient_scope))
        (core authorization_error)
    limits ← read_limits decimal_error input
    refuse_if (not (limits_within limits parent)) (core authorization_error)
    refuse_if (not (expires_within input.expires_at parent.expires_at)) (core authorization_error)

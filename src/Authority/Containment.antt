-- ===== src/Authority/Containment.antt =====
-- What a capability permits, and that a delegated capability covers no more than its parent.
use mathlib.Core.Path.{subst}
use orvex.Prelude.{
  ℕ, String, Bool, true, not, ◌&&◌, Option, none, some, List, [], ◌∷◌, ◌≡◌, refl, sym, ◌∙◌, all,
  includes, text_eq, text_eq_iff, same_text?-eq, arith, inl, inr, Bool-cases, leb,
}
use orvex.Prelude.Int.{◌≤ℤ◌, leb_ℤ, leb_ℤ_iff}
use orvex.Runtime.{Decimals}
use orvex.Policy.Evaluators.{nonempty}
use orvex.Authority.Store.{Capability}
use orvex.Authority.Limits.{limit_within_parent}
use orvex.Authority.Checks.{restricting, scope_within_parent, matches_parent, expires_within}
use orvex.Authority.Capabilities.{is_unexpired}

-- A name lies in a scope that may be open.
abbrev pub in_scope : Option (List String) → String → Bool
in_scope scope name = elim (restricting scope) [ none ↦ true | some names ↦ includes names name ]

-- A value is the required one, if one is required.
abbrev pub is_required_one : Option String → String → Bool
is_required_one required value = elim (nonempty required) [ none ↦ true | some r ↦ text_eq r value ]

module _ (api : Decimals) where
  open api use {Decimal, greater_than, units, gt_iff}

  -- A payment: what it is, and what is spent by it and in the day, the week and the month.
  pub record Payment : Type 0 where
    pub action : String
    pub asset : String
    pub network : String
    pub category : String
    pub recipient : String
    pub amount : Decimal
    pub in_day : Decimal
    pub in_week : Decimal
    pub in_month : Decimal
    pub time : ℕ

  abbrev pub under_limit : Option Decimal → Decimal → Bool
  under_limit none amount = true
  under_limit (some limit) amount = not (greater_than amount limit)

  -- The payments that lie within the terms of a capability, but for the time that it begins at.
  abbrev pub covers : Capability Decimal → Payment → Bool
  covers c p =
      text_eq c.action p.action
      && (is_required_one c.asset p.asset
          && (is_required_one c.network p.network
              && (in_scope c.category_scope p.category
                  && (in_scope c.recipient_scope p.recipient
                      && (under_limit c.single_transaction_limit p.amount
                          && (under_limit c.daily_limit p.in_day
                              && (under_limit c.weekly_limit p.in_week
                                  && (under_limit c.monthly_limit p.in_month
                                      && is_unexpired api c.expires_at p.time))))))))

  -- The capability has begun at the time of the payment, and the payment lies within its terms.
  abbrev pub permits : Capability Decimal → Payment → Bool
  permits c p = leb c.valid_from p.time && covers c p

  not_above : (a b : Decimal) → not (greater_than a b) ≡ true → units a ≤ℤ units b
  not_above a b h = elim (Bool-cases (leb_ℤ (units a) (units b))) [
    | inl e ↦ (leb_ℤ_iff (units a) (units b)).0 e
    | inr n ↦
        let above =
          (gt_iff a b).1 λ le. absurd (ground (arith, n, (leb_ℤ_iff (units a) (units b)).1 le)) in
        absurd (ground (arith, h, above))
  ]

  above_not : (a b : Decimal) → units a ≤ℤ units b → not (greater_than a b) ≡ true
  above_not a b le = elim (Bool-cases (greater_than a b)) [
    | inl e ↦ absurd ((gt_iff a b).0 e le)
    | inr n ↦ rw n refl
  ]

  limit_contained :
      (child parent : Option Decimal) (amount : Decimal)
      → limit_within_parent api child parent ≡ true
      → under_limit child amount ≡ true
      → under_limit parent amount ≡ true
  limit_contained child none amount w u = refl
  limit_contained none (some p) amount w u = absurd (ground arith)
  limit_contained (some c) (some p) amount w u =
      above_not amount p
        (let first = not_above amount c u in let second = not_above c p w in omega arith)

  expiry_contained :
      (child parent : Option ℕ) (time : ℕ)
      → expires_within child parent ≡ true
      → is_unexpired api child time ≡ true
      → is_unexpired api parent time ≡ true
  expiry_contained child none time w u = refl
  expiry_contained none (some p) time w u = absurd (ground arith)
  expiry_contained (some c) (some p) time w u = ground arith

pub both : (a b : Bool) → (a && b) ≡ true → (a ≡ true) × (b ≡ true)
both a b h = ground arith

all-includes :
    (names own : List String) (name : String)
    → all (includes names) own ≡ true
    → includes own name ≡ true
    → includes names name ≡ true
all-includes names [] name a m = absurd (ground arith)
all-includes names (x ∷ own) name a m = elim (Bool-cases (text_eq name x)) [
  | inl e ↦
      let same : name ≡ x = (text_eq_iff name x).0 e in
      subst (λ y. includes names y ≡ true) (sym same) (ground (arith, a))
  | inr n ↦ all-includes names own name (ground (arith, a)) (ground (arith, m, n))
]

scope_contained :
    (child parent : Option (List String)) (name : String)
    → scope_within_parent child parent ≡ true
    → in_scope child name ≡ true
    → in_scope parent name ≡ true
scope_contained child none name w i = refl
scope_contained child (some []) name w i = refl
scope_contained none (some (x ∷ xs)) name w i = absurd (ground (arith, w))
scope_contained (some []) (some (x ∷ xs)) name w i = absurd (ground (arith, w))
scope_contained (some (y ∷ ys)) (some (x ∷ xs)) name w i = all-includes (x ∷ xs) (y ∷ ys) name w i

required_contained :
    (child parent : Option String) (value : String)
    → matches_parent child parent ≡ true
    → is_required_one child value ≡ true
    → is_required_one parent value ≡ true
required_contained child none value w i = refl
required_contained child (some p) value w i = elim (Bool-cases (text_eq p "")) [
  | inl e ↦ ground (arith, e)
  | inr n ↦
      let same : child ≡ some p = same_text?-eq child p (ground (arith, w, n)) in
      subst (λ c. is_required_one c value ≡ true) same i
]

module _ (api : Decimals) where
  open api use {Decimal}

  -- The terms that `assertWithinParent` compares.
  pub record IsWithin (child parent : Capability Decimal) : Type 0 where
    pub same_action : text_eq parent.action child.action ≡ true
    pub asset_within : matches_parent child.asset parent.asset ≡ true
    pub network_within : matches_parent child.network parent.network ≡ true
    pub categories_within : scope_within_parent child.category_scope parent.category_scope ≡ true
    pub recipients_within : scope_within_parent child.recipient_scope parent.recipient_scope ≡ true
    pub single_within :
        limit_within_parent api child.single_transaction_limit parent.single_transaction_limit
        ≡ true
    pub daily_within : limit_within_parent api child.daily_limit parent.daily_limit ≡ true
    pub weekly_within : limit_within_parent api child.weekly_limit parent.weekly_limit ≡ true
    pub monthly_within : limit_within_parent api child.monthly_limit parent.monthly_limit ≡ true
    pub expiry_within : expires_within child.expires_at parent.expires_at ≡ true

  -- What the child covers, the parent covers.
  pub Within-covers :
      (child parent : Capability Decimal) (p : Payment api)
      → IsWithin child parent
      → covers api child p ≡ true
      → covers api parent p ≡ true
  Within-covers child parent p w h =
      let (a, h₁) = both _ _ h in
      let (b, h₂) = both _ _ h₁ in
      let (c, h₃) = both _ _ h₂ in
      let (d, h₄) = both _ _ h₃ in
      let (e, h₅) = both _ _ h₄ in
      let (f, h₆) = both _ _ h₅ in
      let (g, h₇) = both _ _ h₆ in
      let (i, h₈) = both _ _ h₇ in
      let (j, k) = both _ _ h₈ in
      let action : parent.action ≡ p.action =
        (text_eq_iff parent.action child.action).0 w.same_action
        ∙ (text_eq_iff child.action p.action).0 a in
      rw
        (
          (text_eq_iff parent.action p.action).1 action,
          required_contained child.asset parent.asset p.asset w.asset_within b,
          required_contained child.network parent.network p.network w.network_within c,
          scope_contained child.category_scope parent.category_scope p.category w.categories_within
              d,
          scope_contained child.recipient_scope parent.recipient_scope p.recipient
              w.recipients_within e,
          limit_contained api child.single_transaction_limit parent.single_transaction_limit
              p.amount w.single_within f,
          limit_contained api child.daily_limit parent.daily_limit p.in_day w.daily_within g,
          limit_contained api child.weekly_limit parent.weekly_limit p.in_week w.weekly_within i,
          limit_contained api child.monthly_limit parent.monthly_limit p.in_month w.monthly_within
              j,
          expiry_contained api child.expires_at parent.expires_at p.time w.expiry_within k,
        )
        refl

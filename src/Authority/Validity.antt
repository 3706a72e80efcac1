-- ===== src/Authority/Validity.antt =====
-- When a capability is valid, and what a revocation does to the table.
use orvex.Prelude.{
  ℕ, Bool, true, ◌&&◌, ◌||◌, none, some, List, [], ◌∷◌, ◌==◌, map, ◌≡◌, refl, sym, ◌∙◌, ap, ◌↔◌,
  leb, arith, if◌then◌else◌, Option-cases, Bool-cases, inl, inr,
}
use mathlib.Core.Path.{subst}
use orvex.Errors.{capability_invalid}
use orvex.Runtime.{Decimals}
use orvex.Outcome.{ok, err, core}
use orvex.Table.{find_first-holds, update_first, update_all}
use orvex.Table.Keys.{with_key, Distinct, Distinct-update_all, update_first-map}
use orvex.Authority.Store.{Capability}
use orvex.Authority.Checks.{is_active}
use orvex.Authority.Capabilities.{
  Rows, get_capability, is_unexpired, validate_capability, is_active_child, revoke,
  revoke_capability,
}
use orvex.Authority.Delegation.{revoke_found}

module _ (api : Decimals) (company i now : ℕ) (s : Rows api) where
  open api use {Decimal}

  validate_missing :
      get_capability api company i s ≡ none
      → (validate_capability api company i now s).0 ≡ err (core capability_invalid)
  unfolding validate_capability
  validate_missing e = ground (arith, e)

  -- ACTIVE, and at this time begun and not expired.
  abbrev pub is_valid : Capability Decimal → Bool
  is_valid c = is_active c.status && (leb c.valid_from now && is_unexpired api c.expires_at now)

  module _ (c : Capability Decimal) (e : get_capability api company i s ≡ some c) where
    validate_found : is_valid c ≡ true → (validate_capability api company i now s).0 ≡ ok c
    unfolding validate_capability
    validate_found h = ground (arith, e, h)

    found_valid :
        (d : Capability Decimal)
        → (validate_capability api company i now s).0 ≡ ok d
        → (d ≡ c) × (is_valid c ≡ true)
    unfolding validate_capability
    found_valid d h = ground (arith, e, h)

  -- `validateCapability` returns exactly the company's capability of the id, if it is ACTIVE, has
  -- begun and has not expired; in all other cases it throws.
  pub validate_iff :
      (c : Capability Decimal)
      → ((validate_capability api company i now s).0 ≡ ok c)
        ↔ ((get_capability api company i s ≡ some c) × (is_valid c ≡ true))
  validate_iff c = (
    λ h. elim (Option-cases (get_capability api company i s)) [
      | inl gone ↦ absurd (ground (arith, h, validate_missing gone))
      | inr (r, there) ↦
          let (same, valid) = found_valid r there c h in
          subst (λ x. (get_capability api company i s ≡ some x) × (is_valid x ≡ true)) (sym same)
            (there, valid)
    ],
    λ h. validate_found c h.0 h.1,
  )

  -- What a revocation makes of a row: the capability and its ACTIVE children are REVOKED.
  abbrev pub revoked_row : Capability Decimal → Capability Decimal
  revoked_row x = if x.id == i || is_active_child api company i x then revoke api now x else x

  revoke-map :
      (xs : List (Capability Decimal))
      → map
          (λ x. if with_key (λ (y : Capability Decimal). y.id) i x then revoke api now x else x)
          (update_all (is_active_child api company i) (revoke api now) xs)
        ≡ map revoked_row xs
  revoke-map [] = refl
  revoke-map (x ∷ xs) = elim (Bool-cases (is_active_child api company i x)) [
    | inl e ↦ elim (Bool-cases (x.id == i)) [
      | inl a ↦ rw (e, a) (ap (λ ys. revoke api now x ∷ ys) (revoke-map xs))
      | inr b ↦ rw (e, b) (ap (λ ys. revoke api now x ∷ ys) (revoke-map xs))
    ]
    | inr n ↦ elim (Bool-cases (x.id == i)) [
      | inl a ↦ rw (n, a) (ap (λ ys. revoke api now x ∷ ys) (revoke-map xs))
      | inr b ↦ rw (n, b) (ap (λ ys. x ∷ ys) (revoke-map xs))
    ]
  ]

  -- Where ids are keys and the company has the capability: `revokeCapability` returns it REVOKED,
  -- and in the table the capability and its ACTIVE direct children become REVOKED, and every other
  -- row, a child of a child among them, stays as it is.
  pub revoke_exactly :
      (c : Capability Decimal)
      → Distinct (λ (y : Capability Decimal). y.id) s.capabilities
      → get_capability api company i s ≡ some c
      → revoke_capability api company i now s
        ≡ (ok (revoke api now c), record s { capabilities = map revoked_row s.capabilities })
  revoke_exactly c d e =
      let same : c.id ≡ i = ground (
        arith,
        find_first-holds (λ y. y.id == i && y.company_id == company) s.capabilities {r = c} e,
      ) in
      revoke_found api company i now s c e
      ∙ ap
          (λ (ys : List (Capability Decimal)).
            (ok (revoke api now c), record s { capabilities = ys }))
          (subst
            (λ j.
              update_first (with_key (λ (y : Capability Decimal). y.id) j) (revoke api now)
                (update_all (is_active_child api company j) (revoke api now) s.capabilities)
              ≡ map revoked_row s.capabilities)
            (sym same)
            (update_first-map (λ (y : Capability Decimal). y.id) i (revoke api now) _
                (Distinct-update_all (λ (y : Capability Decimal). y.id) (revoke api now) (λ x. refl)
                  (is_active_child api company i) s.capabilities d)
              ∙ revoke-map s.capabilities))

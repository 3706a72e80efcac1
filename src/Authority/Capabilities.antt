-- ===== src/Authority/Capabilities.antt =====
-- The methods of `CapabilityService`.
use orvex.Prelude.{
  ℕ, suc, Bool, true, false, not, ◌&&◌, Option, none, some, List, [], ◌∷◌, ◌++◌, ◌==◌, ltb, leb,
  coalesce, filter, is_some,
}
use orvex.Errors.{tenant_error, capability_invalid, capability_expired}
use orvex.Runtime.{Decimals}
use orvex.Outcome.{
  core, database_error, Action, Result, ok, err, pure, gets, check, lift, or_throw, throw_if,
  modify, transaction, ◌>>=◌, ◌>>◌,
}
use orvex.Table.{find_first, update_first, update_all}
use orvex.Authority.Store.{Capability, active, expired, revoked, Store, get_agent}
use orvex.Authority.Limits.{Limits}
use orvex.Authority.Checks.{
  CreateInput, is_active, assert_within_constitution, assert_within_parent, read_limits,
}
use orvex.Authority.Constitutions.{get_active_constitution}

module _ (api : Decimals) where
  open api use {Decimal}

  abbrev pub Rows : Type 0
  Rows = Store Decimal

  abbrev pub is_owned : ℕ → ℕ → ℕ → Capability Decimal → Bool
  is_owned company agent i c = c.id == i && (c.company_id == company && c.agent_id == agent)

  abbrev pub has_id : ℕ → Capability Decimal → Bool
  has_id i c = c.id == i

  abbrev pub new_capability : CreateInput → Limits api → ℕ → ℕ → Capability Decimal
  new_capability input (single, (daily, (weekly, monthly))) now id = record {
    id = id;
    company_id = input.company_id;
    agent_id = input.agent_id;
    parent_capability_id = input.parent_capability_id;
    action = input.action;
    asset = input.asset;
    network = input.network;
    category_scope = input.category_scope;
    recipient_scope = input.recipient_scope;
    single_transaction_limit = single;
    daily_limit = daily;
    weekly_limit = weekly;
    monthly_limit = monthly;
    valid_from = coalesce input.valid_from now;
    expires_at = input.expires_at;
    status = active;
    revoked_at = none;
  }

  abbrev pub add_capability : Capability Decimal → Rows → Rows
  add_capability c s = record s { capabilities = s.capabilities ++ c ∷ []; next_id = suc s.next_id }

  unfoldable pub check_constitution : CreateInput → Rows → Result (Unit {0})
  unfolding assert_within_constitution
  check_constitution input s = elim (get_active_constitution input.company_id input.agent_id s) [
    | none ↦ ok tt
    | some c ↦ assert_within_constitution api input c.configuration
  ]

  unfoldable pub check_parent : CreateInput → Rows → Result (Unit {0})
  unfolding assert_within_parent
  check_parent input s = elim input.parent_capability_id [
    | none ↦ ok tt
    | some i ↦ elim (find_first (is_owned input.company_id input.agent_id i) s.capabilities) [
      | none ↦ err (core tenant_error)
      | some parent ↦ assert_within_parent api input parent
    ]
  ]

  -- A limit that is no decimal is refused by the column.
  unfoldable pub create_capability : CreateInput → ℕ → Action Rows (Capability Decimal)
  unfolding check_constitution check_parent
  create_capability input now = do
    found ← gets (get_agent input.company_id input.agent_id)
    throw_if (not (is_some found)) (core tenant_error)
    check (check_constitution input)
    check (check_parent input)
    limits ← lift (read_limits api database_error input)
    row ← gets (λ s. new_capability input limits now s.next_id)
    modify (add_capability row)
    pure row

  abbrev pub is_of : ℕ → ℕ → Capability Decimal → Bool
  is_of company i c = c.id == i && c.company_id == company

  abbrev pub get_capability : ℕ → ℕ → Rows → Option (Capability Decimal)
  get_capability company i s = find_first (is_of company i) s.capabilities

  -- `expiresAt` is null or later than `now`.
  abbrev pub is_unexpired : Option ℕ → ℕ → Bool
  is_unexpired none now = true
  is_unexpired (some e) now = ltb now e

  abbrev pub is_usable : ℕ → ℕ → ℕ → Capability Decimal → Bool
  is_usable company agent now c =
      (c.company_id == company && c.agent_id == agent)
      && (is_active c.status && (leb c.valid_from now && is_unexpired c.expires_at now))

  abbrev pub get_active_capabilities : ℕ → ℕ → ℕ → Rows → List (Capability Decimal)
  get_active_capabilities company agent now s = filter (is_usable company agent now) s.capabilities

  abbrev pub check_expiry : ℕ → Capability Decimal → Action Rows (Capability Decimal)
  check_expiry now cap = do
    throw_if (not (is_unexpired cap.expires_at now)) (core capability_expired)
    throw_if (ltb now cap.valid_from) (core capability_invalid)
    pure cap

  unfoldable pub validate_capability : ℕ → ℕ → ℕ → Action Rows (Capability Decimal)
  validate_capability company i now = do
    found ← gets (get_capability company i)
    cap ← or_throw (core capability_invalid) found
    elim cap.status [
      | revoked ↦ λ s. (err (core capability_invalid), s)
      | expired ↦ λ s. (err (core capability_expired), s)
      | active ↦ check_expiry now cap
    ]

  abbrev pub is_active_child : ℕ → ℕ → Capability Decimal → Bool
  is_active_child company i c =
      c.company_id == company && (is_child c.parent_capability_id && is_active c.status)
    where
      is_child : Option ℕ → Bool
      is_child none = false
      is_child (some p) = p == i

  abbrev pub revoke : ℕ → Capability Decimal → Capability Decimal
  revoke now c = record c { status = revoked; revoked_at = some now }

  unfoldable pub revoke_capability : ℕ → ℕ → ℕ → Action Rows (Capability Decimal)
  revoke_capability company i now = transaction (do
    found ← gets (get_capability company i)
    cap ← or_throw (core capability_invalid) found
    modify (λ s. record s {
      capabilities = update_all (is_active_child company cap.id) (revoke now) s.capabilities;
    })
    modify
        (λ s. record s { capabilities = update_first (has_id cap.id) (revoke now) s.capabilities })
    pure (revoke now cap))

  abbrev pub is_overdue : ℕ → ℕ → Capability Decimal → Bool
  is_overdue company now c =
      c.company_id == company && (is_active c.status && not (is_unexpired c.expires_at now))

  abbrev pub expire : Capability Decimal → Capability Decimal
  expire c = record c { status = expired }

  unfoldable pub expire_capabilities : ℕ → ℕ → Rows → Rows
  expire_capabilities company now s = record s {
    capabilities = update_all (is_overdue company now) expire s.capabilities;
  }

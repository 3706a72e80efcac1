-- ===== src/Authority/Tests.antt =====
-- A capability of 100 a payment, delegated with 40 a payment, and the revocation of the first.
use orvex.Prelude.{
  ℕ, String, true, Option, none, some, List, [], ◌∷◌, ◌≡◌, refl, ◌↔◌, map, arith, text_eq, filter,
}
use orvex.Prelude.Int.{ℤ, pos}
use orvex.Runtime.Whole.{whole}
use orvex.Outcome.{ok}
use orvex.Table.{find_first}
use orvex.Table.Keys.{with_key}
use orvex.Authority.Store.{
  CompanyStatus, AgentStatus, ExecutionMode, Capability, CapabilityStatus, ConstitutionStatus,
  Constitution, Store,
}
use orvex.Authority.Limits.{parse_limits}
use orvex.Authority.Checks.{CreateInput, assert_within_constitution, assert_within_parent}
use orvex.Authority.Capabilities.{
  check_constitution, check_parent, create_capability, validate_capability, revoke_capability,
  revoke, get_capability,
}
use orvex.Authority.Containment.{Payment, permits}
use orvex.Authority.Delegation.{
  Call, create_call, perform, perform_all, IsDelegated, perform_all-IsDelegated,
}
use orvex.Authority.Ancestry.{self, over, delegation_shrinks}
use orvex.Authority.Marks.{key}
use orvex.Authority.Validity.{is_valid, validate_iff, revoked_row, revoke_exactly}
use orvex.Authority.Constitutions.{is_active_of, activate_constitution}
use orvex.Authority.Activation.{activated_row, activate_exactly}

abbrev first_version : Constitution
first_version = record {
  id = 5;
  company_id = 1;
  agent_id = 2;
  version = 1;
  status = ConstitutionStatus.active;
  configuration = record {
    allowed_actions = "PAY" ∷ [];
    blocked_actions = none;
    allowed_assets = none;
    allowed_networks = none;
    allowed_categories = none;
    spending_limits = some (("single_transaction", "500") ∷ []);
  };
  activated_at = some 1;
  deactivated_at = none;
}

abbrev second_version : Constitution
second_version = record first_version {
  id = 6;
  version = 2;
  status = ConstitutionStatus.draft;
  activated_at = none;
}

abbrev start : Store ℤ
start = record {
  companies = record { id = 1; name = "acme"; status = CompanyStatus.active } ∷ [];
  agents =
      record {
        id = 2;
        company_id = 1;
        name = "buyer";
        status = AgentStatus.active;
        execution_mode = ExecutionMode.testnet;
        active_constitution_id = some 5;
        active_policy_id = none;
      }
      ∷ [];
  constitutions = first_version ∷ second_version ∷ [];
  capabilities = [];
  next_id = 10;
}

start-IsDelegated : IsDelegated whole start
start-IsDelegated = record { below = tt; distinct = tt; contained = tt }

abbrev input : String → Option ℕ → CreateInput
input limit parent = record {
  company_id = 1;
  agent_id = 2;
  action = "PAY";
  asset = some "USDC";
  network = some "base";
  category_scope = none;
  recipient_scope = some ("shop" ∷ []);
  single_transaction_limit = some limit;
  daily_limit = none;
  weekly_limit = none;
  monthly_limit = none;
  valid_from = none;
  expires_at = some 90;
  parent_capability_id = parent;
}

abbrev calls : List Call
calls =
    create_call (input "100" none) 3
    ∷ create_call (input "40" (some 10)) 4
    ∷ create_call (input "90" (some 11)) 5
    ∷ []

abbrev capability : ℕ → Option ℕ → ℕ → ℕ → Capability ℤ
capability i parent limit from = record {
  id = i;
  company_id = 1;
  agent_id = 2;
  parent_capability_id = parent;
  action = "PAY";
  asset = some "USDC";
  network = some "base";
  category_scope = none;
  recipient_scope = some ("shop" ∷ []);
  single_transaction_limit = some (pos limit);
  daily_limit = none;
  weekly_limit = none;
  monthly_limit = none;
  valid_from = from;
  expires_at = some 90;
  status = CapabilityStatus.active;
  revoked_at = none;
}

abbrev parent : Capability ℤ
parent = capability 10 none 100 3

abbrev child : Capability ℤ
child = capability 11 (some 10) 40 4

-- The third call is refused, since it asks for more than its parent has.
rows : (perform_all whole calls start).capabilities ≡ parent ∷ child ∷ []
unfolding perform_all perform create_capability check_constitution check_parent
    assert_within_constitution assert_within_parent parse_limits text_eq
rows = refl

perform_all-IsDelegated_example : IsDelegated whole (perform_all whole calls start)
perform_all-IsDelegated_example = perform_all-IsDelegated whole calls start start-IsDelegated

abbrev payment : Payment whole
payment = record {
  action = "PAY";
  asset = "USDC";
  network = "base";
  category = "food";
  recipient = "shop";
  amount = pos 40;
  in_day = pos 40;
  in_week = pos 40;
  in_month = pos 40;
  time = 80;
}

found_child :
    find_first (with_key (key whole) 11) (perform_all whole calls start).capabilities ≡ some child
found_child = rw rows refl

found_parent :
    find_first (with_key (key whole) 10) (perform_all whole calls start).capabilities ≡ some parent
found_parent = rw rows refl

child-permits : permits whole child payment ≡ true
unfolding text_eq
child-permits = refl

delegation_shrinks_example : permits whole parent payment ≡ true
delegation_shrinks_example =
    delegation_shrinks whole calls start child parent 11 payment start-IsDelegated found_child
      (over child parent parent 10 refl found_parent (self parent)) (omega arith) child-permits

abbrev three : Store ℤ
three = record start { capabilities = parent ∷ child ∷ capability 12 (some 11) 30 5 ∷ [] }

validate_iff_example :
    ((validate_capability whole 1 11 20 three).0 ≡ ok child)
    ↔ ((get_capability whole 1 11 three ≡ some child) × (is_valid whole 1 11 20 three child ≡ true))
validate_iff_example = validate_iff whole 1 11 20 three child

revoke_exactly_example : revoke_capability whole 1 10 20 three ≡ (
  ok (revoke whole 20 parent),
  record three { capabilities = map (revoked_row whole 1 10 20 three) three.capabilities },
)
revoke_exactly_example = revoke_exactly whole 1 10 20 three parent (omega arith) refl

-- The child of the child stays ACTIVE.
statuses :
    map Capability.status (revoke_capability whole 1 10 20 three).1.capabilities
    ≡ CapabilityStatus.revoked ∷ CapabilityStatus.revoked ∷ CapabilityStatus.active ∷ []
unfolding revoke_capability
statuses = refl

activate_exactly_example :
    ((activate_constitution 1 6 30 start).0 ≡ ok (activated_row 1 6 30 start second_version))
    × (filter (is_active_of 1 2) (activate_constitution 1 6 30 start).1.constitutions
        ≡ activated_row 1 6 30 start second_version ∷ [])
activate_exactly_example = activate_exactly 1 6 30 start second_version (omega arith) refl refl

-- ===== src/Execution/Allowed.antt =====
-- A payment that the final revalidation allows, twice.
use orvex.Prelude.{
  ℕ, String, true, false, none, some, List, [], ◌∷◌, ◌≡◌, refl, arith, text_eq, ◌⊎◌, length, ◌≢◌,
  text_eq_iff,
}
use orvex.Prelude.Int.{ℤ}
use orvex.Runtime.{Host}
use orvex.Runtime.Whole.{whole}
use orvex.Outcome.{ok}
use orvex.Table.{find_first}
use orvex.Gate.Contracts.{
  ActionProposal, pay, TransactionAnalysis, AnalysisStatus, SimulationStatus, RecipientRefType,
}
use orvex.Decision.Engine.{RecommendedHandling}
use orvex.Decision.Engine.{decide}
use orvex.Versions.Service.{load_rules}
use orvex.Policy.Engine.{evaluate}
use orvex.Gate.Compare.{compare_proposal_vs_transaction}
use orvex.Gate.Simulation.{validate_simulation_binding, classify_simulation}
use orvex.Idempotency.Service.{register}
use orvex.Financial.Service.{reserve}
use orvex.Decision.Safety.{IsAuthorized}
use orvex.Versions.Store.{VersionStatus, PolicyState}
use orvex.Authority.Store.{
  AgentStatus, ExecutionMode, ConstitutionStatus, CapabilityStatus, CompanyStatus,
}
use orvex.Execution.Store.{World, ExecutionRequest, RequestStatus}
use orvex.Execution.Context.{RevalidateInput, IntentStatus, Hashes, PolicyFacts}
use orvex.Execution.Derivation.{read_policy, decision_input, fresh_hash}
use orvex.Execution.Revalidation.{authorize, revalidate, is_same_execution, reuse}
use orvex.Execution.Authorization.{is_allowed, IsCurrent, allow_rests_on_now}
use orvex.Execution.Approved.{approval_never_allowed}
use orvex.Execution.Uniqueness.{
  IsUnique, revalidate_all, one_request_per_key, reuse_reserves_nothing,
}

abbrev host : Host
host = record {
  get_time = λ text. some 100;
  get_utc_hours = λ text. some 12;
  show_number = λ n. "n";
  locale_before = λ a b. true;
}

abbrev hashes : Hashes
hashes = record {
  payload_hash = λ p. p.transaction_id;
  context_hash = λ c. c.intent_id;
  evaluation_hash = λ policy version rules context. "evaluation";
  operation_hash = λ o. o.amount;
  to_iso_string = λ t. "now";
}

abbrev proposal : ActionProposal
proposal = record {
  proposal_id = "proposal";
  intent_id = "intent";
  agent_id = "agent";
  action_type = pay;
  purpose = "lunch";
  recipient = some (record {
    kind = RecipientRefType.merchant;
    identifier = none;
    address = some "shop";
    network = none;
  });
  amount = some (record { value = "40"; currency = "USDC" });
  payment_method = none;
  network = some "base";
}

abbrev analysis : TransactionAnalysis
analysis = record {
  transaction_id = "tx";
  contract_address = "token";
  function = record { name = "transfer"; selector = "a9059cbb" };
  recipient = "shop";
  amount = "40";
  asset = "USDC";
  risk_flags = [];
  status = AnalysisStatus.valid;
}

abbrev input : RevalidateInput
input = record {
  company_id = 1;
  agent_id = 2;
  decision_id = 4;
  intent_id = "intent";
  intent_status = IntentStatus.valid;
  valid_until = "later";
  proposal = proposal;
  assessment_id = "assessment";
  assessment_created_at = "before";
  recommended_handling = RecommendedHandling.proceed_candidate;
  transaction_id = "tx";
  analysis = analysis;
  expected_network = "base";
  actual_network = "base";
  simulation = record { transaction_id = "tx"; status = SimulationStatus.pass };
  simulated_payload_hash = "tx";
  approval_id = none;
  decision_context_hash = "intent";
  financial_scope_key = "buyer";
  asset = "USDC";
  amount = "40";
  assessment_max_age = some 60;
  simulation_required = some true;
}

abbrev world : World ℤ
world = record {
  authority = record {
    companies = record { id = 1; name = "acme"; status = CompanyStatus.active } ∷ [];
    agents =
        record {
          id = 2;
          company_id = 1;
          name = "buyer";
          status = AgentStatus.active;
          execution_mode = ExecutionMode.testnet;
          active_constitution_id = some 5;
          active_policy_id = some 7;
        }
        ∷ [];
    constitutions =
        record {
          id = 5;
          company_id = 1;
          agent_id = 2;
          version = 1;
          status = ConstitutionStatus.active;
          configuration = record {
            allowed_actions = "PAY" ∷ [];
            blocked_actions = none;
            allowed_assets = none;
            allowed_networks = none;
            allowed_categories = none;
            spending_limits = none;
          };
          activated_at = some 1;
          deactivated_at = none;
        }
        ∷ [];
    capabilities =
        record {
          id = 6;
          company_id = 1;
          agent_id = 2;
          parent_capability_id = none;
          action = "PAY";
          asset = none;
          network = none;
          category_scope = none;
          recipient_scope = none;
          single_transaction_limit = none;
          daily_limit = none;
          weekly_limit = none;
          monthly_limit = none;
          valid_from = 3;
          expires_at = none;
          status = CapabilityStatus.active;
          revoked_at = none;
        }
        ∷ [];
    next_id = 10;
  };
  versions = record {
    companies = 1 ∷ [];
    policies =
        record {
          id = 7;
          company_id = 1;
          agent_id = none;
          name = "limits";
          status = PolicyState.active;
          current_version = 1;
        }
        ∷ [];
    versions =
        record {
          id = 8;
          policy_id = 7;
          version = 1;
          status = VersionStatus.active;
          rules = [];
          activated_at = some 2;
          deactivated_at = none;
          approved_by = none;
        }
        ∷ [];
    rule_rows = [];
    next_id = 9;
  };
  approvals = record { decisions = []; requests = []; results = []; next_id = 0 };
  idempotency = record { records = []; next_id = 0 };
  financial = record { accounts = []; reservations = []; next_id = 0 };
  requests = [];
  results = [];
  verifications = [];
  next_id = 0;
}

abbrev twice : List (RevalidateInput × ℕ)
twice = (input, 50) ∷ (input, 51) ∷ []

allowed : is_allowed (revalidate whole host hashes input 50 world).0 ≡ true
unfolding revalidate load_rules evaluate decide compare_proposal_vs_transaction text_eq
    validate_simulation_binding classify_simulation register reserve
allowed = refl

one_made : length (revalidate_all whole host hashes twice world).requests ≡ 1
unfolding revalidate_all revalidate load_rules evaluate decide compare_proposal_vs_transaction
    text_eq validate_simulation_binding classify_simulation register reserve
one_made = refl

allow_rests_on_now_example :
    let out = revalidate whole host hashes input 50 world in
    ((out.1 ≡ world) × (is_allowed out.0 ≡ false))
    ⊎ ((facts : PolicyFacts) × ((read_policy whole host hashes input 50 world ≡ ok facts)
          × (IsAuthorized (decision_input whole host hashes input 50 facts world)
              × (IsCurrent whole host hashes input 50 world
                  × (out
                      ≡ authorize whole host hashes input 50 facts
                          (fresh_hash whole host hashes input 50 facts world)
                          world)))))
allow_rests_on_now_example = allow_rests_on_now whole host hashes input 50 world

one_request_per_key_example : IsUnique (revalidate_all whole host hashes twice world).requests
one_request_per_key_example = one_request_per_key whole host hashes twice world (λ c k. omega arith)

abbrev request : ExecutionRequest
request = record {
  id = 0;
  company_id = 1;
  agent_id = 2;
  decision_id = 4;
  transaction_id = "tx";
  policy_version_id = some 8;
  authorization_context_hash = "intent";
  idempotency_key = "tx";
  network = "base";
  status = RequestStatus.authorized;
  authorized_at = some 50;
}

abbrev world_with_request : World ℤ
world_with_request = record world { requests = request ∷ [] }

again :
    find_first (is_same_execution whole host hashes input 51) world_with_request.requests
    ≡ some request
unfolding text_eq
again = refl

reuse_reserves_nothing_example :
    let out = revalidate whole host hashes input 51 world_with_request in
    ((is_allowed out.0 ≡ false) ⊎ (out.0 ≡ ok (reuse whole host hashes input 51 request)))
    × ((out.1.financial ≡ world_with_request.financial)
        × (out.1.requests ≡ world_with_request.requests))
reuse_reserves_nothing_example =
    reuse_reserves_nothing whole host hashes input 51 world_with_request request again

-- Hashes of which none is the captured one.
abbrev other_hashes : Hashes
other_hashes = record hashes { context_hash = λ c. "other" }

abbrev approved_input : RevalidateInput
approved_input = record input { approval_id = some 3 }

different : ◌≢◌ {A = String} "intent" ""
unfolding text_eq
different e = ground (arith, (text_eq_iff "intent" "").1 e)

no_hash : ◌≢◌ {A = String} "other" "intent"
unfolding text_eq
no_hash e = ground (arith, (text_eq_iff "other" "intent").1 e)

approval_never_allowed_example :
    ((revalidate whole host other_hashes approved_input 50 world).1 ≡ world)
    × (is_allowed (revalidate whole host other_hashes approved_input 50 world).0 ≡ false)
approval_never_allowed_example =
    approval_never_allowed whole host other_hashes approved_input 50 world 3 refl different
      (λ c e. no_hash)

-- ===== src/Authority/Store.antt =====
-- The rows of companies, agents, constitutions and capabilities.
use orvex.Prelude.{ℕ, String, Bool, ◌&&◌, Option, List, ◌==◌}
use orvex.Table.{find_first, update_first}

pub data CompanyStatus : Type 0 where
  active suspended disabled : CompanyStatus

pub data AgentStatus : Type 0 where
  created configured active paused suspended disabled : AgentStatus

pub data ExecutionMode : Type 0 where
  simulate review_only testnet autonomous : ExecutionMode

pub data ConstitutionStatus : Type 0 where
  draft validating approved active superseded disabled : ConstitutionStatus

pub data CapabilityStatus : Type 0 where
  active expired revoked : CapabilityStatus

pub record Company : Type 0 where
  pub id : ℕ
  pub name : String
  pub status : CompanyStatus

pub record Agent : Type 0 where
  pub id : ℕ
  pub company_id : ℕ
  pub name : String
  pub status : AgentStatus
  pub execution_mode : ExecutionMode
  pub active_constitution_id : Option ℕ
  pub active_policy_id : Option ℕ

pub record ConstitutionConfig : Type 0 where
  pub allowed_actions : List String
  pub blocked_actions : Option (List String)
  pub allowed_assets : Option (List String)
  pub allowed_networks : Option (List String)
  pub allowed_categories : Option (List String)
  pub spending_limits : Option (List (String × String))

pub record Constitution : Type 0 where
  pub id : ℕ
  pub company_id : ℕ
  pub agent_id : ℕ
  pub version : ℕ
  pub status : ConstitutionStatus
  pub configuration : ConstitutionConfig
  pub activated_at : Option ℕ
  pub deactivated_at : Option ℕ

pub record Capability (D : Type 0) : Type 0 where
  pub id : ℕ
  pub company_id : ℕ
  pub agent_id : ℕ
  pub parent_capability_id : Option ℕ
  pub action : String
  pub asset : Option String
  pub network : Option String
  pub category_scope : Option (List String)
  pub recipient_scope : Option (List String)
  pub single_transaction_limit : Option D
  pub daily_limit : Option D
  pub weekly_limit : Option D
  pub monthly_limit : Option D
  pub valid_from : ℕ
  pub expires_at : Option ℕ
  pub status : CapabilityStatus
  pub revoked_at : Option ℕ

pub record Store (D : Type 0) : Type 0 where
  pub companies : List Company
  pub agents : List Agent
  pub constitutions : List Constitution
  pub capabilities : List (Capability D)
  pub next_id : ℕ

abbrev pub is_agent_of : ℕ → ℕ → Agent → Bool
is_agent_of company i a = a.id == i && a.company_id == company

module _ {D : Type 0} where
  -- `agent.findFirst` by id and company
  abbrev pub get_agent : ℕ → ℕ → Store D → Option Agent
  get_agent company i s = find_first (is_agent_of company i) s.agents

  abbrev pub set_agent : ℕ → (Agent → Agent) → Store D → Store D
  set_agent i f s = record s { agents = update_first (λ a. a.id == i) f s.agents }

-- ===== src/Authority/Agents.antt =====
-- The methods of `CompanyService` and `AgentService`.
use orvex.Prelude.{
  ℕ, suc, String, Bool, not, ◌&&◌, Option, none, List, [], ◌∷◌, ◌++◌, ◌==◌, text_eq, any, coalesce,
  filter, is_some,
}
use orvex.Errors.{invalid_input, not_found, tenant_error, conflict, agent_not_found}
use orvex.Outcome.{core, Action, pure, gets, or_throw, throw_if, modify, ◌>>=◌, ◌>>◌}
use orvex.Table.{find_first, update_first}
use orvex.Versions.Service.{trimmed}
use orvex.Authority.Store.{
  Company, CompanyStatus, Agent, AgentStatus, created, paused, ExecutionMode, simulate, Store,
  get_agent, set_agent,
}

abbrev pub has_name : ℕ → String → Agent → Bool
has_name company name a = a.company_id == company && text_eq a.name name

module _ {D : Type 0} where
  unfoldable pub create_company : (String → String) → Option String → Action (Store D) Company
  create_company trim name = do
    let text = trimmed trim name
    throw_if (text_eq text "") (core invalid_input)
    row ← gets (λ s. record { id = s.next_id; name = text; status = CompanyStatus.active })
    modify (λ s. record s { companies = s.companies ++ row ∷ []; next_id = suc s.next_id })
    pure row

  abbrev pub get_company : ℕ → Store D → Option Company
  get_company i s = find_first (λ c. c.id == i) s.companies

  abbrev pub require_company : ℕ → Action (Store D) Company
  require_company i s = or_throw (core not_found) (get_company i s) s

  unfoldable pub update_company_status : ℕ → CompanyStatus → Action (Store D) Company
  update_company_status i status = do
    row ← require_company i
    modify (λ s. record s {
      companies = update_first (λ c. c.id == i) (λ c. record c { status = status }) s.companies;
    })
    pure (record row { status = status })

  -- The insert is refused by the unique constraint on (company, name).
  unfoldable pub create_agent :
      (String → String) → ℕ → Option String → Option ExecutionMode → Action (Store D) Agent
  create_agent trim company name mode = do
    let text = trimmed trim name
    throw_if (text_eq text "") (core invalid_input)
    found ← gets (get_company company)
    throw_if (not (is_some found)) (core tenant_error)
    taken ← gets (λ s. any (has_name company text) s.agents)
    throw_if taken (core conflict)
    row ← gets (λ s. record {
      id = s.next_id;
      company_id = company;
      name = text;
      status = created;
      execution_mode = coalesce mode simulate;
      active_constitution_id = none;
      active_policy_id = none;
    })
    modify (λ s. record s { agents = s.agents ++ row ∷ []; next_id = suc s.next_id })
    pure row

  abbrev pub require_agent : ℕ → ℕ → Action (Store D) Agent
  require_agent company i s = or_throw (core agent_not_found) (get_agent company i s) s

  abbrev pub list_agents : ℕ → Store D → List Agent
  list_agents company s = filter (λ a. a.company_id == company) s.agents

  -- `transition`
  unfoldable pub set_agent_status : ℕ → ℕ → AgentStatus → Action (Store D) Agent
  set_agent_status company i status = do
    row ← require_agent company i
    modify (set_agent i (λ a. record a { status = status }))
    pure (record row { status = status })

  abbrev pub activate_agent : ℕ → ℕ → Action (Store D) Agent
  activate_agent company i = set_agent_status company i AgentStatus.active

  abbrev pub pause_agent : ℕ → ℕ → Action (Store D) Agent
  pause_agent company i = set_agent_status company i paused

  abbrev pub resume_agent : ℕ → ℕ → Action (Store D) Agent
  resume_agent company i = set_agent_status company i AgentStatus.active

  abbrev pub suspend_agent : ℕ → ℕ → Action (Store D) Agent
  suspend_agent company i = set_agent_status company i AgentStatus.suspended

  abbrev pub disable_agent : ℕ → ℕ → Action (Store D) Agent
  disable_agent company i = set_agent_status company i AgentStatus.disabled

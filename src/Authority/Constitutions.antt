-- ===== src/Authority/Constitutions.antt =====
-- The methods of `ConstitutionService`.
use orvex.Prelude.{
  ℕ, suc, ◌+◌, String, Bool, true, false, not, ◌&&◌, Option, none, some, List, [], ◌∷◌, ◌++◌, ◌==◌,
  ltb, coalesce, all, if◌then◌else◌, is_some,
}
use orvex.Prelude.Digits.{is_decimal_text}
use orvex.Errors.{invalid_input, not_found, tenant_error, conflict}
use orvex.Outcome.{
  core, database_error, Action, pure, gets, or_throw, throw_if, modify, transaction, ◌>>=◌, ◌>>◌,
}
use orvex.Table.{find_first, update_first, update_all}
use orvex.Authority.Store.{
  ConstitutionStatus, draft, active, superseded, disabled, ConstitutionConfig, Constitution, Store,
  get_agent, set_agent,
}

-- What `validateConstitution` lets through: some allowed action, and limits that are decimals
-- without a sign.
abbrev pub has_action : List String → Bool
has_action [] = false
has_action (_ ∷ _) = true

abbrev pub is_valid_config : ConstitutionConfig → Bool
is_valid_config config =
    has_action config.allowed_actions
    && all (λ entry. is_decimal_text entry.1) (coalesce config.spending_limits [])

abbrev pub is_active : ConstitutionStatus → Bool
is_active active = true
is_active _ = false

abbrev pub is_closed : ConstitutionStatus → Bool
is_closed superseded = true
is_closed disabled = true
is_closed _ = false

abbrev pub is_active_of : ℕ → ℕ → Constitution → Bool
is_active_of company agent c =
    c.company_id == company && (c.agent_id == agent && is_active c.status)

-- The highest version of an agent's constitutions, 0 if there is none.
abbrev pub latest_constitution : ℕ → List Constitution → ℕ
latest_constitution agent [] = 0
latest_constitution agent (c ∷ cs) =
    let rest = latest_constitution agent cs in
    if c.agent_id == agent && ltb rest c.version then c.version else rest

module _ {D : Type 0} where
  abbrev pub new_constitution : ℕ → ℕ → ConstitutionConfig → Store D → Constitution
  new_constitution company agent config s = record {
    id = s.next_id;
    company_id = company;
    agent_id = agent;
    version = latest_constitution agent s.constitutions + 1;
    status = draft;
    configuration = config;
    activated_at = none;
    deactivated_at = none;
  }

  abbrev pub add_constitution : Constitution → Store D → Store D
  add_constitution c s = record s {
    constitutions = s.constitutions ++ c ∷ [];
    next_id = suc s.next_id;
  }

  unfoldable pub create_constitution : ℕ → ℕ → ConstitutionConfig → Action (Store D) Constitution
  create_constitution company agent config = do
    throw_if (not (is_valid_config config)) (core invalid_input)
    found ← gets (get_agent company agent)
    throw_if (not (is_some found)) (core tenant_error)
    row ← gets (new_constitution company agent config)
    modify (add_constitution row)
    pure row

  abbrev pub get_constitution : ℕ → ℕ → Store D → Option Constitution
  get_constitution company i s =
      find_first (λ c. c.id == i && c.company_id == company) s.constitutions

  abbrev pub get_constitution_version : ℕ → ℕ → ℕ → Store D → Option Constitution
  get_constitution_version company agent version s =
      find_first (λ c. c.company_id == company && (c.agent_id == agent && c.version == version))
        s.constitutions

  abbrev pub get_active_constitution : ℕ → ℕ → Store D → Option Constitution
  get_active_constitution company agent s = find_first (is_active_of company agent) s.constitutions

  -- The three writes of `activateConstitution`.
  abbrev pub supersede : ℕ → ℕ → ℕ → Store D → Store D
  supersede company agent now s = record s {
    constitutions =
        update_all (is_active_of company agent)
          (λ c. record c { status = superseded; deactivated_at = some now }) s.constitutions;
  }

  abbrev pub set_active : ℕ → ℕ → Store D → Store D
  set_active i now s = record s {
    constitutions =
        update_first (λ c. c.id == i) (λ c. record c { status = active; activated_at = some now })
          s.constitutions;
  }

  abbrev pub point_agent : ℕ → ℕ → Store D → Store D
  point_agent agent i = set_agent agent (λ a. record a { active_constitution_id = some i })

  unfoldable pub activate_constitution : ℕ → ℕ → ℕ → Action (Store D) Constitution
  activate_constitution company i now = transaction (do
    found ← gets (get_constitution company i)
    target ← or_throw (core not_found) found
    throw_if (is_closed target.status) (core conflict)
    modify (supersede company target.agent_id now)
    modify (set_active target.id now)
    updated ← gets (λ s. find_first (λ c. c.id == target.id) s.constitutions)
    activated ← or_throw database_error updated
    modify (point_agent target.agent_id activated.id)
    pure activated)

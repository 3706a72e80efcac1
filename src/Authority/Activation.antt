-- ===== src/Authority/Activation.antt =====
-- What `activateConstitution` leaves in force.
use mathlib.Core.Path.{subst}
use orvex.Prelude.{
  ℕ, Bool, true, false, ◌&&◌, some, List, [], ◌∷◌, ◌==◌, ◌≡◌, refl, sym, ◌∙◌, ap, arith,
  if◌then◌else◌, Bool-cases, inl, inr, filter,
}
use orvex.Outcome.{ok}
use orvex.Table.{find_first, find_first-holds, find_first-update_self, update_first, update_all}
use orvex.Table.Keys.{with_key, Distinct, find-update_all, find-with_key}
use orvex.Authority.Store.{Constitution, active, superseded, Store}
use orvex.Authority.Constitutions.{
  is_active_of, is_closed, get_constitution, activate_constitution, supersede, set_active,
  point_agent,
}

abbrev pub key : Constitution → ℕ
key c = c.id

abbrev superseding : ℕ → Constitution → Constitution
superseding now c = record c { status = superseded; deactivated_at = some now }

abbrev activating : ℕ → Constitution → Constitution
activating now c = record c { status = active; activated_at = some now }

module _ {A : Type 0} (p : A → Bool) (f : A → A) where
  -- After a write that ends the property wherever it holds, no row has it.
  none_fits : ((x : A) → p (f x) ≡ false) → (xs : List A) → filter p (update_all p f xs) ≡ []
  none_fits n [] = refl
  none_fits n (x ∷ xs) = elim (Bool-cases (p x)) [
    | inl e ↦ rw (e, n x) (none_fits n xs)
    | inr m ↦ rw (m, m) (none_fits n xs)
  ]

  -- A write of one row that gives it the property.
  one_fits :
      (q : A → Bool) (xs : List A) {r : A}
      → filter p xs ≡ []
      → find_first q xs ≡ some r
      → p (f r) ≡ true
      → filter p (update_first q f xs) ≡ f r ∷ []
  one_fits q [] n h a = absurd (ground (arith, h))
  one_fits q (x ∷ xs) {r} n h a = elim (Bool-cases (p x)) [
    | inl e ↦ absurd (ground (arith, n, e))
    | inr m ↦ elim (Bool-cases (q x)) [
      | inl e ↦ ground (arith, n, h, a, e, m)
      | inr o ↦ ground (arith, n, h, a, o, m, one_fits q xs {r = r})
    ]
  ]

module _ {D : Type 0} (company i now : ℕ) (s : Store D) where
  -- The row as the second write leaves it.
  abbrev pub activated_row : Constitution → Constitution
  activated_row c =
      activating now (if is_active_of company c.agent_id c then superseding now c else c)

  abbrev pub after_writes : Constitution → Store D
  after_writes c =
      point_agent c.agent_id c.id (set_active c.id now (supersede company c.agent_id now s))

  activate_found :
      (c : Constitution)
      → get_constitution company i s ≡ some c
      → is_closed c.status ≡ false
      → find_first
          (λ x. x.id == c.id)
          (set_active c.id now (supersede company c.agent_id now s)).constitutions
        ≡ some (activated_row c)
      → activate_constitution company i now s ≡ (ok (activated_row c), after_writes c)
  unfolding activate_constitution
  activate_found c e o u = ground (arith, e, o, u)

  -- `activateConstitution`, where ids are keys and the company has the constitution, which is
  -- neither SUPERSEDED nor DISABLED: it returns the row, and this row is the only one of the
  -- company's constitutions for the agent that is ACTIVE afterwards.
  pub activate_exactly :
      (c : Constitution)
      → Distinct key s.constitutions
      → get_constitution company i s ≡ some c
      → is_closed c.status ≡ false
      → ((activate_constitution company i now s).0 ≡ ok (activated_row c))
        × (filter
              (is_active_of company c.agent_id)
              (activate_constitution company i now s).1.constitutions
            ≡ activated_row c ∷ [])
  activate_exactly c d e o =
      let fits =
        find_first-holds (λ x. x.id == i && x.company_id == company) s.constitutions {r = c} e in
      let same : c.id ≡ i = ground (arith, fits) in
      let own : c.company_id ≡ company = ground (arith, fits) in
      let there : find_first (with_key key c.id) s.constitutions ≡ some c =
        subst (λ j. find_first (with_key key j) s.constitutions ≡ some c) (sym same)
          (find-with_key key i (λ x. x.company_id == company) s.constitutions {r = c} d e) in
      let row = if is_active_of company c.agent_id c then superseding now c else c in
      let left : find_first (with_key key c.id) (supersede company c.agent_id now s).constitutions
          ≡ some row =
        find-update_all key c.id (superseding now) (λ x. refl) (is_active_of company c.agent_id)
          s.constitutions {r = c} there in
      let updated =
        find_first-update_self (with_key key c.id) (activating now)
          (supersede company c.agent_id now s).constitutions {r = row}
          (find_first-holds (with_key key c.id) (supersede company c.agent_id now s).constitutions
            {r = row} left)
          left in
      let done = activate_found c e o updated in
      (
        ap (λ x. x.0) done,
        ap (λ x. filter (is_active_of company c.agent_id) x.1.constitutions) done
            ∙ one_fits (is_active_of company c.agent_id) (activating now) (with_key key c.id)
                (supersede company c.agent_id now s).constitutions {r = row}
                (none_fits (is_active_of company c.agent_id) (superseding now) (λ x. ground arith)
                  s.constitutions)
                left (ground (arith, own)),
      )

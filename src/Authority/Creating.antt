-- ===== src/Authority/Creating.antt =====
-- A row that `createCapability` writes is within the parent that it names.
use orvex.Prelude.{
  ℕ, Bool, true, false, not, none, some, List, ◌≡◌, refl, ◌⊎◌, inl, inr, Option-cases, is_some,
  arith,
}
use orvex.Errors.{tenant_error}
use orvex.Runtime.{Decimals}
use orvex.Outcome.{
  Failure, Result, ok, err, core, database_error, Action, throw_if, lift, gets, modify, pure, ◌>>=◌,
  ◌>>◌,
}
use orvex.Table.{find_first}
use orvex.Authority.Store.{Capability, get_agent}
use orvex.Authority.Limits.{Limits}
use orvex.Authority.Checks.{CreateInput, read_limits, is_active}
use orvex.Authority.Capabilities.{
  Rows, is_owned, new_capability, add_capability, check_constitution, check_parent,
  create_capability,
}
use orvex.Authority.Containment.{IsWithin}
use orvex.Authority.Creation.{assert_within_parent-IsWithin}

-- The chain of `createCapability`: nothing is written, or every check has let pass.
creation_cases :
    {S L R : Type 0} (found : Bool) (x : Failure) (c p : Result (Unit {0})) (r : Result L)
    (make : L → S → R) (add : R → S → S) (s : S)
    → let m : Action S R = (do
      throw_if (not found) x
      lift c
      lift p
      l ← lift r
      row ← gets (make l)
      modify (add row)
      pure row) in
      ((m s).1 ≡ s) ⊎ ((l : L) × ((p ≡ ok tt) × ((r ≡ ok l) × ((m s).1 ≡ add (make l s) s))))
creation_cases false x c p r make add s = inl refl
creation_cases true x (err e) p r make add s = inl refl
creation_cases true x (ok u) (err e) r make add s = inl refl
creation_cases true x (ok u) (ok v) (err e) make add s = inl refl
creation_cases true x (ok u) (ok v) (ok l) make add s = inr (l, (refl, (refl, refl)))

module _ (api : Decimals) where
  open api use {Decimal}

  -- The parent that the row names is one of the rows, ACTIVE, of the same owner, and contains it.
  abbrev pub HasParent : Capability Decimal → List (Capability Decimal) → Type 0
  HasParent row rows =
      (row.parent_capability_id ≡ none)
      ⊎ ((i : ℕ) × ((row.parent_capability_id ≡ some i)
            × ((parent : Capability Decimal) × ((find_first
                      (is_owned api row.company_id row.agent_id i) rows
                    ≡ some parent)
                  × ((is_active parent.status ≡ true) × IsWithin api row parent)))))

  module _ (input : CreateInput) (now : ℕ) (s : Rows api) where
    check_parent-HasParent :
        (l : Limits api)
        → read_limits api database_error input ≡ ok l
        → check_parent api input s ≡ ok tt
        → HasParent (new_capability api input l now s.next_id) s.capabilities
    unfolding check_parent
    check_parent-HasParent l r h = elim (Option-cases input.parent_capability_id) [
      | inl none_given ↦ inl none_given
      | inr (i, given) ↦
          elim (Option-cases
            (find_first (is_owned api input.company_id input.agent_id i) s.capabilities)) [
              | inl gone ↦ absurd (ground (arith, h, given, gone))
              | inr (parent, there) ↦ inr (
                i,
                (
                  given,
                  (
                    parent,
                    (
                      there,
                      assert_within_parent-IsWithin api input parent l now s.next_id r
                          (cc (h, given, there)),
                    ),
                  ),
                ),
              )
            ]
    ]

    -- `createCapability` writes nothing, or one row that is within the parent that it names.
    pub create-cases :
        ((create_capability api input now s).1 ≡ s)
        ⊎ ((row : Capability Decimal) × ((row.id ≡ s.next_id)
              × (HasParent row s.capabilities
                  × ((create_capability api input now s).1 ≡ add_capability api row s))))
    unfolding create_capability
    create-cases =
        elim (creation_cases (is_some (get_agent input.company_id input.agent_id s))
          (core tenant_error) (check_constitution api input s) (check_parent api input s)
          (read_limits api database_error input) (λ l t. new_capability api input l now t.next_id)
          (add_capability api) s) [
            | inl same ↦ inl same
            | inr (l, (p, (r, new))) ↦ inr (
              new_capability api input l now s.next_id,
              (refl, (check_parent-HasParent l r p, new)),
            )
          ]

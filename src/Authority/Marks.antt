-- ===== src/Authority/Marks.antt =====
-- Writes that change only the status of a capability: what it is, who owns it, its parent and its
-- terms stay, and so does the row that an id names.
use orvex.Prelude.{
  ℕ, Bool, true, false, Option, some, List, ◌++◌, ◌≡◌, refl, sym, ◌∙◌, if◌then◌else◌,
}
use mathlib.Core.Path.{subst}
use native.Mathlib.Decide.{ℕ_discrete}
use orvex.Runtime.{Decimals}
use orvex.Table.{
  find_first, update_first, update_all, find_first-append_some, find_first-update_self,
  find_first-holds,
}
use orvex.Table.Keys.{with_key, find-update_ne, find-update_all}
use orvex.Authority.Store.{Capability, CapabilityStatus}
use orvex.Authority.Containment.{IsWithin}

module _ (api : Decimals) where
  open api use {Decimal}

  abbrev pub mark : CapabilityStatus → Option ℕ → Capability Decimal → Capability Decimal
  mark status at c = record c { status = status; revoked_at = at }

  pub IsWithin-mark :
      (status status' : CapabilityStatus) (at at' : Option ℕ) (c p : Capability Decimal)
      → IsWithin api c p
      → IsWithin api (mark status at c) (mark status' at' p)
  IsWithin-mark status status' at at' c p w = record {
    same_action = w.same_action;
    asset_within = w.asset_within;
    network_within = w.network_within;
    categories_within = w.categories_within;
    recipients_within = w.recipients_within;
    single_within = w.single_within;
    daily_within = w.daily_within;
    weekly_within = w.weekly_within;
    monthly_within = w.monthly_within;
    expiry_within = w.expiry_within;
  }

  abbrev pub key : Capability Decimal → ℕ
  key c = c.id

  abbrev pub IsMarked : Capability Decimal → Capability Decimal → Type 0
  IsMarked c c' = (status : CapabilityStatus) × ((at : Option ℕ) × (c' ≡ mark status at c))

  pub self-IsMarked : (c : Capability Decimal) → IsMarked c c
  self-IsMarked c = (c.status, (c.revoked_at, refl))

  -- The rows of the first table are in the second, with another status at most.
  abbrev pub Follows : List (Capability Decimal) → List (Capability Decimal) → Type 0
  Follows xs ys =
      (k : ℕ) (r : Capability Decimal)
      → find_first (with_key key k) xs ≡ some r
      → (r' : Capability Decimal) × ((find_first (with_key key k) ys ≡ some r') × IsMarked r r')

  pub append-Follows : (xs ys : List (Capability Decimal)) → Follows xs (xs ++ ys)
  append-Follows xs ys k r h =
      (r, (find_first-append_some (with_key key k) xs ys {r = r} h, self-IsMarked r))

  module _ (status : CapabilityStatus) (at : Capability Decimal → Option ℕ) where
    abbrev pub marking : Capability Decimal → Capability Decimal
    marking c = mark status (at c) c

    pub if-IsMarked : (b : Bool) (c : Capability Decimal) → IsMarked c (if b then marking c else c)
    if-IsMarked true c = (status, (at c, refl))
    if-IsMarked false c = self-IsMarked c

    pub update_all-Follows :
        (p : Capability Decimal → Bool) (xs : List (Capability Decimal))
        → Follows xs (update_all p marking xs)
    update_all-Follows p xs k r h = (
      if p r then marking r else r,
      (find-update_all key k marking (λ c. refl) p xs {r = r} h, if-IsMarked (p r) r),
    )

    pub update_first-Follows :
        (i : ℕ) (xs : List (Capability Decimal))
        → Follows xs (update_first (with_key key i) marking xs)
    update_first-Follows i xs k r h = elim (ℕ_discrete i k) [
      | yes e ↦ (
        marking r,
        (
          subst
              (λ j.
                find_first (with_key key k) (update_first (with_key key j) marking xs)
                ≡ some (marking r))
              (sym e)
              (find_first-update_self (with_key key k) marking xs {r = r}
                (find_first-holds (with_key key k) xs {r = r} h) h),
          if-IsMarked true r,
        ),
      )
      | no n ↦ (r, (find-update_ne key i k marking (λ c. refl) xs n ∙ h, self-IsMarked r))
    ]

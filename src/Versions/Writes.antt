-- ===== src/Versions/Writes.antt =====
-- How the writes change the number of active versions of a policy.
use orvex.Prelude.{
  ℕ, suc, ◌≤◌, ◌≡◌, ◌≢◌, refl, Bool, false, ◌&&◌, some, List, [], ◌∷◌, ◌++◌, ◌==◌, if◌then◌else◌,
  arith, Bool-cases, inl, inr, sym, ap, ◌∙◌,
}
use orvex.Table.{find_first, update_first, update_all}
use orvex.Versions.Store.{superseded, VersionRow, is_active, has_id}

-- The active versions of the policy.
abbrev pub count_active : ℕ → List VersionRow → ℕ
count_active k [] = 0
count_active k (v ∷ vs) =
    let rest = count_active k vs in
    if v.policy_id == k && is_active v.status then suc rest else rest

pub count-append :
    (k : ℕ) (vs : List VersionRow) (v : VersionRow)
    → is_active v.status ≡ false
    → count_active k (vs ++ v ∷ []) ≡ count_active k vs
count-append k [] v h = ground arith
count-append k (w ∷ vs) v h = ground (arith, count-append k vs v h)

-- A row is written with a status that is not ACTIVE.
pub count-update_inactive :
    (k : ℕ) (p : VersionRow → Bool) (f : VersionRow → VersionRow)
    → ((x : VersionRow) → is_active (f x).status ≡ false)
    → (vs : List VersionRow) → count_active k (update_first p f vs) ≤ count_active k vs
count-update_inactive k p f h [] = omega arith
count-update_inactive k p f h (v ∷ vs) = ground (arith, h v, count-update_inactive k p f h vs)

-- One row is written.
pub count-update_one :
    (k : ℕ) (p : VersionRow → Bool) (f : VersionRow → VersionRow) (vs : List VersionRow)
    → count_active k (update_first p f vs) ≤ suc (count_active k vs)
count-update_one k p f [] = omega arith
count-update_one k p f (v ∷ vs) = ground (arith, count-update_one k p f vs)

-- A row of another policy is written.
pub count-update_other :
    (k i : ℕ) (f : VersionRow → VersionRow)
    → ((x : VersionRow) → (f x).policy_id ≡ x.policy_id)
    → (vs : List VersionRow) {r : VersionRow} → find_first (has_id i) vs ≡ some r
    → r.policy_id ≢ k
    → count_active k (update_first (has_id i) f vs) ≡ count_active k vs
count-update_other k i f keeps [] h n = refl
count-update_other k i f keeps (v ∷ vs) {r} h n = elim (Bool-cases (has_id i v)) [
  | inl e ↦
      let it : v ≡ r = cc (h, e) in
      let other : v.policy_id ≢ k = λ q. n (sym (ap VersionRow.policy_id it) ∙ q) in
      ground (arith, e, keeps v, other)
  | inr m ↦ ground (arith, m, count-update_other k i f keeps vs {r = r} (cc (h, m)) n)
]

abbrev pub is_active_of : ℕ → VersionRow → Bool
is_active_of k v = v.policy_id == k && is_active v.status

module _ (now : ℕ) where
  abbrev pub close : VersionRow → VersionRow
  close v = record v { status = superseded; deactivated_at = some now }

  pub count-supersede :
      (k : ℕ) (vs : List VersionRow) → count_active k (update_all (is_active_of k) close vs) ≡ 0
  count-supersede k [] = refl
  count-supersede k (v ∷ vs) = ground (arith, count-supersede k vs)

  pub count-supersede_other :
      (k j : ℕ) (vs : List VersionRow)
      → count_active j (update_all (is_active_of k) close vs) ≤ count_active j vs
  count-supersede_other k j [] = omega arith
  count-supersede_other k j (v ∷ vs) = ground (arith, count-supersede_other k j vs)

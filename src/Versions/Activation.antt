-- ===== src/Versions/Activation.antt =====
-- What the methods do to the versions, and that the writes leave at most one active version.
use mathlib.Core.Path.{subst}
use native.Mathlib.Decide.{ℕ_discrete}
use orvex.Prelude.{
  ℕ, suc, ◌≤◌, ◌≡◌, ◌≢◌, refl, String, Bool, true, false, Option, none, some, if◌then◌else◌, arith,
  sym,
}
use orvex.Table.{update_first, update_all}
use orvex.Table.Keys.{
  Below, Distinct, Below-add, Below-mono, Distinct-add, find-own_key, find-update_all, Below-update,
  Distinct-update, Below-update_all, Distinct-update_all,
}
use orvex.Versions.Store.{
  VersionStatus, approved, active, VersionRow, PolicyRow, Store, DraftInput, may_become, is_active,
  has_id, belongs_to, get_version,
}
use orvex.Versions.Service.{
  add_policy, new_version, add_version, set_status, transition, set_approved, approve, supersede,
  set_active, point_to, activate,
}
use orvex.Versions.Writes.{
  count_active, count-append, count-update_inactive, count-update_one, count-update_other,
  is_active_of, close, count-supersede, count-supersede_other,
}

-- Ids are keys, and no policy has two active versions.
pub record IsVersioned (s : Store) : Type 0 where
  pub below : Below VersionRow.id s.next_id s.versions
  pub distinct : Distinct VersionRow.id s.versions
  pub at_most_one : (k : ℕ) → count_active k s.versions ≤ 1

pub if-keeps :
    (b : Bool) (s t : Store) → IsVersioned s → IsVersioned t → IsVersioned (if b then s else t)
if-keeps true s t h k = h
if-keeps false s t h k = k

module _ (company i : ℕ) (s : Store) where
  pub transition_missing :
      (to : VersionStatus) → get_version company i s ≡ none → (transition company i to s).1 ≡ s
  unfolding transition
  transition_missing to e = ground arith

  pub transition_found :
      (to : VersionStatus) (r : VersionRow)
      → get_version company i s ≡ some r
      → (transition company i to s).1 ≡ (if may_become r.status to then set_status r.id to s else s)
  unfolding transition
  transition_found to r e = ground arith

  pub approve_missing :
      (by : Option String) → get_version company i s ≡ none → (approve company i by s).1 ≡ s
  unfolding approve
  approve_missing by e = ground arith

  pub approve_found :
      (by : Option String) (r : VersionRow)
      → get_version company i s ≡ some r
      → (approve company i by s).1
        ≡ (if may_become r.status approved then set_approved r.id by s else s)
  unfolding approve
  approve_found by r e = ground arith

  pub activate_missing :
      (now : ℕ) → get_version company i s ≡ none → (activate company i now s).1 ≡ s
  unfolding activate
  activate_missing now e = ground arith

  pub activate_found :
      (now : ℕ) (r : VersionRow)
      → get_version company i s ≡ some r
      → (activate company i now s).1 ≡ (
          if may_become r.status active
          then point_to r.policy_id r.version (set_active r.id now (supersede r.policy_id now s))
          else s)
  unfolding activate
  activate_found now r e = ground arith

-- A row is written with a status that is not ACTIVE.
pub write-keeps :
    (i : ℕ) (f : VersionRow → VersionRow)
    → ((x : VersionRow) → (f x).id ≡ x.id)
    → ((x : VersionRow) → is_active (f x).status ≡ false)
    → (s : Store) → IsVersioned s
    → IsVersioned (record s { versions = update_first (has_id i) f s.versions })
write-keeps i f keeps inactive s b = record {
  below = Below-update VersionRow.id f keeps (has_id i) s.next_id s.versions b.below;
  distinct = Distinct-update VersionRow.id f keeps (has_id i) s.versions b.distinct;
  at_most_one = λ k.
      let fewer = count-update_inactive k (has_id i) f inactive s.versions in
      let one = b.at_most_one k in omega arith;
}

pub append-keeps :
    (input : DraftInput) (policy : ℕ) (s : Store)
    → IsVersioned s
    → IsVersioned (add_version (new_version input policy s) s)
append-keeps input policy s b = record {
  below = Below-add VersionRow.id s.next_id s.versions (new_version input policy s) b.below refl;
  distinct =
      Distinct-add VersionRow.id s.next_id s.versions (new_version input policy s) b.below refl
        b.distinct;
  at_most_one = λ k.
      subst (λ n. n ≤ 1) (sym (count-append k s.versions (new_version input policy s) refl))
        (b.at_most_one k);
}

pub policy-keeps : (p : PolicyRow) (s : Store) → IsVersioned s → IsVersioned (add_policy p s)
policy-keeps p s b = record {
  below = Below-mono VersionRow.id s.next_id (suc s.next_id) s.versions (omega arith) b.below;
  distinct = b.distinct;
  at_most_one = b.at_most_one;
}

-- The three writes of an activation.
pub activation-keeps :
    (company i now : ℕ) (s : Store) (r : VersionRow)
    → get_version company i s ≡ some r
    → IsVersioned s
    → IsVersioned
        (point_to r.policy_id r.version (set_active r.id now (supersede r.policy_id now s)))
activation-keeps company i now s r found b =
    let p = is_active_of r.policy_id in
    let f = λ (v : VersionRow). record v { status = active; activated_at = some now } in
    let there = find-own_key VersionRow.id i (belongs_to company s) s.versions b.distinct found in
    let later =
      find-update_all VersionRow.id r.id (close now) (λ x. refl) p s.versions {r = r} there in
    let below =
      Below-update_all VersionRow.id (close now) (λ x. refl) p s.next_id s.versions b.below in
    let distinct =
      Distinct-update_all VersionRow.id (close now) (λ x. refl) p s.versions b.distinct in
    let rows = update_all p (close now) s.versions in
    record {
      below = Below-update VersionRow.id f (λ x. refl) (has_id r.id) s.next_id rows below;
      distinct = Distinct-update VersionRow.id f (λ x. refl) (has_id r.id) rows distinct;
      at_most_one = λ k. elim (ℕ_discrete r.policy_id k) [
        | yes same ↦
            let none_left = count-supersede now r.policy_id s.versions in
            let one_more = count-update_one k (has_id r.id) f rows in
            let none_of_k = subst (λ j. count_active j rows ≡ 0) same none_left in omega arith
        | no other ↦
            let fewer = count-supersede_other now r.policy_id k s.versions in
            let one = b.at_most_one k in
            let rest =
              count-update_other k r.id f (λ x. refl) rows later (other_policy (p r) other) in
            omega arith
      ];
    }
  where
    other_policy :
        {k : ℕ} (c : Bool)
        → r.policy_id ≢ k
        → VersionRow.policy_id (if c then close now r else r) ≢ k
    other_policy true n = n
    other_policy false n = n

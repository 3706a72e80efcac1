-- ===== src/Financial/Lifecycle.antt =====
-- The state machine of a reservation: which statuses follow which, over every history of calls.
use mathlib.Core.Path.{subst}
use native.Mathlib.Decide.{ℕ_discrete}
use orvex.Prelude.{
  ℕ, ◌≡◌, ◌≢◌, refl, sym, ap, ◌∙◌, some, List, true, arith, ◌++◌, ◌∷◌, [], ◌⊎◌, inl, inr,
  Bool-cases,
}
use orvex.Runtime.{Decimals}
use orvex.Table.{find_first, update_first, find_first-append_some, find_first-update_self}
use orvex.Table.Keys.{find-update_ne}
use orvex.Financial.Store.{
  Reservation, ReservationStatus, reserved, committed, released, unknown, Store, has_id,
}
use orvex.Financial.Calls.{Call, perform_all}
use orvex.Financial.Steps.{mark_committed, mark_released}
use orvex.Financial.Sums.{IsKeyed}
use orvex.Financial.Induction.{is_open, mark_as_unknown, Kept, perform_all-keeps}
use orvex.Financial.Balance.{Any, Any-calls, Keyed-Kept, owned_is_row}

-- The moves of a reservation: a hold is committed, released or left unknown, and what is unknown
-- is released by a reconciliation.
infix 40 ◌⟶◌ ◌⟶*◌
pub data ◌⟶◌ : ReservationStatus → ReservationStatus → Type 0 where
  commit_move : reserved ⟶ committed
  release_move : {st : ReservationStatus} → is_open st ≡ true → st ⟶ released
  unknown_move : {st : ReservationStatus} → is_open st ≡ true → st ⟶ unknown

pub data ◌⟶*◌ : ReservationStatus → ReservationStatus → Type 0 where
  here : {st : ReservationStatus} → st ⟶* st
  next : {st su sv : ReservationStatus} → st ⟶* su → su ⟶ sv → st ⟶* sv

-- A closed reservation stays as it is.
pub closed_stays : {st su : ReservationStatus} → st ⟶* su → is_open st ≢ true → su ≡ st
closed_stays here h = refl
closed_stays (next r commit_move) h = absurd (h (ap is_open (sym (closed_stays r h))))
closed_stays (next r (release_move o)) h = absurd (h (ap is_open (sym (closed_stays r h)) ∙ o))
closed_stays (next r (unknown_move o)) h = absurd (h (ap is_open (sym (closed_stays r h)) ∙ o))

open_or_same : (st su : ReservationStatus) → st ⟶* su → (is_open st ≡ true) ⊎ (su ≡ st)
open_or_same st su m = elim (Bool-cases (is_open st)) [
  | inl e ↦ inl e
  | inr n ↦ inr (closed_stays m (ground arith))
]

module _ (api : Decimals) where
  open api use {Decimal}

  -- What remains of the reservation `r`, with the id `i`, in a later store.
  pub record Continues (i : ℕ) (r : Reservation Decimal) (s : Store Decimal) : Type 0 where
    pub row : Reservation Decimal
    pub there : find_first (has_id i) s.reservations ≡ some row
    pub status_moves : r.status ⟶* row.status
    pub same_amount : row.amount ≡ r.amount
    pub same_account : row.financial_account_id ≡ r.financial_account_id
    pub same_company : row.company_id ≡ r.company_id

  module _ (i : ℕ) (r : Reservation Decimal) where
    abbrev Follows : Store Decimal → Type 0
    Follows s = IsKeyed api s × Continues i r s

    -- One reservation makes a move.
    move-Continues :
        (res : Reservation Decimal) (f : Reservation Decimal → Reservation Decimal)
        (s s' : Store Decimal)
        → ((x : Reservation Decimal) → (f x).id ≡ x.id)
        → (f res).amount ≡ res.amount
        → (f res).financial_account_id ≡ res.financial_account_id
        → (f res).company_id ≡ res.company_id
        → res.status ⟶ (f res).status
        → find_first (has_id res.id) s.reservations ≡ some res
        → s'.reservations ≡ update_first (has_id res.id) f s.reservations
        → Continues i r s
        → Continues i r s'
    move-Continues res f s s' keeps am ac co st found e c = elim (ℕ_discrete res.id i) [
      | yes same ↦
          let at_i : find_first (has_id i) s.reservations ≡ some res =
            subst (λ k. find_first (has_id k) s.reservations ≡ some res) same found in
          let it : c.row ≡ res = cc (c.there, at_i) in
          record {
            row = f res;
            there = rw e (
                subst
                  (λ k.
                    find_first (has_id k) (update_first (has_id res.id) f s.reservations)
                    ≡ some (f res))
                  same
                  (find_first-update_self (has_id res.id) f s.reservations {r = res}
                    (ground (arith, keeps res)) found));
            status_moves =
                next (subst (λ x. r.status ⟶* Reservation.status x) it c.status_moves) st;
            same_amount = am ∙ (ap Reservation.amount (sym it) ∙ c.same_amount);
            same_account = ac ∙ (ap Reservation.financial_account_id (sym it) ∙ c.same_account);
            same_company = co ∙ (ap Reservation.company_id (sym it) ∙ c.same_company);
          }
      | no other ↦ record {
        row = c.row;
        there =
            rw e (find-update_ne Reservation.id res.id i f keeps s.reservations other ∙ c.there);
        status_moves = c.status_moves;
        same_amount = c.same_amount;
        same_account = c.same_account;
        same_company = c.same_company;
      }
    ]

    -- A new row leaves it.
    append-Continues :
        (x : Reservation Decimal) (s s' : Store Decimal)
        → s'.reservations ≡ s.reservations ++ x ∷ []
        → Continues i r s
        → Continues i r s'
    append-Continues x s s' e c = record {
      row = c.row;
      there = rw e (find_first-append_some (has_id i) s.reservations (x ∷ []) {r = c.row} c.there);
      status_moves = c.status_moves;
      same_amount = c.same_amount;
      same_account = c.same_account;
      same_company = c.same_company;
    }

    Follows-Kept : Kept api (Any api) Follows
    Follows-Kept = record {
      on_account = λ key limit s fit b. (
        k.on_account key limit s fit b.0,
        record {
          row = b.1.row;
          there = b.1.there;
          status_moves = b.1.status_moves;
          same_amount = b.1.same_amount;
          same_account = b.1.same_account;
          same_company = b.1.same_company;
        },
      );
      on_reserve = λ key execution amount a s row fit b there under. (
        k.on_reserve key execution amount a s row fit b.0 there under,
        append-Continues _ s _ refl b.1,
      );
      on_commit = λ now company id res s row b found e there. (
        k.on_commit now company id res s row b.0 found e there,
        move-Continues res (mark_committed api now) s _ (λ x. refl) refl refl refl
            (rw e commit_move) (owned_is_row api company id s b.0 found) refl b.1,
      );
      on_release = λ now company id res s row b found e there. (
        k.on_release now company id res s row b.0 found e there,
        move-Continues res (mark_released api now) s _ (λ x. refl) refl refl refl (release_move e)
            (owned_is_row api company id s b.0 found) refl b.1,
      );
      on_unknown = λ company id res s b found e. (
        k.on_unknown company id res s b.0 found e,
        move-Continues res mark_as_unknown s _ (λ x. refl) refl refl refl (unknown_move e)
            (owned_is_row api company id s b.0 found) refl b.1,
      );
    }
      where
        k : Kept api (Any api) (IsKeyed api)
        k = Keyed-Kept api (Any api)

  -- After any calls in any order, a reservation is still there under its id, with the same amount,
  -- account and company, and its status has changed along the moves alone: RESERVED to COMMITTED,
  -- RELEASED or UNKNOWN, and UNKNOWN to RELEASED (or UNKNOWN again). So one that is COMMITTED or
  -- RELEASED keeps its status for ever.
  pub reservation_history :
      (cs : List (Call api)) (s : Store Decimal) (i : ℕ) (r : Reservation Decimal)
      → IsKeyed api s
      → find_first (has_id i) s.reservations ≡ some r
      → (c : Continues i r (perform_all api cs s)) × ((is_open r.status ≡ true)
          ⊎ (c.row.status ≡ r.status))
  reservation_history cs s i r b found =
      let later = perform_all-keeps api (Any api) (Follows-Kept i r) cs s (Any-calls api cs) (
        b,
        record {
          row = r;
          there = found;
          status_moves = here;
          same_amount = refl;
          same_account = refl;
          same_company = refl;
        },
      ) in
      (later.1, open_or_same r.status later.1.row.status later.1.status_moves)

-- ===== src/Financial/Balance.antt =====
-- The balances of every account are the sums of its reservations, whatever is called, while
-- decimal.js has no cause to round.
use orvex.Prelude.{ℕ, ◌≡◌, refl, sym, some, none, true, Option, ◌∷◌, List, [], arith, ◌==◌}
use orvex.Prelude.Int.{ℤ, ◌+ℤ◌, ◌-ℤ◌, pos, int_laws}
use orvex.Runtime.{Decimals}
use orvex.Table.{find_first}
use orvex.Table.Keys.{find-own_key}
use orvex.Financial.Store.{Reservation, ReservationStatus, reserved, Store, owned_row, has_id}
use orvex.Financial.Service.{new_account, new_reservation}
use orvex.Financial.Calls.{
  Call, ensure_account_call, reserve_call, commit_call, release_call, reconcile_call,
  mark_unknown_call, perform_all, empty_store,
}
use orvex.Financial.Steps.{
  after_commit, after_release, mark_committed, mark_released, held_row, after_reserve,
}
use orvex.Financial.Sums.{
  IsKeyed, AllExact, IsBalanced, held_by_status, spent_by_status, add_account-IsKeyed,
  add_account-AllExact,
}
use orvex.Financial.Writes.{
  write-IsKeyed, write-AllExact, reserve-IsKeyed, reserve-AllExact, relabel-IsKeyed,
  relabel-AllExact,
}
use orvex.Financial.Precision.{HasRoom, amounts, HasRoom-update, HasRoom-append}
use orvex.Financial.Columns.{minus_reserved, plus_committed, plus_reserved}
use orvex.Financial.Induction.{
  is_open, mark_as_unknown, FitsLimit, FitsCall, FitsCalls, Kept, perform_all-keeps,
}

module _ (api : Decimals) where
  open api use {Decimal, parse, units, zero_units}

  minus_back : (r x y : ℤ) → y ≡ r -ℤ x → y +ℤ x ≡ r +ℤ pos 0
  minus_back r x y h = rw h (omega int_laws)

  plus_back : (c x y : ℤ) → y ≡ c +ℤ x → y +ℤ pos 0 ≡ c +ℤ x
  plus_back c x y h = rw h (omega int_laws)

  plus_nothing : (x : ℤ) → x +ℤ pos 0 ≡ x
  plus_nothing x = omega int_laws

  pub held_open : (st : ReservationStatus) (x : ℤ) → is_open st ≡ true → held_by_status api st x ≡ x
  held_open st x h = ground arith

  pub spent_open :
      (st : ReservationStatus) (x : ℤ) → is_open st ≡ true → spent_by_status api st x ≡ pos 0
  spent_open st x h = ground arith

  -- The row that a query by id and company finds is the row of that id.
  pub owned_is_row :
      (company id : ℕ) (s : Store Decimal) {res : Reservation Decimal}
      → IsKeyed api s
      → owned_row s company id ≡ some res
      → find_first (has_id res.id) s.reservations ≡ some res
  owned_is_row company id s b h =
      find-own_key Reservation.id id (λ r. r.company_id == company) s.reservations b.distinct_ids h

  module _ (Fits : Decimal → Type 0) where
    pub Keyed-Kept : Kept api Fits (IsKeyed api)
    unfolding new_account new_reservation
    Keyed-Kept = record {
      on_account = λ key limit s _ b. add_account-IsKeyed api _ s b refl;
      on_reserve = λ key execution amount a s row _ b there under.
          reserve-IsKeyed api s b a row there (after_reserve api key execution amount a s row)
            (λ x. refl) (held_row api key execution amount a s) refl refl;
      on_commit = λ now company id res s row b found e there.
          write-IsKeyed api s b res.financial_account_id row there (after_commit api row res.amount)
            (λ x. refl) res (owned_is_row company id s b found) refl (mark_committed api now)
            (λ x. refl) (λ x. refl);
      on_release = λ now company id res s row b found e there.
          write-IsKeyed api s b res.financial_account_id row there
            (after_release api row res.amount) (λ x. refl) res (owned_is_row company id s b found)
            refl (mark_released api now) (λ x. refl) (λ x. refl);
      on_unknown = λ company id res s b found e.
          relabel-IsKeyed api s b res (owned_is_row company id s b found) mark_as_unknown
            (λ x. refl) (λ x. refl);
    }

    module _ (k : ℕ) where
      abbrev pub Room : Store Decimal → Type 0
      Room s = HasRoom api k (amounts api s.reservations)

      -- The balances are exact as long as there is room.
      abbrev pub ExactInRoom : Store Decimal → Type 0
      ExactInRoom s = IsKeyed api s × (Room s → AllExact api s)

      reserved_now : (st : ReservationStatus) → st ≡ reserved → is_open st ≡ true
      reserved_now st e = rw e refl

      pub ExactInRoom-Kept : Kept api Fits ExactInRoom
      unfolding new_account new_reservation
      ExactInRoom-Kept = record {
        on_account = λ key limit s fit b. (
          Keyed-Kept.on_account key limit s fit b.0,
          λ room. add_account-AllExact api _ s b.0 (b.1 room) refl zero_units zero_units,
        );
        on_reserve = λ key execution amount a s row fit b there under. (
          Keyed-Kept.on_reserve key execution amount a s row fit b.0 there under,
          λ room.
              let new = held_row api key execution amount a s in
              let exact = b.1 (HasRoom-append api k s.reservations new room) in
              reserve-AllExact api s b.0 a row there
                (after_reserve api key execution amount a s row) (λ x. refl) new refl refl exact
                (plus_reserved api k s b.0 a row there new refl refl refl exact room)
                (sym (plus_nothing (units row.current_committed))),
        );
        on_commit = λ now company id res s row b found e there. (
          Keyed-Kept.on_commit now company id res s row b.0 found e there,
          λ room.
              let it = owned_is_row company id s b.0 found in
              let f = mark_committed api now in
              let exact =
                b.1 (HasRoom-update api k (has_id res.id) f (λ x. refl) s.reservations room) in
              let held = held_open res.status (units res.amount) (reserved_now res.status e) in
              let spent = spent_open res.status (units res.amount) (reserved_now res.status e) in
              write-AllExact api s b.0 res.financial_account_id row there
                (after_commit api row res.amount) (λ x. refl) res it refl f (λ x. refl) (λ x. refl)
                exact
                (rw held (
                  minus_back (units row.current_reserved) (units res.amount) _ (
                    minus_reserved api k s b.0 res it row there f (λ x. refl) (λ x. refl) exact room
                      held refl)))
                (rw spent (
                  plus_back (units row.current_committed) (units res.amount) _ (
                    plus_committed api k s b.0 res it row there f (λ x. refl) (λ x. refl) exact room
                      spent refl))),
        );
        on_release = λ now company id res s row b found e there. (
          Keyed-Kept.on_release now company id res s row b.0 found e there,
          λ room.
              let it = owned_is_row company id s b.0 found in
              let f = mark_released api now in
              let exact =
                b.1 (HasRoom-update api k (has_id res.id) f (λ x. refl) s.reservations room) in
              let held = held_open res.status (units res.amount) e in
              write-AllExact api s b.0 res.financial_account_id row there
                (after_release api row res.amount) (λ x. refl) res it refl f (λ x. refl) (λ x. refl)
                exact
                (rw held (
                  minus_back (units row.current_reserved) (units res.amount) _ (
                    minus_reserved api k s b.0 res it row there f (λ x. refl) (λ x. refl) exact room
                      held refl)))
                (rw (spent_open res.status (units res.amount) e)),
        );
        on_unknown = λ company id res s b found e. (
          Keyed-Kept.on_unknown company id res s b.0 found e,
          λ room.
              relabel-AllExact api s b.0 res (owned_is_row company id s b.0 found) mark_as_unknown
                (λ x. refl) (λ x. refl)
                (b.1 (
                  HasRoom-update api k (has_id res.id) mark_as_unknown (λ x. refl) s.reservations
                    room))
                (held_open res.status (units res.amount) e)
                (spent_open res.status (units res.amount) e),
        );
      }

  abbrev pub Any : Decimal → Type 0
  Any _ = Unit

  Any-limit : (o : Option Decimal) → FitsLimit api Any o
  Any-limit none = tt
  Any-limit (some x) = tt

  Any-call : (c : Call api) → FitsCall api Any c
  Any-call (ensure_account_call key limit) = Any-limit limit
  Any-call (reserve_call key execution text) = Any-limit (parse text)
  Any-call (commit_call now company id) = tt
  Any-call (release_call now company id) = tt
  Any-call (reconcile_call now company id) = tt
  Any-call (mark_unknown_call company id) = tt

  pub Any-calls : (cs : List (Call api)) → FitsCalls api Any cs
  Any-calls [] = tt
  Any-calls (c ∷ cs) = (Any-call c, Any-calls cs)

  pub empty-IsKeyed : IsKeyed api (empty_store api)
  empty-IsKeyed = record { account_ids = tt; reservation_ids = tt; distinct_ids = tt; owners = tt }

  pub perform_all-IsKeyed :
      (cs : List (Call api)) (s : Store Decimal)
      → IsKeyed api s
      → IsKeyed api (perform_all api cs s)
  perform_all-IsKeyed cs s b = perform_all-keeps api Any (Keyed-Kept Any) cs s (Any-calls cs) b

  pub empty-IsBalanced : IsBalanced api (empty_store api)
  empty-IsBalanced = record { keyed = empty-IsKeyed; exact = λ a acc h. absurd (ground (arith, h)) }

  -- After any calls in any order, successful or not, on a database whose balances are exact: every
  -- account's reserved total is the sum of its reservations that are RESERVED or UNKNOWN, its
  -- committed total is the sum of those that are COMMITTED, and ids stay distinct. The condition is
  -- that for some k the amounts of all the reservations in the end count whole steps of 10^k units
  -- of 10^-18, and together, whatever their signs, come to less than 10^20 steps, as decimal.js
  -- keeps twenty digits.
  pub perform_all-IsBalanced :
      (k : ℕ) (cs : List (Call api)) (s : Store Decimal)
      → IsBalanced api s
      → HasRoom api k (amounts api (perform_all api cs s).reservations)
      → IsBalanced api (perform_all api cs s)
  perform_all-IsBalanced k cs s b room =
      let later =
        perform_all-keeps api Any (ExactInRoom-Kept Any k) cs s (Any-calls cs)
          (b.keyed, λ _. b.exact) in
      record { keyed = later.0; exact = later.1 room }

-- ===== src/Financial/Budget.antt =====
-- A budget is never exceeded, as long as no amount and no limit is negative and decimal.js has no
-- cause to round.
use native.Mathlib.Decide.{dec_le}
use orvex.Prelude.{
  ℕ, ◌+◌, ◌≡◌, refl, true, false, Option, none, some, List, [], ◌∷◌, ◌++◌, arith, All, All-append,
}
use orvex.Prelude.Int.{ℤ, ◌+ℤ◌, ◌-ℤ◌, ◌≤ℤ◌, pos, pos_part, neg_part, int_laws}
use orvex.Runtime.{Decimals}
use orvex.Table.{update_first, All-find, All-update, All-update_any}
use orvex.Financial.Store.{
  Account, Reservation, reserved, Store, account_row, owned_row, is_owned, has_account_id, has_id,
}
use orvex.Financial.Service.{new_account, new_reservation, exceeds}
use orvex.Financial.Calls.{Call, perform_all}
use orvex.Financial.Steps.{
  after_commit, after_release, mark_committed, mark_released, held_row, after_reserve,
}
use orvex.Financial.Induction.{
  is_open, FitsLimit, mark_as_unknown, FitsCalls, Kept, perform_all-keeps,
}
use orvex.Financial.Sums.{IsBalanced}
use orvex.Financial.Precision.{HasRoom, amounts, HasRoom-update, HasRoom-append}
use orvex.Financial.Columns.{
  minus_reserved, plus_committed, plus_reserved, plus_used, plus_projected,
}
use orvex.Financial.Balance.{
  owned_is_row, held_open, spent_open, ExactInRoom, ExactInRoom-Kept, Room,
}

module _ (api : Decimals) where
  open api use {Decimal, zero_decimal, units, plus, minus, greater_than, zero_units, gt_iff}

  abbrev pub IsNonneg : Decimal → Type 0
  IsNonneg x = pos 0 ≤ℤ units x

  abbrev WithinLimit : ℤ → Option Decimal → Type 0
  WithinLimit x none = Unit
  WithinLimit x (some limit) = x ≤ℤ units limit

  -- What is reserved and committed together stays within the account's limit.
  abbrev pub IsWithin : Account Decimal → Type 0
  IsWithin a = WithinLimit (units a.current_reserved +ℤ units a.current_committed) a.limit_amount

  abbrev pub HasNonneg : Reservation Decimal → Type 0
  HasNonneg r = IsNonneg r.amount

  abbrev pub IsFunded : Store Decimal → Type 0
  IsFunded s = All IsWithin s.accounts × All HasNonneg s.reservations

  le_of_not_gt : (a b : Decimal) → greater_than a b ≡ false → units a ≤ℤ units b
  le_of_not_gt a b h =
      elim (dec_le (pos_part (units a) + neg_part (units b))
        (pos_part (units b) + neg_part (units a))) [
          | yes le ↦ le
          | no gt ↦ absurd (cc (h, (gt_iff a b).1 gt))
        ]

  WithinLimit-mono : (x y : ℤ) (l : Option Decimal) → y ≤ℤ x → WithinLimit x l → WithinLimit y l
  WithinLimit-mono x y none h w = tt
  WithinLimit-mono x y (some l) h w = omega arith

  under_limit :
      (x : Decimal) (l : Option Decimal) → exceeds api x l ≡ false → WithinLimit (units x) l
  under_limit x none h = tt
  under_limit x (some l) h = le_of_not_gt x l h

  nonneg_limit : (l : Option Decimal) → FitsLimit api IsNonneg l → WithinLimit (pos 0) l
  nonneg_limit none h = tt
  nonneg_limit (some l) h = h

  -- The order of the three summands does not matter, and a released amount only lowers them.
  regroup : (r c x r' u u' : ℤ) → r' ≡ r +ℤ x → u ≡ r +ℤ c → u' ≡ u +ℤ x → r' +ℤ c ≤ℤ u'
  regroup r c x r' u u' h g e = rw (e, g, h) (omega int_laws)

  moved : (r c x r' c' : ℤ) → r' ≡ r -ℤ x → c' ≡ c +ℤ x → r' +ℤ c' ≤ℤ r +ℤ c
  moved r c x r' c' h g = rw (h, g) (omega int_laws)

  lowered : (r c x r' : ℤ) → pos 0 ≤ℤ x → r' ≡ r -ℤ x → r' +ℤ c ≤ℤ r +ℤ c
  lowered r c x r' p h = rw h (omega (int_laws, p))

  within_new :
      (l : Option Decimal)
      → FitsLimit api IsNonneg l
      → WithinLimit (units zero_decimal +ℤ units zero_decimal) l
  within_new l h =
      WithinLimit-mono (pos 0) (units zero_decimal +ℤ units zero_decimal) l
        (rw zero_units (omega int_laws)) (nonneg_limit l h)

  module _ (k : ℕ) where
    -- What is known of the store: the balances and the limits hold as long as there is room.
    abbrev FundedInRoom : Store Decimal → Type 0
    FundedInRoom s =
        ExactInRoom api IsNonneg k s
        × ((Room api IsNonneg k s → All IsWithin s.accounts) × All HasNonneg s.reservations)

    abbrev exact_part : Kept api IsNonneg (ExactInRoom api IsNonneg k)
    exact_part = ExactInRoom-Kept api IsNonneg k

    module _ (s : Store Decimal) (b : FundedInRoom s) where
      within_reserve :
          (a : ℕ) (row : Account Decimal) (new : Reservation Decimal)
          → account_row s a ≡ some row
          → new.id ≡ s.next_id
          → new.financial_account_id ≡ a
          → new.status ≡ reserved
          → HasRoom api k (amounts api (s.reservations ++ new ∷ []))
          → exceeds api
              (plus (plus row.current_reserved row.current_committed) new.amount)
              row.limit_amount
            ≡ false
          → WithinLimit
              (units (plus row.current_reserved new.amount) +ℤ units row.current_committed)
              row.limit_amount
      within_reserve a row new there i o h room under =
          let exact = b.0.1 (HasRoom-append api k s.reservations new room) in
          let projected = plus (plus row.current_reserved row.current_committed) new.amount in
          WithinLimit-mono (units projected) _ row.limit_amount
            (regroup (units row.current_reserved) (units row.current_committed) (units new.amount) _
              _ _ (plus_reserved api k s b.0.0 a row there new i o h exact room)
              (plus_used api k s b.0.0 a row there new i o h exact room)
              (plus_projected api k s b.0.0 a row there new i o h exact room))
            (under_limit projected row.limit_amount under)

      module _ (company id : ℕ) (res : Reservation Decimal) (row : Account Decimal)
          (found : owned_row s company id ≡ some res) (open_hold : is_open res.status ≡ true)
          (there : account_row s res.financial_account_id ≡ some row) where
        before :
            Room api IsNonneg k s
            → WithinLimit
                (units row.current_reserved +ℤ units row.current_committed)
                row.limit_amount
        before room =
            All-find IsWithin (has_account_id res.financial_account_id) s.accounts {r = row}
              (b.1.0 room) there

        within_commit :
            (now : ℕ)
            → HasRoom api k
                (amounts api (update_first (has_id res.id) (mark_committed api now) s.reservations))
            → WithinLimit
                (units (minus row.current_reserved res.amount)
                  +ℤ units (plus row.current_committed res.amount))
                row.limit_amount
        within_commit now room =
            let it = owned_is_row api company id s b.0.0 found in
            let f = mark_committed api now in
            let old = HasRoom-update api k (has_id res.id) f (λ x. refl) s.reservations room in
            let held = held_open api res.status (units res.amount) open_hold in
            let spent = spent_open api res.status (units res.amount) open_hold in
            WithinLimit-mono (units row.current_reserved +ℤ units row.current_committed) _
              row.limit_amount
              (moved (units row.current_reserved) (units row.current_committed) (units res.amount) _
                _
                (minus_reserved api k s b.0.0 res it row there f (λ x. refl) (λ x. refl) (b.0.1 old)
                  room held refl)
                (plus_committed api k s b.0.0 res it row there f (λ x. refl) (λ x. refl) (b.0.1 old)
                  room spent refl))
              (before old)

        within_release :
            (now : ℕ)
            → HasRoom api k
                (amounts api (update_first (has_id res.id) (mark_released api now) s.reservations))
            → WithinLimit
                (units (minus row.current_reserved res.amount) +ℤ units row.current_committed)
                row.limit_amount
        within_release now room =
            let it = owned_is_row api company id s b.0.0 found in
            let f = mark_released api now in
            let old = HasRoom-update api k (has_id res.id) f (λ x. refl) s.reservations room in
            let held = held_open api res.status (units res.amount) open_hold in
            WithinLimit-mono (units row.current_reserved +ℤ units row.current_committed) _
              row.limit_amount
              (lowered (units row.current_reserved) (units row.current_committed) (units res.amount)
                _ (All-find HasNonneg (is_owned company id) s.reservations {r = res} b.1.1 found)
                (minus_reserved api k s b.0.0 res it row there f (λ x. refl) (λ x. refl) (b.0.1 old)
                  room held refl))
              (before old)

    Funded-Kept : Kept api IsNonneg FundedInRoom
    unfolding new_account new_reservation
    Funded-Kept = record {
      on_account = λ key limit s fit b. (
        exact_part.on_account key limit s fit b.0,
        (λ room. All-append IsWithin s.accounts _ (b.1.0 room) (within_new limit fit, tt), b.1.1),
      );
      on_reserve = λ key execution amount a s row fit b there under. (
        exact_part.on_reserve key execution amount a s row fit b.0 there under,
        (
          λ room.
              let new = held_row api key execution amount a s in
              All-update IsWithin (has_account_id a)
                (after_reserve api key execution amount a s row) s.accounts {r = row}
                (b.1.0 (HasRoom-append api k s.reservations new room)) there
                (within_reserve s b a row new there refl refl refl room under),
          All-append HasNonneg s.reservations _ b.1.1 (fit, tt),
        ),
      );
      on_commit = λ now company id res s row b found e there. (
        exact_part.on_commit now company id res s row b.0 found e there,
        (
          λ room.
              All-update IsWithin (has_account_id res.financial_account_id)
                (after_commit api row res.amount) s.accounts {r = row}
                (b.1.0 (
                  HasRoom-update api k (has_id res.id) (mark_committed api now) (λ x. refl)
                    s.reservations room))
                there (within_commit s b company id res row found (rw e refl) there now room),
          All-update_any HasNonneg (has_id res.id) (mark_committed api now) (λ x h. h)
              s.reservations b.1.1,
        ),
      );
      on_release = λ now company id res s row b found e there. (
        exact_part.on_release now company id res s row b.0 found e there,
        (
          λ room.
              All-update IsWithin (has_account_id res.financial_account_id)
                (after_release api row res.amount) s.accounts {r = row}
                (b.1.0 (
                  HasRoom-update api k (has_id res.id) (mark_released api now) (λ x. refl)
                    s.reservations room))
                there (within_release s b company id res row found e there now room),
          All-update_any HasNonneg (has_id res.id) (mark_released api now) (λ x h. h) s.reservations
              b.1.1,
        ),
      );
      on_unknown = λ company id res s b found e. (
        exact_part.on_unknown company id res s b.0 found e,
        (
          λ room. b.1.0 (
              HasRoom-update api k (has_id res.id) mark_as_unknown (λ x. refl) s.reservations room),
          All-update_any HasNonneg (has_id res.id) mark_as_unknown (λ x h. h) s.reservations b.1.1,
        ),
      );
    }

    -- After any calls in any order whose reserved amounts and account limits are not negative, on a
    -- database whose balances are exact and where this holds of the rows already: on no account do
    -- the reserved and the committed total together exceed the limit. The condition is that for
    -- some k the amounts of all the reservations in the end count whole steps of 10^k units of
    -- 10^-18, and together come to less than 10^20 steps, as decimal.js keeps twenty digits.
    pub perform_all-IsFunded :
        (cs : List (Call api)) (s : Store Decimal)
        → FitsCalls api IsNonneg cs
        → IsBalanced api s
        → IsFunded s
        → HasRoom api k (amounts api (perform_all api cs s).reservations)
        → IsFunded (perform_all api cs s)
    perform_all-IsFunded cs s fit e b room =
        let later =
          perform_all-keeps api IsNonneg Funded-Kept cs s fit
            ((e.keyed, λ _. e.exact), (λ _. b.0, b.1)) in
        (later.1.0 room, later.1.1)

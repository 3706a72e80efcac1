-- ===== src/Financial/Writes.antt =====
-- The writes of the financial service: a reservation and its account's balances that move alike
-- keep every account's balances exact.
use orvex.Prelude.{==_iff, All-append}
use orvex.Prelude.{ℕ, suc, ◌<◌, ◌≡◌, ◌≢◌, sym, ◌∙◌, true, some, List, [], ◌∷◌, ◌++◌, arith}
use orvex.Prelude.Int.{ℤ, pos, ◌+ℤ◌, shift_eq, shift_zero, shift_same, add_eq_zero}
use orvex.Runtime.{Decimals}
use mathlib.Core.Path.{subst}
use native.Mathlib.Decide.{ℕ_discrete}
use orvex.Table.{
  find_first-holds, find_first, update_first, total, find_first-update_self, total-update,
  total-append_one,
}
use orvex.Table.Keys.{
  Below-mono, Below-find, Below-add, Distinct-add, Below-update, Distinct-update, find-update_ne,
}
use orvex.Financial.Store.{
  Account, Reservation, Store, account_row, has_account_id, has_id, add_reservation, set_account,
  set_reservation,
}
use orvex.Financial.Sums.{IsExact, IsKeyed, AllExact, held_of, spent_of, of_account}

module _ (api : Decimals) where
  open api use {Decimal, units}

  -- A write to one account and one of its reservations that moves both alike.
  module _ (s : Store Decimal) (b : IsKeyed api s) (a : ℕ) (acc : Account Decimal)
      (found : account_row s a ≡ some acc) (g : Account Decimal → Account Decimal)
      (g_keeps : (x : Account Decimal) → (g x).id ≡ x.id) where
    others :
        (exact : AllExact api s) (c : ℕ) (x : Account Decimal)
        → a ≢ c
        → account_row (set_account a g s) c ≡ some x
        → IsExact api s.reservations c x
    others exact c x ne h =
        exact c x (sym (find-update_ne Account.id a c g g_keeps s.accounts ne) ∙ h)

    own : (x : Account Decimal) → account_row (set_account a g s) a ≡ some x → g acc ≡ x
    own x h = cc (find_first-update_self (has_account_id a) g s.accounts {r = acc} same found, h)
      where
        same : (has_account_id a (g acc)) ≡ true
        same =
            ground
              (arith, g_keeps acc, find_first-holds (has_account_id a) s.accounts {r = acc} found)

    -- The account's new balances are the sums over the new rows.
    module _ (exact : AllExact api s) (rows : List (Reservation Decimal))
        (mine : IsExact api rows a (g acc))
        (rest : (c : ℕ) (x : Account Decimal)
          → a ≢ c
          → IsExact api s.reservations c x
          → IsExact api rows c x) where
      IsExact-after :
          (c : ℕ) (x : Account Decimal)
          → account_row (set_account a g s) c ≡ some x
          → IsExact api rows c x
      IsExact-after c x h = elim (ℕ_discrete a c) [
        | yes e ↦
            subst (λ k. IsExact api rows k x) e
              (subst (λ y. IsExact api rows a y)
                (own x (subst (λ k. account_row (set_account a g s) k ≡ some x) (sym e) h)) mine)
        | no ne ↦ rest c x ne (others exact c x ne h)
      ]

    -- One of the account's reservations changes.
    module _ (res : Reservation Decimal)
        (res_found : find_first (has_id res.id) s.reservations ≡ some res)
        (owned : res.financial_account_id ≡ a) (f : Reservation Decimal → Reservation Decimal)
        (f_keeps : (x : Reservation Decimal) → (f x).id ≡ x.id)
        (f_owner : (x : Reservation Decimal)
          → (f x).financial_account_id ≡ x.financial_account_id) where
      abbrev rewritten : List (Reservation Decimal)
      rewritten = update_first (has_id res.id) f s.reservations

      moved :
          (w : Reservation Decimal → ℤ) (c : ℕ)
          → total (of_account api c w) rewritten +ℤ of_account api c w res
            ≡ total (of_account api c w) s.reservations +ℤ of_account api c w (f res)
      moved w c = total-update (has_id res.id) (of_account api c w) f s.reservations res_found

      pub mine_moved :
          (w : Reservation Decimal → ℤ)
          → total (of_account api a w) rewritten +ℤ w res
            ≡ total (of_account api a w) s.reservations +ℤ w (f res)
      mine_moved w =
          let z : of_account api a w res ≡ w res = ground arith in
          let z' : of_account api a w (f res) ≡ w (f res) = ground (arith, f_owner res) in
          rw (← z, ← z') (moved w a)

      rest_kept :
          (w : Reservation Decimal → ℤ) (c : ℕ)
          → a ≢ c
          → total (of_account api c w) rewritten ≡ total (of_account api c w) s.reservations
      rest_kept w c ne =
          let z : of_account api c w res ≡ pos 0 = ground arith in
          let z' : of_account api c w (f res) ≡ pos 0 = ground (arith, f_owner res) in
          shift_zero _ _ _ _ (moved w c) z z'

      pub write-AllExact :
          AllExact api s
          → units (g acc).current_reserved +ℤ held_of api res
            ≡ units acc.current_reserved +ℤ held_of api (f res)
          → units (g acc).current_committed +ℤ spent_of api res
            ≡ units acc.current_committed +ℤ spent_of api (f res)
          → AllExact api (set_reservation res.id f (set_account a g s))
      write-AllExact exact hr hc =
          IsExact-after exact rewritten
            (record {
              reserved_exact =
                  shift_eq _ _ _ _ _ _ hr (mine_moved (held_of api))
                    (exact a acc found).reserved_exact;
              committed_exact =
                  shift_eq _ _ _ _ _ _ hc (mine_moved (spent_of api))
                    (exact a acc found).committed_exact;
            })
            (λ c x ne e. record {
              reserved_exact = e.reserved_exact ∙ sym (rest_kept (held_of api) c ne);
              committed_exact = e.committed_exact ∙ sym (rest_kept (spent_of api) c ne);
            })

      pub write-IsKeyed : IsKeyed api (set_reservation res.id f (set_account a g s))
      write-IsKeyed = record {
        account_ids =
            Below-update Account.id g g_keeps (has_account_id a) s.next_id s.accounts b.account_ids;
        reservation_ids =
            Below-update Reservation.id f f_keeps (has_id res.id) s.next_id s.reservations
              b.reservation_ids;
        distinct_ids =
            Distinct-update Reservation.id f f_keeps (has_id res.id) s.reservations b.distinct_ids;
        owners =
            Below-update Reservation.financial_account_id f f_owner (has_id res.id) s.next_id
              s.reservations b.owners;
      }

    -- The account takes a new reservation.
    module _ (row : Reservation Decimal) (row_id : row.id ≡ s.next_id)
        (owned : row.financial_account_id ≡ a) where
      pub added :
          (w : Reservation Decimal → ℤ)
          → total (of_account api a w) (s.reservations ++ row ∷ [])
            ≡ total (of_account api a w) s.reservations +ℤ w row
      added w =
          let z : of_account api a w row ≡ w row = ground arith in
          rw (← z) (total-append_one (of_account api a w) s.reservations row)

      rest_added :
          (w : Reservation Decimal → ℤ) (c : ℕ)
          → a ≢ c
          → total (of_account api c w) (s.reservations ++ row ∷ [])
            ≡ total (of_account api c w) s.reservations
      rest_added w c ne =
          let z : of_account api c w row ≡ pos 0 = ground arith in
          add_eq_zero _ _ _ (total-append_one (of_account api c w) s.reservations row) z

      owner_below : row.financial_account_id < suc s.next_id
      owner_below = omega (
        arith,
        Below-find Account.id (has_account_id a) s.next_id s.accounts {r = acc} b.account_ids found,
        (==_iff acc.id a).0 (find_first-holds (has_account_id a) s.accounts {r = acc} found),
      )

      pub reserve-AllExact :
          AllExact api s
          → units (g acc).current_reserved ≡ units acc.current_reserved +ℤ held_of api row
          → units (g acc).current_committed ≡ units acc.current_committed +ℤ spent_of api row
          → AllExact api (set_account a g (add_reservation row s))
      reserve-AllExact exact hr hc =
          IsExact-after exact (s.reservations ++ row ∷ [])
            (record {
              reserved_exact = cc (hr, added (held_of api), (exact a acc found).reserved_exact);
              committed_exact = cc (hc, added (spent_of api), (exact a acc found).committed_exact);
            })
            (λ c x ne e. record {
              reserved_exact = e.reserved_exact ∙ sym (rest_added (held_of api) c ne);
              committed_exact = e.committed_exact ∙ sym (rest_added (spent_of api) c ne);
            })

      pub reserve-IsKeyed : IsKeyed api (set_account a g (add_reservation row s))
      reserve-IsKeyed = record {
        account_ids =
            Below-update Account.id g g_keeps (has_account_id a) (suc s.next_id) s.accounts (
              Below-mono Account.id s.next_id (suc s.next_id) s.accounts (omega arith)
                b.account_ids);
        reservation_ids =
            Below-add Reservation.id s.next_id s.reservations row b.reservation_ids row_id;
        distinct_ids =
            Distinct-add Reservation.id s.next_id s.reservations row b.reservation_ids row_id
              b.distinct_ids;
        owners =
            All-append (λ r. r.financial_account_id < suc s.next_id) s.reservations (row ∷ [])
              (Below-mono Reservation.financial_account_id s.next_id (suc s.next_id) s.reservations
                (omega arith) b.owners)
              (owner_below, tt);
      }

  -- A change of one reservation that keeps what it holds and what it has spent.
  module _ (s : Store Decimal) (b : IsKeyed api s) (res : Reservation Decimal)
      (res_found : find_first (has_id res.id) s.reservations ≡ some res)
      (f : Reservation Decimal → Reservation Decimal)
      (f_keeps : (x : Reservation Decimal) → (f x).id ≡ x.id)
      (f_owner : (x : Reservation Decimal)
        → (f x).financial_account_id ≡ x.financial_account_id) where
    total_kept :
        (w : Reservation Decimal → ℤ) (c : ℕ)
        → w res ≡ w (f res)
        → total (of_account api c w) (update_first (has_id res.id) f s.reservations)
          ≡ total (of_account api c w) s.reservations
    total_kept w c e =
        shift_same _ _ _ _
          (total-update (has_id res.id) (of_account api c w) f s.reservations res_found)
          (ground (arith, f_owner res))

    pub relabel-AllExact :
        AllExact api s
        → held_of api res ≡ held_of api (f res)
        → spent_of api res ≡ spent_of api (f res)
        → AllExact api (set_reservation res.id f s)
    relabel-AllExact exact eh es a acc h = record {
      reserved_exact = (exact a acc h).reserved_exact ∙ sym (total_kept (held_of api) a eh);
      committed_exact = (exact a acc h).committed_exact ∙ sym (total_kept (spent_of api) a es);
    }

    pub relabel-IsKeyed : IsKeyed api (set_reservation res.id f s)
    relabel-IsKeyed = record {
      account_ids = b.account_ids;
      reservation_ids =
          Below-update Reservation.id f f_keeps (has_id res.id) s.next_id s.reservations
            b.reservation_ids;
      distinct_ids =
          Distinct-update Reservation.id f f_keeps (has_id res.id) s.reservations b.distinct_ids;
      owners =
          Below-update Reservation.financial_account_id f f_owner (has_id res.id) s.next_id
            s.reservations b.owners;
    }

-- ===== src/Financial/Induction.antt =====
-- A property of the store that the five writes of the service keep is kept by every call.
use orvex.Prelude.{
  ℕ, ◌≡◌, refl, String, Bool, true, false, Option, none, some, List, [], ◌∷◌, inl, inr,
  Option-cases, Bool-cases,
}
use orvex.Outcome.{
  Result, ok, err, Action, or_throw, decimal_error, lift, transaction, settle, ◌>>=◌,
}
use orvex.Runtime.{Decimals}
use orvex.Table.{find_first}
use orvex.Financial.Store.{
  Account, AccountKey, Reservation, ReservationStatus, reserved, committed, released, unknown,
  Store, account_row, owned_row, is_bucket, add_account, add_reservation, set_account,
  set_reservation,
}
use orvex.Financial.Service.{
  new_account, ensure_account, exceeds, reserve_locked, reserve, commit_locked, commit_row, commit,
  release_locked, release_row, release, reconcile_row, reconcile_release, mark_row, mark_guard,
  mark_unknown,
}
use orvex.Financial.Calls.{
  Call, ensure_account_call, reserve_call, commit_call, release_call, reconcile_call,
  mark_unknown_call, perform, perform_all,
}
use orvex.Financial.Steps.{
  after_commit, after_release, mark_committed, mark_released, commit_locked_found,
  commit_locked_missing, release_locked_found, release_locked_missing, ensure_account_new,
  ensure_account_old, projected, held_row, after_reserve, reserve_locked_missing,
  reserve_locked_over, reserve_locked_fits, commit_missing, commit_found, release_missing,
  release_found, reconcile_missing, reconcile_found, mark_missing, mark_found,
}

-- A reservation whose outcome is open keeps its amount held.
abbrev pub is_open : ReservationStatus → Bool
is_open reserved = true
is_open unknown = true
is_open _ = false

abbrev pub mark_as_unknown : {D : Type 0} → Reservation D → Reservation D
mark_as_unknown r = record r { status = unknown }

module _ (api : Decimals) (Fits : Decimals.Decimal api → Type 0) where
  open api use {Decimal, parse}

  -- The amount or the limit that a call brings in, where it brings one.
  abbrev pub FitsLimit : Option Decimal → Type 0
  FitsLimit none = Unit
  FitsLimit (some x) = Fits x

  abbrev pub FitsCall : Call api → Type 0
  FitsCall (ensure_account_call key limit) = FitsLimit limit
  FitsCall (reserve_call key execution text) = FitsLimit (parse text)
  FitsCall _ = Unit

  abbrev pub FitsCalls : List (Call api) → Type 0
  FitsCalls [] = Unit
  FitsCalls (c ∷ cs) = FitsCall c × FitsCalls cs

  -- What has to be shown of a property of the store.
  pub record Kept (P : Store Decimal → Type 0) : Type 0 where
    pub on_account :
        (key : AccountKey) (limit : Option Decimal) (s : Store Decimal)
        → FitsLimit limit
        → P s
        → P (add_account (new_account api key limit s.next_id) s)
    pub on_reserve :
        (key : AccountKey) (execution : Option ℕ) (amount : Decimal) (a : ℕ) (s : Store Decimal)
        (row : Account Decimal)
        → Fits amount
        → P s
        → account_row s a ≡ some row
        → exceeds api (projected api key execution amount a s row) row.limit_amount ≡ false
        → P (
            set_account a
              (after_reserve api key execution amount a s row)
              (add_reservation (held_row api key execution amount a s) s))
    pub on_commit :
        (now company id : ℕ) (res : Reservation Decimal) (s : Store Decimal) (row : Account Decimal)
        → P s
        → owned_row s company id ≡ some res
        → res.status ≡ reserved
        → account_row s res.financial_account_id ≡ some row
        → P (
            set_reservation res.id
              (mark_committed api now)
              (set_account res.financial_account_id (after_commit api row res.amount) s))
    pub on_release :
        (now company id : ℕ) (res : Reservation Decimal) (s : Store Decimal) (row : Account Decimal)
        → P s
        → owned_row s company id ≡ some res
        → is_open res.status ≡ true
        → account_row s res.financial_account_id ≡ some row
        → P (
            set_reservation res.id
              (mark_released api now)
              (set_account res.financial_account_id (after_release api row res.amount) s))
    pub on_unknown :
        (company id : ℕ) (res : Reservation Decimal) (s : Store Decimal)
        → P s
        → owned_row s company id ≡ some res
        → is_open res.status ≡ true
        → P (set_reservation res.id mark_as_unknown s)

  module _ {P : Store Decimal → Type 0} (kept : Kept P) where
    -- A transaction leaves the store as it was or as its body did.
    settle-keeps :
        {A : Type 0} (s : Store Decimal) (r : Result A × Store Decimal)
        → P s
        → P r.1
        → P (settle s r).1
    settle-keeps s (ok a, s') b b' = b'
    settle-keeps s (err e, s') b b' = b

    bind-keeps :
        {A B : Type 0} (r : Result A × Store Decimal) (f : A → Action (Store Decimal) B)
        → P r.1
        → ((a : A) (s' : Store Decimal) → r.0 ≡ ok a → P s' → P (f a s').1)
        → P ((lift r.0 >>= f) r.1).1
    bind-keeps (ok a, s') f b k = k a s' refl b
    bind-keeps (err e, s') f b k = b

    ensure_account-keeps :
        (key : AccountKey) (limit : Option Decimal) (s : Store Decimal)
        → FitsLimit limit
        → P s
        → P (ensure_account api key limit s).1
    ensure_account-keeps key limit s fit b =
        elim (Option-cases (find_first (is_bucket key) s.accounts)) [
          | inl new ↦
              rw (ensure_account_new api key limit s new) (kept.on_account key limit s fit b)
          | inr (row, old) ↦ rw (ensure_account_old api key limit s row old) b
        ]

    reserve_locked-keeps :
        (key : AccountKey) (execution : Option ℕ) (amount : Decimal) (a : ℕ) (s : Store Decimal)
        → Fits amount
        → P s
        → P (reserve_locked api key execution amount a s).1
    reserve_locked-keeps key execution amount a s fit b = elim (Option-cases (account_row s a)) [
      | inl gone ↦ rw (reserve_locked_missing api key execution amount a s gone) b
      | inr (row, there) ↦
          elim (Bool-cases
            (exceeds api (projected api key execution amount a s row) row.limit_amount)) [
              | inl over ↦ rw (reserve_locked_over api key execution amount a s row there over) b
              | inr under ↦
                  rw (reserve_locked_fits api key execution amount a s row there under)
                    (kept.on_reserve key execution amount a s row fit b there under)
            ]
    ]

    -- The end of `reserve`, for each reading of the amount.
    reserve_tail :
        (key : AccountKey) (execution : Option ℕ) (account : ℕ) (amount : Option Decimal)
        (s : Store Decimal)
        → FitsLimit amount
        → P s
        → P
            ((or_throw decimal_error amount >>= λ x.
                transaction (reserve_locked api key execution x account))
              s).1
    reserve_tail key execution account none s fit b = b
    reserve_tail key execution account (some x) s fit b =
        settle-keeps s (reserve_locked api key execution x account s) b
          (reserve_locked-keeps key execution x account s fit b)

    reserve-keeps :
        (key : AccountKey) (execution : Option ℕ) (text : String) (s : Store Decimal)
        → FitsLimit (parse text)
        → P s
        → P (reserve api key execution text s).1
    unfolding reserve
    reserve-keeps key execution text s fit b =
        bind-keeps (ensure_account api key none s)
          (λ account. or_throw decimal_error (parse text) >>= λ amount.
            transaction (reserve_locked api key execution amount account.id))
          (ensure_account-keeps key none s tt b)
          (λ account s' _ b'. reserve_tail key execution account.id (parse text) s' fit b')

    module _ (company id : ℕ) (res : Reservation Decimal) (s : Store Decimal) (b : P s)
        (found : owned_row s company id ≡ some res) where
      commit_locked-keeps : (now : ℕ) → res.status ≡ reserved → P (commit_locked api now res s).1
      commit_locked-keeps now e = elim (Option-cases (account_row s res.financial_account_id)) [
        | inl gone ↦ rw (commit_locked_missing api now res s gone) b
        | inr (row, there) ↦
            rw (commit_locked_found api now res s row there)
              (kept.on_commit now company id res s row b found e there)
      ]

      release_locked-keeps :
          (now : ℕ) → is_open res.status ≡ true → P (release_locked api now res s).1
      release_locked-keeps now e = elim (Option-cases (account_row s res.financial_account_id)) [
        | inl gone ↦ rw (release_locked_missing api now res s gone) b
        | inr (row, there) ↦
            rw (release_locked_found api now res s row there)
              (kept.on_release now company id res s row b found e there)
      ]

      mark_row-keeps : is_open res.status ≡ true → P (mark_row api res s).1
      unfolding mark_row
      mark_row-keeps e = kept.on_unknown company id res s b found e

      commit_row-keeps :
          (now : ℕ) (st : ReservationStatus) → res.status ≡ st → P (commit_row api now res s).1
      unfolding commit_row
      commit_row-keeps now reserved e = rw (e, commit_row) (commit_locked-keeps now e)
      commit_row-keeps now committed e = rw (e, commit_row) b
      commit_row-keeps now released e = rw (e, commit_row) b
      commit_row-keeps now unknown e = rw (e, commit_row) b

      release_row-keeps :
          (now : ℕ) (st : ReservationStatus) → res.status ≡ st → P (release_row api now res s).1
      unfolding release_row
      release_row-keeps now reserved e = rw (e, release_row) (release_locked-keeps now (rw e))
      release_row-keeps now committed e = rw (e, release_row) b
      release_row-keeps now released e = rw (e, release_row) b
      release_row-keeps now unknown e = rw (e, release_row) b

      reconcile_row-keeps :
          (now : ℕ) (st : ReservationStatus) → res.status ≡ st → P (reconcile_row api now res s).1
      unfolding reconcile_row
      reconcile_row-keeps now reserved e = rw (e, reconcile_row) (release_locked-keeps now (rw e))
      reconcile_row-keeps now committed e = rw (e, reconcile_row) b
      reconcile_row-keeps now released e = rw (e, reconcile_row) b
      reconcile_row-keeps now unknown e = rw (e, reconcile_row) (release_locked-keeps now (rw e))

      mark_guard-keeps : (st : ReservationStatus) → res.status ≡ st → P (mark_guard api res s).1
      unfolding mark_guard
      mark_guard-keeps reserved e = rw (e, mark_guard) (mark_row-keeps (rw e))
      mark_guard-keeps committed e = rw (e, mark_guard) b
      mark_guard-keeps released e = rw (e, mark_guard) b
      mark_guard-keeps unknown e = rw (e, mark_guard) (mark_row-keeps (rw e))

    module _ (company id : ℕ) (s : Store Decimal) (b : P s) where
      commit-keeps : (now : ℕ) → P (commit api now company id s).1
      commit-keeps now = elim (Option-cases (owned_row s company id)) [
        | inl gone ↦ rw (commit_missing api company id s now gone) b
        | inr (res, there) ↦ rw (commit_found api company id s now res there) (
            settle-keeps s (commit_row api now res s) b
              (commit_row-keeps company id res s b there now res.status refl))
      ]

      release-keeps : (now : ℕ) → P (release api now company id s).1
      release-keeps now = elim (Option-cases (owned_row s company id)) [
        | inl gone ↦ rw (release_missing api company id s now gone) b
        | inr (res, there) ↦ rw (release_found api company id s now res there) (
            settle-keeps s (release_row api now res s) b
              (release_row-keeps company id res s b there now res.status refl))
      ]

      reconcile-keeps : (now : ℕ) → P (reconcile_release api now company id s).1
      reconcile-keeps now = elim (Option-cases (owned_row s company id)) [
        | inl gone ↦ rw (reconcile_missing api company id s now gone) b
        | inr (res, there) ↦ rw (reconcile_found api company id s now res there) (
            settle-keeps s (reconcile_row api now res s) b
              (reconcile_row-keeps company id res s b there now res.status refl))
      ]

      mark_unknown-keeps : P (mark_unknown api company id s).1
      mark_unknown-keeps = elim (Option-cases (owned_row s company id)) [
        | inl gone ↦ rw (mark_missing api company id s gone) b
        | inr (res, there) ↦
            rw (mark_found api company id s res there)
              (mark_guard-keeps company id res s b there res.status refl)
      ]

    -- One call keeps the property.
    pub perform-keeps : (c : Call api) (s : Store Decimal) → FitsCall c → P s → P (perform api c s)
    unfolding perform
    perform-keeps (ensure_account_call key limit) s fit b = ensure_account-keeps key limit s fit b
    perform-keeps (reserve_call key execution text) s fit b =
        reserve-keeps key execution text s fit b
    perform-keeps (commit_call now company id) s fit b = commit-keeps company id s b now
    perform-keeps (release_call now company id) s fit b = release-keeps company id s b now
    perform-keeps (reconcile_call now company id) s fit b = reconcile-keeps company id s b now
    perform-keeps (mark_unknown_call company id) s fit b = mark_unknown-keeps company id s b

    -- A history of calls keeps the property.
    pub perform_all-keeps :
        (cs : List (Call api)) (s : Store Decimal) → FitsCalls cs → P s → P (perform_all api cs s)
    unfolding perform_all
    perform_all-keeps [] s fit b = b
    perform_all-keeps (c ∷ cs) s fit b =
        perform_all-keeps cs (perform api c s) fit.1 (perform-keeps c s fit.0 b)

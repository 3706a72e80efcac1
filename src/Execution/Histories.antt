-- ===== src/Execution/Histories.antt =====
-- Whatever is reported in whatever order, a request none of whose reservations is RESERVED is never committed.
use orvex.Prelude.{
  ℕ, Bool, false, ◌&&◌, none, List, [], ◌∷◌, ◌≡◌, refl, sym, inl, inr, arith, All, ◌==◌,
}
use mathlib.Core.Path.{subst}
use orvex.Runtime.{Decimals}
use orvex.Table.{find_first, find_first-holds, update_first, All-update_any}
use orvex.Financial.Store.{Store, Reservation, has_id}
use orvex.Financial.Service.{is_reserved}
use orvex.Financial.Calls.{
  Call as FinancialCall, ensure_account_call, reserve_call, commit_call, release_call,
  reconcile_call, mark_unknown_call,
}
use orvex.Financial.Induction.{FitsCall, FitsCalls, Kept, perform_all-keeps}
use orvex.Execution.Store.{World, ReceiptValues, is_for}
use orvex.Execution.Results.{Receipt, verify_and_finalize}
use orvex.Execution.Calls.{Call, Client, perform, perform_all, Settles}
use orvex.Execution.Settlements.{
  Belongs, report_unknown, report_failed, reconciled_failed, verified,
}
use orvex.Execution.Settlements.History.{BelongsAll, over, idles, settles, history_settles}
use orvex.Execution.Receipts.{is_committed, commit_rests_on_receipt}

module _ (api : Decimals) where
  open api use {Decimal}

  Belongs-Settles :
      (client : Client) (c : Call) (w : World Decimal) (f : FinancialCall api)
      → Belongs api w client c f
      → Settles api f
  Belongs-Settles client _ w _ (report_unknown now company input request r g e held) = tt
  Belongs-Settles client _ w _ (report_failed now company input request r g e held) = tt
  Belongs-Settles client _ w _ (reconciled_failed now company i request r there e held) = tt
  Belongs-Settles client _ w _ (verified now company i authorized request r there g held) = tt

  BelongsAll-Settles :
      (cs : List (Client × Call)) (w : World Decimal) (fs : List (FinancialCall api))
      → BelongsAll api cs w fs
      → All (Settles api) fs
  BelongsAll-Settles _ w _ over = tt
  BelongsAll-Settles _ w fs (idles {client} {c} {cs} none_such rest) =
      BelongsAll-Settles cs (perform api client c w) fs rest
  BelongsAll-Settles _ w _ (settles {client} {c} {cs} {f = f} {fs} one rest) =
      (Belongs-Settles client c w f one, BelongsAll-Settles cs (perform api client c w) fs rest)

  Settles-FitsCall :
      (Fits : Decimal → Type 0) (c : FinancialCall api) → Settles api c → FitsCall api Fits c
  Settles-FitsCall Fits (ensure_account_call key limit) h = absurd h
  Settles-FitsCall Fits (reserve_call key execution amount) h = absurd h
  Settles-FitsCall Fits (commit_call now company i) h = tt
  Settles-FitsCall Fits (release_call now company i) h = tt
  Settles-FitsCall Fits (reconcile_call now company i) h = tt
  Settles-FitsCall Fits (mark_unknown_call company i) h = tt

  Settles-FitsCalls :
      (Fits : Decimal → Type 0) (cs : List (FinancialCall api))
      → All (Settles api) cs
      → FitsCalls api Fits cs
  Settles-FitsCalls Fits [] h = tt
  Settles-FitsCalls Fits (c ∷ cs) h = (Settles-FitsCall Fits c h.0, Settles-FitsCalls Fits cs h.1)

  -- What the financial service keeps where nothing is reserved, these histories keep.
  history-keeps :
      {P : Store Decimal → Type 0} (kept : Kept api (λ x. ⊥) P) (cs : List (Client × Call))
      (w : World Decimal)
      → P w.financial
      → P (perform_all api cs w).financial
  history-keeps {P} kept cs w b =
      let (fs, (all, e)) = history_settles api cs w in
      subst P (sym e) (
        perform_all-keeps api (λ x. ⊥) kept fs w.financial
          (Settles-FitsCalls (λ x. ⊥) fs (BelongsAll-Settles cs w fs all)) b)

  module _ (company i : ℕ) where
    -- No reservation of the request is RESERVED.
    abbrev pub IsUnreserved : Store Decimal → Type 0
    IsUnreserved s =
        All (λ (r : Reservation Decimal). (is_for company i r && is_reserved api r.status) ≡ false)
          s.reservations

    mark-IsUnreserved :
        (q : Reservation Decimal → Bool) (f : Reservation Decimal → Reservation Decimal)
        → ((r : Reservation Decimal) → is_reserved api (f r).status ≡ false)
        → (rs : List (Reservation Decimal))
        → All
            (λ (r : Reservation Decimal). (is_for company i r && is_reserved api r.status) ≡ false)
            rs
        → All
            (λ (r : Reservation Decimal). (is_for company i r && is_reserved api r.status) ≡ false)
            (update_first q f rs)
    mark-IsUnreserved q f n rs a =
        All-update_any
          (λ (r : Reservation Decimal). (is_for company i r && is_reserved api r.status) ≡ false) q
          f (λ r h. ground (arith, n r)) rs a

    IsUnreserved-Kept : Kept api (λ x. ⊥) IsUnreserved
    IsUnreserved-Kept = record {
      on_account = λ key limit s fit b. b;
      on_reserve = λ key execution amount a s acc fit b found fits. absurd fit;
      on_commit = λ now tenant j res s acc b found e has.
          mark-IsUnreserved (has_id res.id) _ (λ r. refl) s.reservations b;
      on_release = λ now tenant j res s acc b found e has.
          mark-IsUnreserved (has_id res.id) _ (λ r. refl) s.reservations b;
      on_unknown = λ tenant j res s b found e.
          mark-IsUnreserved (has_id res.id) _ (λ r. refl) s.reservations b;
    }

    find-none :
        (rs : List (Reservation Decimal))
        → All
            (λ (r : Reservation Decimal). (is_for company i r && is_reserved api r.status) ≡ false)
            rs
        → find_first
            (λ (r : Reservation Decimal). is_for company i r && is_reserved api r.status)
            rs
          ≡ none
    find-none [] a = refl
    find-none (r ∷ rs) a = rw a.0 (find-none rs a.1)

  -- Once no reservation of a request is RESERVED (its hold was marked UNKNOWN, for instance), no
  -- history of reported results, reconciliations and verifications makes a later
  -- `verifyAndFinalize` commit: it leaves the accounts and reservations as they are, also where
  -- the request is CONFIRMED and the receipt verified.
  pub unreserved_never_commits :
      (cs : List (Client × Call)) (w : World Decimal) (company i : ℕ)
      → IsUnreserved company i w.financial
      → (verify : ℕ → Receipt) (now : ℕ) (authorized : ReceiptValues)
      → let later = perform_all api cs w in
        let out = verify_and_finalize api verify now company i authorized later in
        (is_committed out.0 ≡ false) × (out.1.financial ≡ later.financial)
  unreserved_never_commits cs w company i u verify now authorized =
      let later = perform_all api cs w in
      let still = history-keeps (IsUnreserved-Kept company i) cs w u in
      elim (commit_rests_on_receipt api verify now company i authorized later) [
        | inl unpaid ↦ unpaid
        | inr (request, (there, (g, (r, (held, paid))))) ↦
            let same : request.id ≡ i = ground (
              arith,
              find_first-holds (λ x. x.id == i && x.company_id == company) later.requests
                  {r = request} there,
            ) in
            absurd
              (ground (arith, held, same, find-none company i later.financial.reservations still))
      ]

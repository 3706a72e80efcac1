-- ===== src/Execution/Settlements/Verified.antt =====
-- Backend/src/execution-gate/execution-result.service.ts: what `verifyAndFinalize` does to the money.
use orvex.Prelude.{
  ℕ, Bool, true, none, some, ◌≡◌, refl, ◌∙◌, ap, ◌⊎◌, inl, inr, arith, Bool-cases, Option-cases,
}
use mathlib.Core.Path.{subst}
use orvex.Runtime.{Decimals}
use orvex.Financial.Store.{Reservation}
use orvex.Financial.Calls.{Call as FinancialCall, commit_call, perform as financial_perform}
use orvex.Execution.Store.{World, ExecutionRequest, ReceiptValues, Verification, get_request}
use orvex.Execution.Results.{reserved_for, finalize, verify_and_finalize, add_verification}
use orvex.Execution.Calls.{Call, verify_call, Client, perform}
use orvex.Execution.Receipts.{Agrees, row, verify_found, world_reported, none_noted-Agrees}
use orvex.Execution.Payment.{Agrees-none_noted}
use orvex.Execution.Settlements.{Belongs, verified, IsMoved, HasReason, idle, IsIdle}

module _ (api : Decimals) where
  open api use {Decimal, parse, equals}

  finalize_moved :
      (now company i : ℕ) (w : World Decimal) (r : Reservation Decimal)
      → reserved_for api company i w ≡ some r
      → (done : Bool) → done ≡ true
      → (finalize api now company i done w).1.financial
        ≡ financial_perform api (commit_call now company r.id) w.financial
  unfolding finalize financial_perform
  finalize_moved now company i w r held done e = ground (arith, held, e)

  verify-IsMoved :
      (client : Client) (now company i : ℕ) (authorized : ReceiptValues) (w : World Decimal)
      (request : ExecutionRequest) (r : Reservation Decimal)
      → get_request company i w ≡ some request
      → Agrees api authorized (client.verify i)
      → reserved_for api company request.id w ≡ some r
      → IsMoved api client (verify_call now company i authorized) w (commit_call now company r.id)
  unfolding perform
  verify-IsMoved client now company i authorized w request r there g held =
      let v = row api client.verify now company i authorized w request g.expected g.actual in
      let end = finalize api now company request.id v.verified (add_verification api v w) in
      ap (λ x. x.1.financial)
        (verify_found api client.verify now company i authorized w request g.expected g.actual there
          g.expected_amount g.actual_amount)
      ∙ (ap (λ (x : World Decimal). x.financial) (world_reported api v end)
          ∙ finalize_moved now company request.id (add_verification api v w) r held v.verified
              (Agrees-none_noted api authorized (client.verify i) g))

  module _ (client : Client) (now company i : ℕ) (authorized : ReceiptValues)
      (w : World Decimal) where
    abbrev verify_one : Call
    verify_one = verify_call now company i authorized

    pub no_request : get_request company i w ≡ none → IsIdle api client verify_one w
    unfolding perform verify_and_finalize
    no_request e =
        idle api client verify_one w (λ (q, (r, (there, rest))). absurd (ground (arith, e, there)))
          (ground (arith, e))

    module _ (request : ExecutionRequest) (there : get_request company i w ≡ some request) where
      pub no_authorized_amount : parse authorized.amount ≡ none → IsIdle api client verify_one w
      unfolding perform verify_and_finalize
      no_authorized_amount e =
          idle api client verify_one w
            (λ (q, (r, (t, (g, held)))). absurd (ground (arith, e, g.expected_amount)))
            (ground (arith, there, e))

      module _ (a : Decimal) (ea : parse authorized.amount ≡ some a) where
        pub no_actual_amount :
            parse (client.verify i).actual.amount ≡ none → IsIdle api client verify_one w
        unfolding perform verify_and_finalize
        no_actual_amount e =
            idle api client verify_one w
              (λ (q, (r, (t, (g, held)))). absurd (ground (arith, e, g.actual_amount)))
              (ground (arith, there, ea, e))

        module _ (b : Decimal) (eb : parse (client.verify i).actual.amount ≡ some b) where
          abbrev v : Verification
          v = row api client.verify now company i authorized w request a b

          verify_end :
              (perform api client verify_one w).financial
              ≡ (finalize api now company request.id v.verified
                  (add_verification api v w)).1.financial
          unfolding perform
          verify_end =
              let end = finalize api now company request.id v.verified (add_verification api v w) in
              ap (λ x. x.1.financial)
                (verify_found api client.verify now company i authorized w request a b there ea eb)
              ∙ ap (λ (x : World Decimal). x.financial) (world_reported api v end)

          agreed : Agrees api authorized (client.verify i) → v.verified ≡ true
          agreed g =
              let ga : g.expected ≡ a = cc (g.expected_amount, ea) in
              let gb : g.actual ≡ b = cc (g.actual_amount, eb) in
              rw (← ga, ← gb) (Agrees-none_noted api authorized (client.verify i) g)

          pub verify_split :
              IsIdle api client verify_one w
              ⊎ ((f : FinancialCall api) × (Belongs api w client verify_one f
                    × IsMoved api client verify_one w f))
          unfolding finalize
          verify_split = elim (Bool-cases v.verified) [
            | inr differs ↦ inl (
                idle api client verify_one w
                  (λ (q, (r, (t, (g, held)))). absurd (cc (agreed g, differs)))
                  (verify_end ∙ rw (differs, finalize) refl))
            | inl agrees ↦
                let g = none_noted-Agrees api authorized (client.verify i) a b ea eb agrees in
                elim (Option-cases (reserved_for api company request.id w)) [
                  | inl gone ↦ inl (
                      idle api client verify_one w (nothing_reserved gone)
                        (verify_end ∙ ground (arith, agrees, gone)))
                  | inr (r, held) ↦ inr (
                    commit_call now company r.id,
                    (
                      verified now company i authorized request r there g held,
                      verify-IsMoved client now company i authorized w request r there g held,
                    ),
                  )
                ]
          ]
            where
              nothing_reserved :
                  reserved_for api company request.id w ≡ none
                  → HasReason api client w verify_one
                  → ⊥
              nothing_reserved gone (q, (r, (t, (g, held)))) =
                  let it : q ≡ request = cc (t, there) in
                  let mine : reserved_for api company request.id w ≡ some r =
                    subst (λ (x : ExecutionRequest). reserved_for api company x.id w ≡ some r) it
                      held in
                  absurd (ground (arith, gone, mine))

-- ===== src/Execution/Settlements/Reconciled.antt =====
-- Backend/src/execution-gate/execution-result.service.ts: what `reconcile` does to the money.
use orvex.Prelude.{ℕ, none, some, ◌≡◌, ◌≢◌, sym, ◌∙◌, ◌⊎◌, inl, inr, arith, Option-cases}
use mathlib.Core.Path.{subst}
use orvex.Runtime.{Decimals}
use orvex.Financial.Store.{Reservation}
use orvex.Financial.Calls.{Call as FinancialCall, reconcile_call, perform as financial_perform}
use orvex.Execution.Store.{World, ExecutionRequest, get_request}
use orvex.Execution.Results.{ExecutionStatus, pending, held_for, reconcile_request, reconcile}
use orvex.Execution.Calls.{Call, reconcile_result_call, Client, perform}
use orvex.Execution.Settlements.{Belongs, reconciled_failed, IsUnmoved, IsMoved, idle, IsIdle}

module _ (api : Decimals) where
  open api use {Decimal, parse, equals}

  module _ (client : Client) (now company i : ℕ) (w : World Decimal) where
    abbrev reconcile_one : Call
    reconcile_one = reconcile_result_call now company i

    pub reconcile_missing : get_request company i w ≡ none → IsIdle api client reconcile_one w
    unfolding perform reconcile
    reconcile_missing e =
        idle api client reconcile_one w
          (λ (q, (r, (there, rest))). absurd (ground (arith, e, there))) (ground (arith, e))

    module _ (request : ExecutionRequest) (there : get_request company i w ≡ some request) where
      reconcile_settled :
          (status : ExecutionStatus)
          → client.get_result i ≡ status
          → (perform api client reconcile_one w).financial
            ≡ (reconcile_request api now company status request.id w).1.financial
      unfolding perform reconcile
      reconcile_settled status e = ground (arith, there, e)

      reconcile-IsMoved :
          (r : Reservation Decimal)
          → client.get_result i ≡ ExecutionStatus.failed
          → held_for api company request.id w ≡ some r
          → IsMoved api client reconcile_one w (reconcile_call now company r.id)
      unfolding reconcile_request financial_perform
      reconcile-IsMoved r e held = reconcile_settled ExecutionStatus.failed e ∙ ground (arith, held)

      not_failed :
          (status : ExecutionStatus)
          → client.get_result i ≡ status
          → status ≢ ExecutionStatus.failed
          → IsUnmoved api client reconcile_one w
          → IsIdle api client reconcile_one w
      not_failed status e n =
          idle api client reconcile_one w λ (q, (r, (h, (failing, held)))). n (sym e ∙ failing)

      nothing_held :
          held_for api company request.id w ≡ none
          → IsUnmoved api client reconcile_one w
          → IsIdle api client reconcile_one w
      nothing_held gone = idle api client reconcile_one w λ (q, (r, (h, (failing, held)))).
          let it : q ≡ request = cc (h, there) in
          let mine : held_for api company request.id w ≡ some r =
            subst (λ (x : ExecutionRequest). held_for api company x.id w ≡ some r) it held in
          absurd (ground (arith, gone, mine))

      pub reconcile_split :
          (status : ExecutionStatus)
          → client.get_result i ≡ status
          → IsIdle api client reconcile_one w
            ⊎ ((f : FinancialCall api) × (Belongs api w client reconcile_one f
                  × IsMoved api client reconcile_one w f))
      unfolding reconcile_request
      reconcile_split ExecutionStatus.unknown e = inl (
          not_failed ExecutionStatus.unknown e (λ h. cc h)
            (reconcile_settled ExecutionStatus.unknown e))
      reconcile_split pending e =
          inl (not_failed pending e (λ h. cc h) (reconcile_settled pending e))
      reconcile_split ExecutionStatus.confirmed e = inl (
          not_failed ExecutionStatus.confirmed e (λ h. cc h)
            (reconcile_settled ExecutionStatus.confirmed e))
      reconcile_split ExecutionStatus.failed e =
          elim (Option-cases (held_for api company request.id w)) [
            | inl gone ↦ inl (
                nothing_held gone
                  (reconcile_settled ExecutionStatus.failed e ∙ ground (arith, gone)))
            | inr (r, held) ↦ inr (
              reconcile_call now company r.id,
              (reconciled_failed now company i request r there e held, reconcile-IsMoved r e held),
            )
          ]

-- ===== src/Execution/Settlements/Reports.antt =====
-- Backend/src/execution-gate/execution-result.service.ts: what `ingestResult` does to the money.
use orvex.Prelude.{
  ℕ, true, false, none, some, ◌≡◌, refl, ◌∙◌, ap, ◌⊎◌, inl, inr, arith, Bool-cases, Option-cases,
  text_eq, text_eq_iff,
}
use mathlib.Core.Path.{subst}
use orvex.Runtime.{Decimals}
use orvex.Financial.Store.{Reservation}
use orvex.Financial.Calls.{
  Call as FinancialCall, release_call, mark_unknown_call, perform as financial_perform,
}
use orvex.Execution.Store.{World, ExecutionRequest, ResultStatus, submitted, unknown, get_request}
use orvex.Execution.Results.{
  ResultInput, reserved_for, hold_reservation, release_reservation, settle_reservation,
  ingest_result,
}
use orvex.Execution.Calls.{ingest_call, Client, perform, noted}
use orvex.Execution.Settlements.{
  IsGenuine, Belongs, report_unknown, report_failed, IsUnmoved, IsMoved, HasReason, moves_money,
  idle, IsIdle,
}

module _ (api : Decimals) where
  open api use {Decimal, parse, equals}

  module _ (now company i : ℕ) (w : World Decimal) where
    hold_none : reserved_for api company i w ≡ none → (hold_reservation api company i w).1 ≡ w
    unfolding hold_reservation
    hold_none e = ground (arith, e)

    hold_some :
        (r : Reservation Decimal)
        → reserved_for api company i w ≡ some r
        → (hold_reservation api company i w).1.financial
          ≡ financial_perform api (mark_unknown_call company r.id) w.financial
    unfolding hold_reservation financial_perform
    hold_some r e = ground (arith, e)

    release_none :
        reserved_for api company i w ≡ none → (release_reservation api now company i w).1 ≡ w
    unfolding release_reservation
    release_none e = ground (arith, e)

    release_some :
        (r : Reservation Decimal)
        → reserved_for api company i w ≡ some r
        → (release_reservation api now company i w).1.financial
          ≡ financial_perform api (release_call now company r.id) w.financial
    unfolding release_reservation financial_perform
    release_some r e = ground (arith, e)

  module _ (client : Client) (now company : ℕ) (input : ResultInput) (w : World Decimal)
      (request : ExecutionRequest) (g : IsGenuine api company input w request) where
    ingest_found :
        (ingest_result api now company input w).1
        ≡ (settle_reservation api now company input.status request.id (noted api input request w)).1
    unfolding ingest_result
    ingest_found =
        let same : text_eq input.chain request.network ≡ true =
          (text_eq_iff input.chain request.network).1 g.same_chain in
        ground (arith, g.authenticated, g.there, same)

    -- The report is written before the money is moved, and does not touch it.
    ingest_settled :
        (status : ResultStatus)
        → input.status ≡ status
        → (perform api client (ingest_call now company input) w).financial
          ≡ (settle_reservation api now company status request.id
              (noted api input request w)).1.financial
    unfolding perform
    ingest_settled status e =
        ap (λ (x : World Decimal). x.financial) ingest_found
        ∙ ap
            (λ st.
              (settle_reservation api now company st request.id
                (noted api input request w)).1.financial)
            e

    -- Two requests under one id are one.
    same_request :
        (q : ExecutionRequest) → get_request company input.execution_id w ≡ some q → q ≡ request
    same_request q h = cc (h, g.there)

    ingest-IsIdle :
        ((r : Reservation Decimal)
          → reserved_for api company request.id w ≡ some r
          → moves_money api input.status ≡ true
          → ⊥)
        → IsUnmoved api client (ingest_call now company input) w
        → IsIdle api client (ingest_call now company input) w
    ingest-IsIdle never =
        idle api client (ingest_call now company input) w λ (q, (r, (h, (held, m)))).
          never r
            (subst (λ (x : ExecutionRequest). reserved_for api company x.id w ≡ some r)
              (same_request q h.there) held)
            m

    still :
        (status : ResultStatus)
        → input.status ≡ status
        → moves_money api status ≡ false
        → IsUnmoved api client (ingest_call now company input) w
        → IsIdle api client (ingest_call now company input) w
    still status e n = ingest-IsIdle λ r held m. absurd (ground (arith, e, n, m))

    without :
        reserved_for api company request.id w ≡ none
        → IsUnmoved api client (ingest_call now company input) w
        → IsIdle api client (ingest_call now company input) w
    without gone = ingest-IsIdle λ r held m. absurd (ground (arith, gone, held))

    pub ingest_split :
        (status : ResultStatus)
        → input.status ≡ status
        → IsIdle api client (ingest_call now company input) w
          ⊎ ((f : FinancialCall api) × (Belongs api w client (ingest_call now company input) f
                × IsMoved api client (ingest_call now company input) w f))
    unfolding settle_reservation
    ingest_split submitted e = inl (still submitted e refl (ingest_settled submitted e))
    ingest_split ResultStatus.confirmed e =
        inl (still ResultStatus.confirmed e refl (ingest_settled ResultStatus.confirmed e))
    ingest_split unknown e = elim (Option-cases (reserved_for api company request.id w)) [
      | inl gone ↦ inl (
          without gone (
            ingest_settled unknown e
            ∙ ap (λ (x : World Decimal). x.financial)
                (hold_none now company request.id (noted api input request w) gone)))
      | inr (r, there) ↦ inr (
        mark_unknown_call company r.id,
        (
          report_unknown now company input request r g e there,
          ingest_settled unknown e
              ∙ hold_some now company request.id (noted api input request w) r there,
        ),
      )
    ]
    ingest_split ResultStatus.failed e =
        elim (Option-cases (reserved_for api company request.id w)) [
          | inl gone ↦ inl (
              without gone (
                ingest_settled ResultStatus.failed e
                ∙ ap (λ (x : World Decimal). x.financial)
                    (release_none now company request.id (noted api input request w) gone)))
          | inr (r, there) ↦ inr (
            release_call now company r.id,
            (
              report_failed now company input request r g e there,
              ingest_settled ResultStatus.failed e
                  ∙ release_some now company request.id (noted api input request w) r there,
            ),
          )
        ]

  -- What a report that is not let in writes.
  pub ingest_refused :
      (client : Client) (now company : ℕ) (input : ResultInput) (w : World Decimal)
      → IsIdle api client (ingest_call now company input) w
        ⊎ ((request : ExecutionRequest) × IsGenuine api company input w request)
  unfolding perform ingest_result
  ingest_refused client now company input w = elim (Bool-cases input.authenticated) [
    | inr forged ↦ inl (
        idle api client (ingest_call now company input) w
          (λ h. absurd (ground (arith, forged, h.1.1.0.authenticated))) (ground (arith, forged)))
    | inl genuine ↦ elim (Option-cases (get_request company input.execution_id w)) [
      | inl gone ↦ inl (
          idle api client (ingest_call now company input) w
            (λ h. absurd (ground (arith, gone, h.1.1.0.there))) (ground (arith, genuine, gone)))
      | inr (request, there) ↦ elim (Bool-cases (text_eq input.chain request.network)) [
        | inr other ↦ inl (
            idle api client (ingest_call now company input) w (other_chain request there other)
              (ground (arith, genuine, there, other)))
        | inl same ↦ inr (
          request,
          record {
            authenticated = genuine;
            there = there;
            same_chain = (text_eq_iff input.chain request.network).0 same;
          },
        )
      ]
    ]
  ]
    where
      other_chain :
          (request : ExecutionRequest)
          → get_request company input.execution_id w ≡ some request
          → text_eq input.chain request.network ≡ false
          → HasReason api client w (ingest_call now company input)
          → ⊥
      other_chain request there other (q, (r, (g, rest))) =
          let it : q ≡ request = cc (g.there, there) in
          let same : text_eq input.chain request.network ≡ true =
            (text_eq_iff input.chain request.network).1
              (g.same_chain ∙ ap ExecutionRequest.network it) in
          absurd (cc (same, other))

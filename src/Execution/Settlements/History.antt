-- ===== src/Execution/Settlements/History.antt =====
-- Backend/src/execution-gate/execution-result.service.ts: what a history of calls does to the money.
use orvex.Prelude.{◌≡◌, refl, ◌∙◌, ap, ◌⊎◌, inl, inr, Option-cases, List, [], ◌∷◌}
use orvex.Runtime.{Decimals}
use orvex.Financial.Calls.{Call as FinancialCall, perform_all as financial_perform_all}
use orvex.Execution.Store.{World, get_request}
use orvex.Execution.Calls.{
  Call, ingest_call, reconcile_result_call, verify_call, Client, perform, perform_all,
}
use orvex.Execution.Settlements.{Belongs, IsMoved, IsIdle}
use orvex.Execution.Settlements.Reports.{ingest_split, ingest_refused}
use orvex.Execution.Settlements.Reconciled.{reconcile_missing, reconcile_split}
use orvex.Execution.Settlements.Verified.{
  no_request, no_authorized_amount, no_actual_amount, verify_split,
}

module _ (api : Decimals) where
  open api use {Decimal, parse, equals}

  -- Nothing moves without a reason, and what has a reason to move is moved.
  only_settles :
      (client : Client) (c : Call) (w : World Decimal)
      → IsIdle api client c w
        ⊎ ((f : FinancialCall api) × (Belongs api w client c f × IsMoved api client c w f))
  only_settles client (ingest_call now company input) w =
      elim (ingest_refused api client now company input w) [
        | inl refused ↦ inl refused
        | inr (request, g) ↦ ingest_split api client now company input w request g input.status refl
      ]
  only_settles client (reconcile_result_call now company i) w =
      elim (Option-cases (get_request company i w)) [
        | inl gone ↦ inl (reconcile_missing api client now company i w gone)
        | inr (request, there) ↦
            reconcile_split api client now company i w request there (client.get_result i) refl
      ]
  only_settles client (verify_call now company i authorized) w =
      elim (Option-cases (get_request company i w)) [
        | inl gone ↦ inl (no_request api client now company i authorized w gone)
        | inr (request, there) ↦ elim (Option-cases (parse authorized.amount)) [
          | inl bad ↦
              inl (no_authorized_amount api client now company i authorized w request there bad)
          | inr (a, ea) ↦ elim (Option-cases (parse (client.verify i).actual.amount)) [
            | inl bad ↦
                inl (no_actual_amount api client now company i authorized w request there a ea bad)
            | inr (b, eb) ↦
                verify_split api client now company i authorized w request there a ea b eb
          ]
        ]
      ]

  -- The calls of the financial service that belong to a history, in its order: every call of the
  -- history that has one brings it in, and no other does.
  pub data BelongsAll
      : List (Client × Call) → World Decimal → List (FinancialCall api) → Type 0 where
    over : {w : World Decimal} → BelongsAll [] w []
    idles :
        {client : Client} {c : Call} {cs : List (Client × Call)} {w : World Decimal}
        {fs : List (FinancialCall api)}
        → ((f : FinancialCall api) → Belongs api w client c f → ⊥)
        → BelongsAll cs (perform api client c w) fs
        → BelongsAll ((client, c) ∷ cs) w fs
    settles :
        {client : Client} {c : Call} {cs : List (Client × Call)} {w : World Decimal}
        {f : FinancialCall api} {fs : List (FinancialCall api)}
        → Belongs api w client c f
        → BelongsAll cs (perform api client c w) fs
        → BelongsAll ((client, c) ∷ cs) w (f ∷ fs)

  -- Over any history of reported results, reconciliations and verifications, with any answers of
  -- the execution client: the accounts and reservations are those after the calls of the financial
  -- service that belong to it, in its order, and no others. To a genuine report of UNKNOWN belongs
  -- `markUnknown` and to one of FAILED `release`, of the first RESERVED reservation of the request;
  -- to a reconciliation to which the client answers FAILED `reconcileRelease`, of the first one that
  -- is RESERVED or UNKNOWN; to a verification whose receipt agrees with what was authorized
  -- `commit`, of the first RESERVED one; where there is no such reservation, and to every other
  -- call, belongs none.
  pub history_settles :
      (cs : List (Client × Call)) (w : World Decimal)
      → (fs : List (FinancialCall api)) × (BelongsAll cs w fs
          × ((perform_all api cs w).financial ≡ financial_perform_all api fs w.financial))
  unfolding perform_all financial_perform_all
  history_settles [] w = ([], (over, refl))
  history_settles ((client, c) ∷ cs) w =
      let (fs, (all, e)) = history_settles cs (perform api client c w) in
      elim (only_settles client c w) [
        | inl (none_such, same) ↦
            (fs, (idles none_such all, e ∙ ap (financial_perform_all api fs) same))
        | inr (f, (s, moved)) ↦
            (f ∷ fs, (settles s all, e ∙ ap (financial_perform_all api fs) moved))
      ]

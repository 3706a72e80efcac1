-- ===== src/Execution/Calls.antt =====
-- The results service as its clients drive it: a call of any method, at any time, with any answers of
-- the execution client.
use orvex.Prelude.{ℕ, List, [], ◌∷◌}
use orvex.Runtime.{Decimals}
use orvex.Financial.Calls.{Call as FinancialCall, ensure_account_call, reserve_call}
use orvex.Execution.Store.{World, ExecutionRequest, ReceiptValues, set_status}
use orvex.Execution.Results.{
  ExecutionStatus, ResultInput, Receipt, mirror, result_row, add_result, ingest_result, reconcile,
  verify_and_finalize,
}

-- `now`, then the company, and what the method takes.
pub data Call : Type 0 where
  ingest_call : ℕ → ℕ → ResultInput → Call
  reconcile_result_call : ℕ → ℕ → ℕ → Call
  verify_call : ℕ → ℕ → ℕ → ReceiptValues → Call

-- What the execution client answers during one call.
pub record Client : Type 0 where
  pub get_result : ℕ → ExecutionStatus
  pub verify : ℕ → Receipt

module _ (api : Decimals) where
  open api use {Decimal}

  unfoldable pub perform : Client → Call → World Decimal → World Decimal
  perform client (ingest_call now company input) w = (ingest_result api now company input w).1
  perform client (reconcile_result_call now company i) w =
      (reconcile api client.get_result now company i w).1
  perform client (verify_call now company i authorized) w =
      (verify_and_finalize api client.verify now company i authorized w).1

  unfoldable pub perform_all : List (Client × Call) → World Decimal → World Decimal
  unfolding perform
  perform_all [] w = w
  perform_all ((client, c) ∷ cs) w = perform_all cs (perform client c w)

  -- The methods that move a reservation and bring in none.
  abbrev pub Settles : FinancialCall api → Type 0
  Settles (ensure_account_call key limit) = ⊥
  Settles (reserve_call key execution amount) = ⊥
  Settles _ = Unit

  -- A report that is taken in, as the row and the status that are written before the money.
  abbrev pub noted : ResultInput → ExecutionRequest → World Decimal → World Decimal
  noted input request w =
      set_status request.id (mirror input.status) (add_result api (result_row api input request) w)

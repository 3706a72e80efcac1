-- ===== src/Gate/Simulation.antt =====
-- `validateSimulationBinding` and `classifySimulation`.
use orvex.Prelude.{String, not, if◌then◌else◌, text_eq}
use orvex.Gate.Contracts.{
  pass, revert, unexpected_state_change, insufficient_funds, unsupported, error, SimulationResult,
}

pub data BindingStatus : Type 0 where
  valid stale wrong_transaction wrong_payload : BindingStatus

pub record BindingExpectation : Type 0 where
  pub transaction_id : String
  pub simulated_payload_hash : String
  pub current_payload_hash : String

-- The reason that goes with a status is left out.
unfoldable pub validate_simulation_binding : SimulationResult → BindingExpectation → BindingStatus
validate_simulation_binding simulation e =
    if not (text_eq simulation.transaction_id e.transaction_id)
    then wrong_transaction
    else if not (text_eq e.simulated_payload_hash e.current_payload_hash)
    then stale
    else valid

pub data SimulationOutcome : Type 0 where
  continue deny review fail_closed : SimulationOutcome

unfoldable pub classify_simulation : SimulationResult → SimulationOutcome
classify_simulation simulation = elim simulation.status [
  | pass ↦ continue
  | revert ↦ deny
  | insufficient_funds ↦ deny
  | unexpected_state_change ↦ review
  | error ↦ fail_closed
  | unsupported ↦ fail_closed
]

-- ===== src/Gate.antt =====
-- Backend/src/execution-gate/transaction-gate.ts: the comparison of a proposal with the concrete
-- transaction, and the binding of a simulation to it. The contracts that it reads are those of
-- Backend/src/shared/contracts (action-proposal.ts, transaction.ts), with the fields that the gate
-- reads. Amounts are texts, which the comparison parses.
pub mod Contracts
pub mod Compare
pub mod Simulation
pub mod Matching
mod Tests

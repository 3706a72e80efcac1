-- ===== src/Execution.antt =====
-- Backend/src/execution-gate: the last check before an execution (final-revalidation.service.ts)
-- and what follows it (execution-result.service.ts), over a database that holds the tables of all
-- the services they call.
pub mod Store
pub mod Results
pub mod Calls
pub mod Receipts
pub mod Payment
pub mod Settlements
pub mod Histories
pub mod Tests
pub mod Context
pub mod Derivation
pub mod Revalidation
pub mod Authorization
pub mod Uniqueness
pub mod Allowed
pub mod Approved

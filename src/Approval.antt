-- ===== src/Approval.antt =====
-- Backend/src/approval/approval.service.ts: human approvals of a decision, over the tables of
-- decisions, approval requests and approval results. Times are milliseconds, ids are numbers that
-- are only compared, and a new row takes the next id. The summary of a request is left out.
pub mod Service
pub mod Branches
pub mod Induction
pub mod Answers
pub mod Evidence
pub mod History
pub mod Binding
mod Tests

-- ===== src/Versions.antt =====
-- Backend/src/policy/policy.service.ts: policies and their versions, over the tables of companies,
-- policies, versions and rule rows. Ids are numbers that are only compared, a new row takes the
-- next one, and times are milliseconds. The hash, the source and the descriptions are left out.
pub mod Store
pub mod Service
pub mod Writes
pub mod Activation
pub mod Calls
mod Tests

-- ===== src/Financial.antt =====
-- Backend/src/domain/financial/financial.service.ts: budget accounts and the lifecycle of the
-- reservations that are held against them, over the tables `financial_accounts` and
-- `financial_reservations` of Backend/prisma/schema.prisma. Row ids are numbers, which are only
-- compared; a new row takes the next one. A money column keeps a decimal, so that the printing and
-- parsing between the column and the code is left out; the amount that a caller gives is parsed.
-- Each method's body is one `Action`, and `db.$transaction` is `transaction`.
pub mod Store
pub mod Service
pub mod Calls
pub mod Steps
pub mod Induction
pub mod Sums
pub mod Precision
pub mod Columns
pub mod Writes
pub mod Balance
pub mod Budget
pub mod Lifecycle
pub mod Races
mod Tests

-- ===== src/Idempotency.antt =====
-- Backend/src/domain/financial/idempotency.service.ts: keys of operations, over the table of
-- idempotency records. The hash of a request (sha256Json) is a parameter. Ids are numbers that are
-- only compared; the expiry and the resource of a record, which nothing reads, are left out. No record is
-- ever deleted, so the query after a refused insert finds one.
pub mod Service
pub mod History
mod Tests

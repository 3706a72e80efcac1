-- ===== src/Errors.antt =====
-- The error taxonomy of Backend/src/shared/errors: the codes, the HTTP status of each, the retry
-- hint, and `CoreError` as a value. A call that can throw returns a `Result`.
use orvex.Prelude.{ℕ, Bool, true, false, Option, none, some}

pub data ErrorCode : Type 0 where
  invalid_input schema_error authentication_error authorization_error tenant_error : ErrorCode
  agent_not_found agent_inactive intent_invalid intent_expired proposal_invalid : ErrorCode
  capability_invalid capability_expired policy_invalid policy_conflict policy_violation : ErrorCode
  security_assessment_invalid security_assessment_stale insufficient_evidence : ErrorCode
  transaction_invalid transaction_mismatch simulation_failed simulation_stale approval_required :
      ErrorCode
  approval_not_found approval_expired approval_mismatch approval_denied decision_stale : ErrorCode
  execution_blocked execution_failed execution_unknown receipt_mismatch concurrency_conflict :
      ErrorCode
  idempotency_conflict provider_error timeout not_found conflict rate_limited : ErrorCode
  configuration_error internal_error : ErrorCode

-- `ERROR_HTTP_STATUS`.
pub http_status : ErrorCode → ℕ
http_status invalid_input = 400
http_status schema_error = 422
http_status authentication_error = 401
http_status authorization_error = 403
http_status tenant_error = 403
http_status agent_not_found = 404
http_status agent_inactive = 409
http_status intent_invalid = 422
http_status intent_expired = 409
http_status proposal_invalid = 422
http_status capability_invalid = 422
http_status capability_expired = 409
http_status policy_invalid = 422
http_status policy_conflict = 409
http_status policy_violation = 403
http_status security_assessment_invalid = 422
http_status security_assessment_stale = 409
http_status insufficient_evidence = 422
http_status transaction_invalid = 422
http_status transaction_mismatch = 409
http_status simulation_failed = 422
http_status simulation_stale = 409
http_status approval_required = 403
http_status approval_not_found = 404
http_status approval_expired = 409
http_status approval_mismatch = 409
http_status approval_denied = 403
http_status decision_stale = 409
http_status execution_blocked = 403
http_status execution_failed = 502
http_status execution_unknown = 502
http_status receipt_mismatch = 409
http_status concurrency_conflict = 409
http_status idempotency_conflict = 409
http_status provider_error = 502
http_status timeout = 504
http_status not_found = 404
http_status conflict = 409
http_status rate_limited = 429
http_status configuration_error = 500
http_status internal_error = 500

-- `ERROR_RETRYABLE`, a partial record: `none` where the code has no entry.
abbrev pub retry_hint : ErrorCode → Option Bool
retry_hint timeout = some true
retry_hint rate_limited = some true
retry_hint provider_error = some true
retry_hint execution_unknown = some false
retry_hint concurrency_conflict = some true
retry_hint _ = none

-- `a ?? b`.
abbrev pub or_else {ℓ} : {A : Type ℓ} → Option A → A → A
or_else none d = d
or_else (some a) d = a

-- The fields of a `CoreError` that `CoreError.of` derives from its code when no option is given.
pub record CoreError : Type 0 where
  pub code : ErrorCode
  pub retryable : Bool
  pub status : ℕ

unfoldable pub core_error : ErrorCode → CoreError
unfolding http_status
core_error c = record { code = c; retryable = or_else (retry_hint c) false; status = http_status c }

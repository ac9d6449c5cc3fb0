-- ===== src/Exceptions.antt =====
-- app/exceptions.py: the exception classes that the services raise, with their HTTP status and
-- code. A service returns a `Result`. Messages and log details are not kept. `database_error` stands
-- for what the driver or the session raises, which is no class of the application.
use danah_v.Prelude.{ℕ, String}

pub data Error : Type 0 where
  danah_error auth_error permission_denied not_found invalid_request conflict : Error
  rate_limited llm_gateway_error llm_not_configured ingestion_error : Error
  retrieval_error orchestration_error approval_error token_budget_exceeded : Error
  database_error : Error

unfoldable pub status_code : Error → ℕ
status_code Error.auth_error = 401
status_code Error.permission_denied = 403
status_code Error.not_found = 404
status_code Error.invalid_request = 422
status_code Error.conflict = 409
status_code Error.rate_limited = 429
status_code Error.llm_gateway_error = 502
status_code Error.llm_not_configured = 503
status_code Error.ingestion_error = 502
status_code Error.approval_error = 409
status_code _ = 500

unfoldable pub error_code : Error → String
error_code Error.danah_error = "internal_error"
error_code Error.database_error = "internal_error"
error_code Error.auth_error = "auth_error"
error_code Error.permission_denied = "permission_denied"
error_code Error.not_found = "not_found"
error_code Error.invalid_request = "validation_error"
error_code Error.conflict = "conflict"
error_code Error.rate_limited = "rate_limited"
error_code Error.llm_gateway_error = "llm_gateway_error"
error_code Error.llm_not_configured = "llm_not_configured"
error_code Error.ingestion_error = "ingestion_error"
error_code Error.retrieval_error = "retrieval_error"
error_code Error.orchestration_error = "orchestration_error"
error_code Error.approval_error = "approval_error"
error_code Error.token_budget_exceeded = "token_budget_exceeded"

pub data Result (A : Type 0) : Type 0 where
  ok : A → Result A
  raise : Error → Result A

-- ===== src/Errors.antt =====
-- crates/common/src/error.rs: the errors of the API, and what a client is told of them.
pub mod Codes
use Prim.Native.String.{◌++◌}
use invokr.Base.{ℕ, String, Bool, leb}
use invokr.Store.Conn.{DbError, unique_violation, foreign_key_violation}

pub data AppError : Type 0 where
  invalid_request : String → AppError
  unauthorized : AppError
  payload_spec_not_found : String → AppError
  config_not_found : String → AppError
  secret_not_found : String → AppError
  endpoint_not_found : String → AppError
  job_not_found : String → AppError
  execution_not_found : String → AppError
  org_not_found : String → AppError
  workspace_not_found : String → AppError
  conflict : String → AppError
  job_not_updatable : String → AppError
  execution_not_cancellable : String → AppError
  invalid_cron : String → AppError
  invalid_schema : String → AppError
  invalid_payload_spec_ref : String → AppError
  invalid_config_ref : String → AppError
  input_validation_failed : String → AppError
  template_resolution_failed : String → AppError
  rate_limited : AppError
  internal_error : String → AppError

unfoldable pub status_and_code : AppError → ℕ × String
status_and_code (invalid_request _) = (400, "INVALID_REQUEST")
status_and_code unauthorized = (401, "UNAUTHORIZED")
status_and_code (payload_spec_not_found _) = (404, "PAYLOAD_SPEC_NOT_FOUND")
status_and_code (config_not_found _) = (404, "CONFIG_NOT_FOUND")
status_and_code (secret_not_found _) = (404, "SECRET_NOT_FOUND")
status_and_code (endpoint_not_found _) = (404, "ENDPOINT_NOT_FOUND")
status_and_code (job_not_found _) = (404, "JOB_NOT_FOUND")
status_and_code (execution_not_found _) = (404, "EXECUTION_NOT_FOUND")
status_and_code (org_not_found _) = (404, "ORG_NOT_FOUND")
status_and_code (workspace_not_found _) = (404, "WORKSPACE_NOT_FOUND")
status_and_code (conflict _) = (409, "CONFLICT")
status_and_code (job_not_updatable _) = (409, "JOB_NOT_UPDATABLE")
status_and_code (execution_not_cancellable _) = (409, "EXECUTION_NOT_CANCELLABLE")
status_and_code (invalid_cron _) = (422, "INVALID_CRON")
status_and_code (invalid_schema _) = (422, "INVALID_SCHEMA")
status_and_code (invalid_payload_spec_ref _) = (422, "INVALID_PAYLOAD_SPEC_REF")
status_and_code (invalid_config_ref _) = (422, "INVALID_CONFIG_REF")
status_and_code (input_validation_failed _) = (422, "INPUT_VALIDATION_FAILED")
status_and_code (template_resolution_failed _) = (422, "TEMPLATE_RESOLUTION_FAILED")
status_and_code rate_limited = (429, "RATE_LIMITED")
status_and_code (internal_error _) = (500, "INTERNAL_ERROR")

-- `StatusCode::is_server_error`.
abbrev pub is_server_error : AppError → Bool
is_server_error e = leb 500 (status_and_code e).0

-- `to_string`.
unfoldable pub message : AppError → String
message (invalid_request t) = "Invalid request: " ++ t
message unauthorized = "Unauthorized"
message (payload_spec_not_found t) = "Payload spec not found: " ++ t
message (config_not_found t) = "Config not found: " ++ t
message (secret_not_found t) = "Secret not found: " ++ t
message (endpoint_not_found t) = "Endpoint not found: " ++ t
message (job_not_found t) = "Job not found: " ++ t
message (execution_not_found t) = "Execution not found: " ++ t
message (org_not_found t) = "Organization not found: " ++ t
message (workspace_not_found t) = "Workspace not found: " ++ t
message (conflict t) = "Conflict: " ++ t
message (job_not_updatable t) = "Job not updatable: " ++ t
message (execution_not_cancellable t) = "Execution not cancellable: " ++ t
message (invalid_cron t) = "Invalid cron expression: " ++ t
message (invalid_schema t) = "Invalid schema: " ++ t
message (invalid_payload_spec_ref t) = "Invalid payload spec reference: " ++ t
message (invalid_config_ref t) = "Invalid config reference: " ++ t
message (input_validation_failed t) = "Input validation failed: " ++ t
message (template_resolution_failed t) = "Template resolution failed: " ++ t
message rate_limited = "Rate limited"
message (internal_error t) = "Internal error: " ++ t

-- The code and the message of the body of an answer, with its status.
unfoldable pub error_response : AppError → ℕ × (String × String)
error_response e = let (status, code) = status_and_code e in (status, (code, message e))

-- `From<sqlx::Error>`: the client is told nothing of what the database has said.
abbrev pub of_db_error : DbError → AppError
of_db_error e = internal_error "Database error"

-- `map_err` where any constraint that the row breaks is taken for the unique index.
abbrev pub constraint_error : AppError → DbError → AppError
constraint_error clash (unique_violation _) = clash
constraint_error clash (foreign_key_violation _) = clash
constraint_error clash e = of_db_error e

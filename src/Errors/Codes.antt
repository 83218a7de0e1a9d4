-- ===== src/Errors/Codes.antt =====
-- What a client can tell of an error of the API (crates/common/src/error.rs).
use mathlib.Core.Option as Option
use invokr.Base.{◌≡◌, refl, String, Option, some, none, List, [], ◌∷◌, str_eq, if◌then◌else◌}
use invokr.Base.Text.{strip_prefix, strip_prefix-append}
use invokr.Errors.{
  AppError, invalid_request, unauthorized, payload_spec_not_found, config_not_found,
  secret_not_found, endpoint_not_found, job_not_found, execution_not_found, org_not_found,
  workspace_not_found, conflict, job_not_updatable, execution_not_cancellable, invalid_cron,
  invalid_schema, invalid_payload_spec_ref, invalid_config_ref, input_validation_failed,
  template_resolution_failed, rate_limited, internal_error, status_and_code, message,
  error_response,
}

-- The errors by their codes: what precedes the text in the message, and the error of a text.
abbrev Reading : Type 0
Reading = String × (String × (String → AppError))

abbrev readings : List Reading
readings =
    ("INVALID_REQUEST", ("Invalid request: ", invalid_request))
    ∷ ("UNAUTHORIZED", ("Unauthorized", (λ t. unauthorized)))
    ∷ ("PAYLOAD_SPEC_NOT_FOUND", ("Payload spec not found: ", payload_spec_not_found))
    ∷ ("CONFIG_NOT_FOUND", ("Config not found: ", config_not_found))
    ∷ ("SECRET_NOT_FOUND", ("Secret not found: ", secret_not_found))
    ∷ ("ENDPOINT_NOT_FOUND", ("Endpoint not found: ", endpoint_not_found))
    ∷ ("JOB_NOT_FOUND", ("Job not found: ", job_not_found))
    ∷ ("EXECUTION_NOT_FOUND", ("Execution not found: ", execution_not_found))
    ∷ ("ORG_NOT_FOUND", ("Organization not found: ", org_not_found))
    ∷ ("WORKSPACE_NOT_FOUND", ("Workspace not found: ", workspace_not_found))
    ∷ ("CONFLICT", ("Conflict: ", conflict))
    ∷ ("JOB_NOT_UPDATABLE", ("Job not updatable: ", job_not_updatable))
    ∷ ("EXECUTION_NOT_CANCELLABLE", ("Execution not cancellable: ", execution_not_cancellable))
    ∷ ("INVALID_CRON", ("Invalid cron expression: ", invalid_cron))
    ∷ ("INVALID_SCHEMA", ("Invalid schema: ", invalid_schema))
    ∷ ("INVALID_PAYLOAD_SPEC_REF", ("Invalid payload spec reference: ", invalid_payload_spec_ref))
    ∷ ("INVALID_CONFIG_REF", ("Invalid config reference: ", invalid_config_ref))
    ∷ ("INPUT_VALIDATION_FAILED", ("Input validation failed: ", input_validation_failed))
    ∷ ("TEMPLATE_RESOLUTION_FAILED", ("Template resolution failed: ", template_resolution_failed))
    ∷ ("RATE_LIMITED", ("Rate limited", (λ t. rate_limited)))
    ∷ ("INTERNAL_ERROR", ("Internal error: ", internal_error))
    ∷ []

abbrev reading_of : List Reading → String → String → Option AppError
reading_of [] code text = none
reading_of ((name, (start, make)) ∷ rest) code text =
    if str_eq code name
    then Option.map make (strip_prefix start text)
    else reading_of rest code text

-- A client's reading of a body.
abbrev pub error_of_body : String × String → Option AppError
error_of_body (code, text) = reading_of readings code text

-- The body of an answer tells the error whole, its kind and its text, so no two errors are answered
-- alike.
error_of_body-error_response : (e : AppError) → error_of_body (error_response e).1 ≡ some e
unfolding error_response status_and_code message strip_prefix
error_of_body-error_response (invalid_request t) =
    rw (strip_prefix-append "Invalid request: " t) refl
error_of_body-error_response unauthorized = refl
error_of_body-error_response (payload_spec_not_found t) =
    rw (strip_prefix-append "Payload spec not found: " t) refl
error_of_body-error_response (config_not_found t) =
    rw (strip_prefix-append "Config not found: " t) refl
error_of_body-error_response (secret_not_found t) =
    rw (strip_prefix-append "Secret not found: " t) refl
error_of_body-error_response (endpoint_not_found t) =
    rw (strip_prefix-append "Endpoint not found: " t) refl
error_of_body-error_response (job_not_found t) = rw (strip_prefix-append "Job not found: " t) refl
error_of_body-error_response (execution_not_found t) =
    rw (strip_prefix-append "Execution not found: " t) refl
error_of_body-error_response (org_not_found t) =
    rw (strip_prefix-append "Organization not found: " t) refl
error_of_body-error_response (workspace_not_found t) =
    rw (strip_prefix-append "Workspace not found: " t) refl
error_of_body-error_response (conflict t) = rw (strip_prefix-append "Conflict: " t) refl
error_of_body-error_response (job_not_updatable t) =
    rw (strip_prefix-append "Job not updatable: " t) refl
error_of_body-error_response (execution_not_cancellable t) =
    rw (strip_prefix-append "Execution not cancellable: " t) refl
error_of_body-error_response (invalid_cron t) =
    rw (strip_prefix-append "Invalid cron expression: " t) refl
error_of_body-error_response (invalid_schema t) = rw (strip_prefix-append "Invalid schema: " t) refl
error_of_body-error_response (invalid_payload_spec_ref t) =
    rw (strip_prefix-append "Invalid payload spec reference: " t) refl
error_of_body-error_response (invalid_config_ref t) =
    rw (strip_prefix-append "Invalid config reference: " t) refl
error_of_body-error_response (input_validation_failed t) =
    rw (strip_prefix-append "Input validation failed: " t) refl
error_of_body-error_response (template_resolution_failed t) =
    rw (strip_prefix-append "Template resolution failed: " t) refl
error_of_body-error_response rate_limited = refl
error_of_body-error_response (internal_error t) = rw (strip_prefix-append "Internal error: " t) refl

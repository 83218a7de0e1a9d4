-- ===== src/Handlers/Create.antt =====
-- The creation of a job: `create` of crates/api/src/handlers/jobs.rs.
-- The reads of a request are taken to see one store, which may be older than its transaction's.
pub mod Reads
pub mod Rows
pub mod Bodies
pub mod Atomic
pub mod Again
use Prim.Native.String.{◌++◌}
use invokr.Base.{ℕ, suc, String, Bool, Option, none, some, List, get_or, if◌then◌else◌}
use invokr.Base.Map.{lookup}
use invokr.Base.Int.{ℤ, pos}
use invokr.Base.Result.{Result, ok, err}
use invokr.Json.{Json}
use invokr.Store.{Store, Job, Execution, Endpoint, TriggerType, immediate, delayed, cron}
use invokr.Store.Enums.{trigger_type_of_text}
use invokr.Store.Conn.{DbError, unique_violation, foreign_key_violation, begin, query, M}
use invokr.Errors.{
  AppError, invalid_request, endpoint_not_found, conflict, invalid_cron, invalid_payload_spec_ref,
  invalid_schema, input_validation_failed, of_db_error, constraint_error,
}
use invokr.PgCronExpr.{Calendar, PgCronExpr, to_schedule, compute_next_cron}
use invokr.Endpoints as Endpoints
use invokr.Endpoints.{get_retry_policy}
use invokr.Executions as Executions
use invokr.Jobs as Jobs
use invokr.Jobs.{CreateJobResult}
use invokr.Jobs.Cron.{register_pg_cron_conn}
use invokr.Handlers.{
  Handler, statement, statement_or, return, reject, or_reject, refuse_if, is_internal, settle,
  ◌>>=◌, ◌>>◌,
}

-- The answer of the crate `jsonschema` on a schema and an input.
pub data Validation : Type 0 where
  valid : Validation
  bad_schema : String → Validation
  bad_input : String → Validation

-- What a request does not say: the time, the ids that are drawn, the workspace, the validator.
pub record Env : Type 0 where
  pub now : ℕ
  pub job_id : String
  pub execution_id : String
  pub generated_key : String
  pub schema_name : String
  pub validate : Json → Json → Validation

module _ {Schedule Tz : Type 0} (calendar : Calendar Schedule Tz) where
  pub record CreateJob : Type 0 where
    pub endpoint : String
    pub trigger : String
    pub idempotency_key : Option String
    pub input : Option Json
    pub max_attempts : Option ℤ
    pub run_at : Option ℕ
    pub cron : Option (PgCronExpr calendar)
    pub timezone : Option String
    pub starts_at : Option ℕ
    pub ends_at : Option ℕ

-- The three ways to answer with success.
pub data Answer : Type 0 where
  replayed : Job → Option Execution → Answer
  created : CreateJobResult → Answer
  scheduled : Job → Answer

-- What the reads come to: a job of this key, or the endpoint and the attempts of a new one.
pub data Prepared : Type 0 where
  replay : Job → Option Execution → Prepared
  fresh : TriggerType → Endpoint → ℤ → Prepared

-- `filter(|&n| n > 0).unwrap_or(…)`.
abbrev pub attempts_or : Option ℤ → ℤ → ℤ
attempts_or (some (pos (suc n))) default = pos (suc n)
attempts_or _ default = default

abbrev pub validated : Validation → Handler (Unit {0})
validated valid = return tt
validated (bad_schema text) = reject (invalid_schema text)
validated (bad_input text) = reject (input_validation_failed text)

-- crates/common/src/db/payload_specs.rs, `get`: the schema of a name.
unfoldable pub get_payload_spec : String → M (Option Json)
get_payload_spec name = query (λ s. ok (lookup name s.payload_specs, s))

abbrev pub validate_input :
    (Json → Json → Validation) → Option String → Option Json → Handler (Unit {0})
validate_input validate (some spec) (some input) = do
  row ← statement (get_payload_spec spec)
  schema ← or_reject row (invalid_payload_spec_ref spec)
  validated (validate input schema)
validate_input validate _ _ = return tt

-- The replay of a request whose key is taken.
abbrev pub replay_or : Prepared → Option Job → Handler Prepared
replay_or otherwise none = return otherwise
replay_or otherwise (some existing) = do
  execution ← statement (Executions.get_for_job existing.job_id)
  return (replay existing execution)

abbrev pub find_replay : String → Option String → Prepared → Handler Prepared
find_replay endpoint none otherwise = return otherwise
find_replay endpoint (some key) otherwise = do
  existing ← statement (Jobs.get_by_idempotency endpoint key)
  replay_or otherwise existing

abbrev pub key_clash : AppError
key_clash = conflict "Job with this idempotency key already exists"

-- `kind()` of the CRON branch.
abbrev pub cron_error : String → DbError → AppError
cron_error endpoint (unique_violation _) = key_clash
cron_error endpoint (foreign_key_violation _) = endpoint_not_found endpoint
cron_error endpoint e = of_db_error e

module _ {Schedule Tz : Type 0} (calendar : Calendar Schedule Tz) where
  abbrev pub check_endpoint : Env → CreateJob calendar → TriggerType → Endpoint → Handler Prepared
  check_endpoint env body trigger ep = do
    refuse_if (is_internal ep.endpoint_type) (
        invalid_request (
          "Endpoint '" ++ body.endpoint
          ++ "' is internal and cannot be used for user-created jobs"))
    validate_input env.validate ep.payload_spec_ref body.input
    find_replay body.endpoint body.idempotency_key
        (fresh trigger ep (attempts_or body.max_attempts (get_retry_policy ep).max_attempts))

  -- The part before a transaction.
  unfoldable pub prepare : Env → CreateJob calendar → Handler Prepared
  prepare env body = do
    trigger ←
        or_reject (trigger_type_of_text body.trigger)
          (invalid_request ("Invalid trigger: " ++ body.trigger))
    row ← statement (Endpoints.get body.endpoint)
    ep ← or_reject row (endpoint_not_found body.endpoint)
    check_endpoint env body trigger ep

  abbrev pub immediate_job : Env → CreateJob calendar → Endpoint → ℤ → Handler Answer
  immediate_job env body ep attempts = do
    result ← statement_or (constraint_error key_clash) (
        Jobs.create_immediate env.now env.job_id env.execution_id body.endpoint ep.endpoint_type
          (get_or body.idempotency_key env.generated_key) body.input attempts)
    return (created result)

  abbrev pub delayed_job : Env → CreateJob calendar → Endpoint → ℤ → Handler Answer
  delayed_job env body ep attempts = do
    key ←
        or_reject body.idempotency_key (invalid_request "idempotency_key required for DELAYED jobs")
    run_at ← or_reject body.run_at (invalid_request "run_at required for DELAYED jobs")
    result ← statement (
        Jobs.create_delayed env.now env.job_id env.execution_id body.endpoint ep.endpoint_type key
          body.input run_at attempts)
    return (created result)

  abbrev pub insert_cron :
      Env → CreateJob calendar → Endpoint → PgCronExpr calendar → String → ℕ → ℕ → Handler Answer
  insert_cron env body ep expression timezone starts_at next_run = do
    job ← statement_or (cron_error body.endpoint) (
        Jobs.create_cron env.now env.job_id body.endpoint ep.endpoint_type body.idempotency_key
          body.input expression.as_str timezone (some starts_at) body.ends_at next_run)
    statement (register_pg_cron_conn env.schema_name job.job_id expression.as_str)
    return (scheduled job)

  abbrev pub cron_job : Env → CreateJob calendar → Endpoint → Handler Answer
  cron_job env body ep = do
    expression ← or_reject body.cron (invalid_request "cron required for CRON jobs")
    timezone ← or_reject body.timezone (invalid_request "timezone required for CRON jobs")
    tz ←
        or_reject (calendar.parse_timezone timezone)
          (invalid_request ("Invalid timezone: " ++ timezone))
    next_run ←
        or_reject
          (compute_next_cron calendar (to_schedule calendar expression) tz
            (get_or body.starts_at env.now))
          (invalid_cron "No upcoming run for this cron schedule")
    insert_cron env body ep expression timezone (get_or body.starts_at env.now) next_run

  -- The transaction, with the checks of its branch before it.
  abbrev pub create_body : Env → CreateJob calendar → TriggerType → Endpoint → ℤ → Handler Answer
  create_body env body immediate ep attempts = immediate_job env body ep attempts
  create_body env body delayed ep attempts = delayed_job env body ep attempts
  create_body env body cron ep attempts = cron_job env body ep

  abbrev pub after_prepare :
      Env
      → CreateJob calendar
      → Bool
      → List (Option String)
      → Store
      → Result AppError Prepared
      → Result AppError Answer × Store
  after_prepare env body commits faults s (err e) = (err e, s)
  after_prepare env body commits faults s (ok (replay job execution)) =
      (ok (replayed job execution), s)
  after_prepare env body commits faults s (ok (fresh trigger ep attempts)) =
      settle commits s (create_body env body trigger ep attempts (begin s faults))

  -- `seen` is the store that the reads see, `s` the one that the transaction begins on.
  unfoldable pub create :
      Env
      → CreateJob calendar
      → Bool
      → List (Option String)
      → List (Option String)
      → Store
      → Store
      → Result AppError Answer × Store
  create env body commits read_faults faults seen s =
      after_prepare env body commits faults s (prepare env body (begin seen read_faults)).0

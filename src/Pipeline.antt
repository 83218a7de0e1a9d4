-- ===== src/Pipeline.antt =====
-- crates/worker/src/pipeline.rs: what the worker does with an execution it has claimed.
-- What is not the program's own is in `Env`: clocks, the random number, the clients, the cipher,
-- the build's features and the text of a database error.
pub mod Load
pub mod Table
pub mod Shared
pub mod Ending
use Prim.Native.String.{◌++◌}
use invokr.Base.{
  ℕ, zero, suc, ◌+◌, ◌-◌, ◌/◌, String, Bool, ◌&&◌, not, Option, none, some, List, [], ◌∷◌, leb,
  str_eq, ◌==◌, find?, is_some, get_or, and_then, if◌then◌else◌,
}
use mathlib.Core.Option as Option
use invokr.Base.Int.{ℤ, pos, negsuc, ltb_ℤ}
use invokr.Base.Map.{insert}
use invokr.Base.Result.{Result, ok, err}
use invokr.Json.{Json, str, int, obj, insert_field, as_object}
use invokr.Json as Json
use invokr.Store.{
  Store, EndpointType, http, kafka, redis_stream, internal, Endpoint, Attempt, AttemptStatus,
  succeeded, failed, ExecutionLog, Level, info, warn, error, Message, endpoint_not_found,
  template_failed, secret_failed, dispatching, succeeded_in, retrying_in, failed_after,
}
use invokr.Store.Enums.{endpoint_type_text}
use invokr.Store.Conn.{DbError, unique_violation, foreign_key_violation, query, M}
use invokr.Template.{resolve}
use invokr.Endpoints as Endpoints
use invokr.Endpoints.{RetryPolicy, get_retry_policy}
use invokr.Executions as Executions
use invokr.Backoff.{compute_backoff}
use invokr.Dispatch.{DispatchResult, success, failure, error_json}
use invokr.Dispatch.Http as Http
use invokr.Dispatch.Kafka as Kafka
use invokr.Dispatch.RedisStream as RedisStream
use invokr.Dispatch.Internal as Internal
use invokr.Pipeline.Load.{Env, World, exec, load_config, load_secrets, field_list}

-- The arguments of `process_execution`.
pub record Task : Type 0 where
  pub schema_name : String
  pub execution_id : String
  pub idempotency_key : String
  pub job_id : String
  pub endpoint : String
  pub endpoint_type : EndpointType
  pub input : Option Json
  pub attempt_count : ℕ
  pub max_attempts : ℤ

-- A statement whose result is dropped: `let _ =`, or only a line of the process's own log.
abbrev pub ignore : {A : Type 0} → M A → World → World
ignore m w = record w { conn = (m w.conn).1 }

-- `(to - from).num_milliseconds()`, towards zero.
unfoldable pub milliseconds : ℕ → ℕ → ℤ
milliseconds from to =
    if leb from to
    then pos ((to - from) / 1000)
    else elim ((from - to) / 1000) [ zero ↦ pos 0 | suc n ↦ negsuc n ]

abbrev same_attempt : Attempt → Attempt → Bool
same_attempt a x = str_eq x.execution_id a.execution_id && x.attempt_number == a.attempt_number

-- Whether the foreign key to `executions` holds.
abbrev is_there : String → Store → Bool
is_there id s = is_some (find? (Executions.has_id id) s.executions)

abbrev pub add_attempt : Attempt → Store → Result DbError (Unit {0} × Store)
add_attempt a s =
    if is_some (find? (same_attempt a) s.attempts)
    then err (unique_violation "uq_attempts_exec_number")
    else if is_there a.execution_id s
    then ok (tt, record s { attempts = a ∷ s.attempts })
    else err (foreign_key_violation "fk_attempts_execution")

abbrev pub add_log : ExecutionLog → Store → Result DbError (Unit {0} × Store)
add_log l s =
    if is_there l.execution_id s
    then ok (tt, record s { logs = l ∷ s.logs })
    else err (foreign_key_violation "fk_logs_execution")

unfoldable pub insert_attempt : Attempt → M (Unit {0})
insert_attempt a = query (add_attempt a)

unfoldable pub insert_log : ExecutionLog → M (Unit {0})
insert_log l = query (add_log l)

unfoldable pub record_attempt :
    Env → Task → AttemptStatus → Option Json → Option Json → World → World
record_attempt env t status output reason = ignore (
    insert_attempt (record {
      execution_id = t.execution_id;
      attempt_number = t.attempt_count;
      status = status;
      started_at = env.started_at;
      completed_at = env.recorded_at;
      duration_ms = milliseconds env.started_at env.recorded_at;
      output = output;
      error = reason;
    }))

unfoldable pub log_execution : Task → Level → Message → World → World
log_execution t level message = ignore (
    insert_log (record {
      execution_id = t.execution_id;
      attempt_number = t.attempt_count;
      level = level;
      message = message;
    }))

abbrev pub mark_failed : Env → Task → World → World
mark_failed env t = ignore (Executions.complete_failed env.now t.execution_id)

-- The way out when a config, a secret or a template cannot be resolved.
unfoldable pub unresolved : Env → Task → String → Message → World → World
unresolved env t text message w = log_execution t error message (
    record_attempt env t failed none (some (error_json "TEMPLATE_RESOLUTION_FAILED" text))
      (mark_failed env t w))

unfoldable pub execution_map : Task → List (String × Json)
execution_map t = insert "job_id" (str t.job_id) (
    insert "execution_id" (str t.execution_id) (
      insert "attempt_count" (int (pos t.attempt_count))
        (insert "idempotency_key" (str t.idempotency_key) [])))

abbrev pub input_map : Option Json → List (String × Json)
input_map input = get_or (Option.map field_list (and_then input as_object)) []

abbrev pub put_body : Json → Option Json → Json
put_body (obj fs) (some v) = obj (insert_field "body" v fs)
put_body spec _ = spec

-- The input is the body if the spec has none.
unfoldable pub inject_body : Json → Option Json → Json
inject_body spec input =
    if not (is_some (Json.get "body" spec)) && not (is_some (Json.get "body_template" spec))
    then put_body spec input
    else spec

abbrev pub unsupported : EndpointType → DispatchResult
unsupported t = failure (error_json "UNSUPPORTED_TYPE" ("Unsupported: " ++ endpoint_type_text t))

abbrev pub internally : Env → Task → Json → World → DispatchResult × World
internally env t spec w =
    let (r, c) = Internal.dispatch env.show env.now t.schema_name spec w.conn in
    (r, record w { conn = c })

unfoldable pub dispatch_as : EndpointType → Env → Task → Json → World → DispatchResult × World
dispatch_as http env t spec w = (Http.dispatch env.http_client spec t.idempotency_key, w)
dispatch_as internal env t spec w = internally env t spec w
dispatch_as kafka env t spec w =
    (if env.has_kafka then Kafka.dispatch env.producer spec else unsupported kafka, w)
dispatch_as redis_stream env t spec w = (
  if env.has_redis_stream then RedisStream.dispatch env.redis spec else unsupported redis_stream,
  w,
)

abbrev pub may_retry : Task → Bool
may_retry t = ltb_ℤ (pos t.attempt_count) t.max_attempts

abbrev pub wait : Env → Task → Json → World → Option ℤ → Option World
wait env t e w none = none
wait env t e w (some backoff_ms) = some (
    log_execution t warn (retrying_in t.attempt_count backoff_ms e)
      (ignore (Executions.complete_retry env.now t.execution_id backoff_ms) w))

-- Records the attempt and ends it; `none` is a panic of `clamp`.
unfoldable pub finish : Env → Task → RetryPolicy → DispatchResult × World → Option World
finish env t policy (success output, w) = some (
    log_execution t info (succeeded_in (milliseconds env.started_at env.completed_at)) (
      ignore (Executions.complete_success env.now t.execution_id output)
        (record_attempt env t succeeded (some output) none w)))
finish env t policy (failure e, w) =
    let noted = record_attempt env t failed none (some e) w in
    if may_retry t
    then wait env t e noted (compute_backoff env.rand policy t.attempt_count)
    else some (log_execution t error (failed_after t.attempt_count e) (mark_failed env t noted))

abbrev pub deliver : Env → Task → Endpoint → World → Result String Json → Option World
deliver env t ep w (err e) = some (unresolved env t e (template_failed e) w)
deliver env t ep w (ok spec) = finish env t (get_retry_policy ep) (
    dispatch_as t.endpoint_type env t (inject_body spec t.input)
      (log_execution t info (dispatching t.endpoint_type t.endpoint) w))

abbrev pub with_secrets :
    Env
    → Task
    → Endpoint
    → List (String × Json)
    → Result String (List (String × String)) × World
    → Option World
with_secrets env t ep config (err e, w) = some (unresolved env t e (secret_failed e) w)
with_secrets env t ep config (ok secrets, w) = deliver env t ep w (
    resolve ep.spec (record {
      input = input_map t.input;
      config = config;
      secrets = secrets;
      execution = execution_map t;
    }))

abbrev pub with_config :
    Env → Task → Endpoint → Result String (List (String × Json)) × World → Option World
with_config env t ep (err e, w) = some (unresolved env t e (template_failed e) w)
with_config env t ep (ok config, w) = with_secrets env t ep config (load_secrets env ep.spec w)

abbrev pub config_of : Env → Endpoint → World → Result String (List (String × Json)) × World
config_of env ep w = elim ep.config_ref [ some name ↦ load_config env name w | none ↦ (ok [], w) ]

abbrev pub with_endpoint : Env → Task → Result DbError (Option Endpoint) × World → Option World
with_endpoint env t (err e, w) = some (mark_failed env t w)
with_endpoint env t (ok none, w) =
    some (log_execution t error (endpoint_not_found t.endpoint) (mark_failed env t w))
with_endpoint env t (ok (some ep), w) = with_config env t ep (config_of env ep w)

-- `none` is a panic, which drops the transaction.
unfoldable pub process_execution : Env → Task → World → Option World
process_execution env t w = with_endpoint env t (exec (Endpoints.get t.endpoint) w)

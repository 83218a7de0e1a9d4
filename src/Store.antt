-- ===== src/Store.antt =====
-- The tables of a workspace (crates/common/migrations/workspace_v1.sql) with the row types of
-- crates/common/src/models. Times are microseconds, durations milliseconds.
pub mod Enums
pub mod Conn
pub mod Does
use invokr.Base.{ℕ, String, Option, List}
use invokr.Base.Int.{ℤ}
use invokr.Json.{Json}

pub data ExecutionStatus : Type 0 where
  pending queued running retrying success failed cancelled : ExecutionStatus

pub data JobStatus : Type 0 where
  active retired : JobStatus

pub data TriggerType : Type 0 where
  immediate delayed cron : TriggerType

pub data EndpointType : Type 0 where
  http kafka redis_stream internal : EndpointType

pub record Execution : Type 0 where
  pub execution_id : String
  pub job_id : String
  pub endpoint : String
  pub endpoint_type : EndpointType
  pub idempotency_key : Option String
  pub status : ExecutionStatus
  pub input : Option Json
  pub output : Option Json
  pub attempt_count : ℕ
  pub max_attempts : ℤ
  pub worker_id : Option String
  pub run_at : ℕ
  pub started_at : Option ℕ
  pub completed_at : Option ℕ
  pub duration_ms : Option ℕ
  pub created_at : ℕ

pub record Job : Type 0 where
  pub job_id : String
  pub endpoint : String
  pub endpoint_type : EndpointType
  pub trigger_type : TriggerType
  pub status : JobStatus
  pub version : ℕ
  pub previous_version_id : Option String
  pub replaced_by_id : Option String
  pub idempotency_key : Option String
  pub input : Option Json
  pub run_at : Option ℕ
  pub cron_expression : Option String
  pub cron_timezone : Option String
  pub cron_starts_at : Option ℕ
  pub cron_ends_at : Option ℕ
  pub cron_next_run_at : Option ℕ
  pub cron_last_tick_at : Option ℕ
  pub created_at : ℕ
  pub retired_at : Option ℕ

pub record Endpoint : Type 0 where
  pub name : String
  pub endpoint_type : EndpointType
  pub payload_spec_ref : Option String
  pub config_ref : Option String
  pub spec : Json
  pub retry_policy : Option Json
  pub created_at : ℕ
  pub updated_at : ℕ

pub data AttemptStatus : Type 0 where
  succeeded failed : AttemptStatus

pub record Attempt : Type 0 where
  pub execution_id : String
  pub attempt_number : ℕ
  pub status : AttemptStatus
  pub started_at : ℕ
  pub completed_at : ℕ
  pub duration_ms : ℤ
  pub output : Option Json
  pub error : Option Json

pub data Level : Type 0 where
  info warn error : Level

-- The texts that `format!` makes for the log, by their arguments.
pub data Message : Type 0 where
  endpoint_not_found : String → Message
  template_failed : String → Message
  secret_failed : String → Message
  dispatching : EndpointType → String → Message
  succeeded_in : ℤ → Message
  retrying_in : ℕ → ℤ → Json → Message
  failed_after : ℕ → Json → Message

pub record ExecutionLog : Type 0 where
  pub execution_id : String
  pub attempt_number : ℕ
  pub level : Level
  pub message : Message

-- A row of `cron.job`: pg_cron runs the command of the job `job_id` at each tick of `schedule`.
pub record CronEntry : Type 0 where
  pub jobname : String
  pub schedule : String
  pub job_id : String

pub record Store : Type 0 where
  pub endpoints : List Endpoint
  pub configs : List (String × Json)
  pub secrets : List (String × List ℕ)
  pub payload_specs : List (String × Json)
  pub jobs : List Job
  pub executions : List Execution
  pub attempts : List Attempt
  pub logs : List ExecutionLog
  pub cron_jobs : List CronEntry

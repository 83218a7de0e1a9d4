-- ===== src/Jobs.antt =====
-- crates/common/src/db/jobs.rs: the statements on the table `jobs` and on pg_cron's `cron.job`.
-- Ids, which PostgreSQL makes by `gen_random_uuid()`, are arguments.
pub mod Cron
pub mod Inserts
use mathlib.Core.Option as Option
use invokr.Base.{
  ℕ, String, Bool, true, false, ◌&&◌, Option, none, some, List, ◌∷◌, map, leb, str_eq, find?, keep,
  is_some, if◌then◌else◌,
}
use invokr.Base.Int.{ℤ}
use invokr.Base.Rows.{update_where}
use invokr.Base.Result.{Result, ok, err}
use invokr.Json.{Json}
use invokr.Store.{
  Store, Job, active, retired, TriggerType, immediate, delayed, cron, EndpointType, Execution,
  ExecutionStatus, pending, queued,
}
use invokr.Store.Conn.{
  DbError, unique_violation, foreign_key_violation, query, M, pure, ◌>>=◌, ◌>>◌,
}
pub use invokr.Endpoints.{is_active}
use invokr.Endpoints.{named}
use invokr.Executions.{new_row, insert_row}

abbrev same_text : Option String → Option String → Bool
same_text (some k) (some j) = str_eq k j
same_text _ _ = false

abbrev pub has_job_id : String → Job → Bool
has_job_id id j = str_eq j.job_id id

-- The unique index on `(endpoint, idempotency_key)`, which leaves rows with no key alone.
abbrev pub takes_key : Job → Job → Bool
takes_key j x = str_eq x.endpoint j.endpoint && same_text x.idempotency_key j.idempotency_key

abbrev pub is_cron : TriggerType → Bool
is_cron cron = true
is_cron _ = false

-- `INSERT INTO jobs`: the primary key, the unique index and the foreign key to `endpoints`.
unfoldable pub insert_job : Job → Store → Result DbError Store
insert_job j s =
    if is_some (find? (has_job_id j.job_id) s.jobs)
    then err (unique_violation "pk_jobs")
    else if is_some (find? (takes_key j) s.jobs)
    then err (unique_violation "idx_jobs_idempotency")
    else if is_some (find? (named j.endpoint) s.endpoints)
    then ok (record s { jobs = j ∷ s.jobs })
    else err (foreign_key_violation "fk_jobs_endpoint")

abbrev pub with_executions : Store → Result DbError (List Execution) → Result DbError Store
with_executions s (ok t) = ok (record s { executions = t })
with_executions s (err e) = err e

-- `INSERT INTO executions`, with the foreign key to `jobs`.
unfoldable pub insert_execution : Execution → Store → Result DbError Store
insert_execution e s =
    if is_some (find? (has_job_id e.job_id) s.jobs)
    then with_executions s (insert_row e s.executions)
    else err (foreign_key_violation "fk_executions_job")

abbrev pub returning : {A : Type 0} → A → Result DbError Store → Result DbError (A × Store)
returning a (ok s) = ok (a, s)
returning a (err e) = err e

-- A new row of `jobs`, with the columns' defaults where an insert names none.
abbrev pub new_job :
    String → String → EndpointType → TriggerType → Option String → Option Json → ℕ → Job
new_job id endpoint endpoint_type trigger key input now = record {
  job_id = id;
  endpoint = endpoint;
  endpoint_type = endpoint_type;
  trigger_type = trigger;
  status = active;
  version = 1;
  previous_version_id = none;
  replaced_by_id = none;
  idempotency_key = key;
  input = input;
  run_at = none;
  cron_expression = none;
  cron_timezone = none;
  cron_starts_at = none;
  cron_ends_at = none;
  cron_next_run_at = none;
  cron_last_tick_at = none;
  created_at = now;
  retired_at = none;
}

pub record CreateJobResult : Type 0 where
  pub job : Job
  pub execution_id : String
  pub execution_status : ExecutionStatus
  pub execution_created_at : ℕ

-- Inserts a job, then its execution.
abbrev pub create_with : Job → Execution → M CreateJobResult
create_with j e = do
  query (λ s. returning tt (insert_job j s))
  query (λ s. returning tt (insert_execution e s))
  pure (record {
    job = j;
    execution_id = e.execution_id;
    execution_status = e.status;
    execution_created_at = e.created_at;
  })

unfoldable pub create_immediate :
    ℕ → String → String → String → EndpointType → String → Option Json → ℤ → M CreateJobResult
create_immediate now job_id execution_id endpoint endpoint_type key input max_attempts =
    create_with (new_job job_id endpoint endpoint_type immediate (some key) input now) (
      new_row execution_id job_id endpoint endpoint_type (some key) queued input now max_attempts
        now)

unfoldable pub create_delayed :
    ℕ → String → String → String → EndpointType → String → Option Json → ℕ → ℤ → M CreateJobResult
create_delayed now job_id execution_id endpoint endpoint_type key input run_at max_attempts =
    create_with
      (record (new_job job_id endpoint endpoint_type delayed (some key) input now) {
        run_at = some run_at;
      })
      (new_row execution_id job_id endpoint endpoint_type (some key) pending input run_at
        max_attempts now)

unfoldable pub create_cron :
    ℕ
    → String
    → String
    → EndpointType
    → Option String
    → Option Json
    → String
    → String
    → Option ℕ
    → Option ℕ
    → ℕ
    → M Job
create_cron now job_id endpoint endpoint_type key input expression timezone starts_at ends_at next =
    let j : Job = record (new_job job_id endpoint endpoint_type cron key input now) {
      cron_expression = some expression;
      cron_timezone = some timezone;
      cron_starts_at = starts_at;
      cron_ends_at = ends_at;
      cron_next_run_at = some next;
    } in
    query (λ s. returning j (insert_job j s))

unfoldable pub get : String → M (Option Job)
get job_id = query (λ s. ok (find? (has_job_id job_id) s.jobs, s))

abbrev pub matches_key : String → String → Job → Bool
matches_key endpoint key j = str_eq j.endpoint endpoint && same_text j.idempotency_key (some key)

unfoldable pub get_by_idempotency : String → String → M (Option Job)
get_by_idempotency endpoint key = query (λ s. ok (find? (matches_key endpoint key) s.jobs, s))

abbrev set_jobs : Store → List Job → Store
set_jobs s t = record s { jobs = t }

-- `WHERE job_id = $1 AND status = 'ACTIVE'`.
abbrev pub is_live : String → Job → Bool
is_live id j = has_job_id id j && is_active j.status

abbrev pub retire : ℕ → Job → Job
retire now j = record j { status = retired; retired_at = some now }

unfoldable pub cancel : ℕ → String → M (Option Job)
cancel now id = query (λ s. ok (
  Option.map (retire now) (find? (is_live id) s.jobs),
  set_jobs s (update_where (is_live id) (retire now) s.jobs),
))

-- `new_id` is the id of the inserted row; the old row is pointed at `new_job.job_id`.
abbrev pub replacing : ℕ → String → Job → Job
replacing now by j = record j { status = retired; retired_at = some now; replaced_by_id = some by }

abbrev pub next_version : ℕ → String → String → Job → Job
next_version now new_id old_id j =
    record (new_job new_id j.endpoint j.endpoint_type cron none j.input now) {
      cron_expression = j.cron_expression;
      cron_timezone = j.cron_timezone;
      cron_starts_at = j.cron_starts_at;
      cron_ends_at = j.cron_ends_at;
      cron_next_run_at = j.cron_next_run_at;
      version = j.version;
      previous_version_id = some old_id;
    }

unfoldable pub retire_and_replace : ℕ → String → String → Job → M Job
retire_and_replace now new_id old_id new = do
  query (λ s. ok (tt, set_jobs s (update_where (is_live old_id) (replacing now new.job_id) s.jobs)))
  query (λ s.
      returning (next_version now new_id old_id new)
        (insert_job (next_version now new_id old_id new) s))

-- `cron_ends_at IS NOT NULL AND cron_ends_at <= now()`.
abbrev pub has_passed : ℕ → Option ℕ → Bool
has_passed now none = false
has_passed now (some t) = leb t now

abbrev pub is_expired : ℕ → Job → Bool
is_expired now j = is_cron j.trigger_type && is_active j.status && has_passed now j.cron_ends_at

unfoldable pub retire_expired_cron_jobs : ℕ → M (List String)
retire_expired_cron_jobs now = query (λ s. ok (
  map (λ j. j.job_id) (keep (is_expired now) s.jobs),
  set_jobs s (update_where (is_expired now) (retire now) s.jobs),
))

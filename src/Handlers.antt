-- ===== src/Handlers.antt =====
-- The job requests of crates/api/src/handlers/jobs.rs: a handler opens a transaction, returns early
-- with an error, which drops it, or commits.
pub mod Yields
pub mod Cancel
pub mod Answer
pub mod Create
pub mod Update
pub mod Configs
pub mod PayloadSpecs
pub mod Secrets
pub mod Endpoints
pub mod Executions
pub mod Status
pub mod Tenants
use invokr.Base.{ℕ, String, Bool, true, false, Option, none, some, List, if◌then◌else◌}
use invokr.Base.Result.{Result, ok, err}
use invokr.Store.{Store, Job, JobStatus, active, retired, EndpointType, internal}
use invokr.Store.Conn.{Conn, DbError, fault, begin, commit, M}
use invokr.Errors.{AppError, job_not_found, conflict, of_db_error}
use invokr.Executions.{cancel_pending_for_job}
use invokr.Jobs.{is_cron}
use invokr.Jobs as Jobs
use invokr.Jobs.Cron.{unregister_pg_cron_conn}

-- The body of a handler, with `?` after each step.
abbrev pub Handler : Type 0 → Type 0
Handler A = Conn → Result AppError A × Conn

abbrev pub follow :
    {A B : Type 0} → (A → Handler B) → Result AppError A × Conn → Result AppError B × Conn
follow next (ok a, c) = next a c
follow next (err e, c) = (err e, c)

infixl 5 ◌>>◌ ◌>>=◌
abbrev pub ◌>>=◌ : {A B : Type 0} → Handler A → (A → Handler B) → Handler B
(step >>= next) c = follow next (step c)

abbrev pub ◌>>◌ : {B : Type 0} → Handler (Unit {0}) → Handler B → Handler B
step >> next = step >>= λ nothing. next

-- A statement whose error is mapped, and one whose error `From<sqlx::Error>` carries on.
abbrev pub answered :
    {A : Type 0} → (DbError → AppError) → Result DbError A × Conn → Result AppError A × Conn
answered f (ok a, c) = (ok a, c)
answered f (err e, c) = (err (f e), c)

abbrev pub statement_or : {A : Type 0} → (DbError → AppError) → M A → Handler A
statement_or f m c = answered f (m c)

abbrev pub statement : {A : Type 0} → M A → Handler A
statement = statement_or of_db_error

abbrev pub return : {A : Type 0} → A → Handler A
return a c = (ok a, c)

abbrev pub reject : {A : Type 0} → AppError → Handler A
reject e c = (err e, c)

-- `ok_or_else(…)?`.
abbrev pub or_reject : {A : Type 0} → Option A → AppError → Handler A
or_reject (some a) e = return a
or_reject none e = reject e

-- `?` on a result.
abbrev pub from_result : {A : Type 0} → Result AppError A → Handler A
from_result (ok a) = return a
from_result (err e) = reject e

-- `if test { return Err(…) }`.
abbrev pub refuse_if : Bool → AppError → Handler (Unit {0})
refuse_if true e = reject e
refuse_if false e = return tt

abbrev pub is_retired : JobStatus → Bool
is_retired retired = true
is_retired active = false

abbrev pub is_internal : EndpointType → Bool
is_internal internal = true
is_internal _ = false

-- The executions of a CRON job are left to run.
abbrev pub cancel_executions : ℕ → Job → String → Handler ℕ
cancel_executions now job job_id =
    if is_cron job.trigger_type then return 0 else statement (cancel_pending_for_job now job_id)

abbrev pub unschedule : String → Job → String → Handler (Unit {0})
unschedule schema_name job job_id =
    if is_cron job.trigger_type
    then statement (unregister_pg_cron_conn schema_name job_id)
    else return tt

abbrev pub cancel_found : ℕ → String → String → Job → Handler Job
cancel_found now schema_name job_id job = do
  refuse_if (is_retired job.status) (conflict "Job is already retired")
  refuse_if (is_internal job.endpoint_type)
      (conflict "Internal invokr jobs cannot be cancelled through the API")
  n ← cancel_executions now job job_id
  row ← statement (Jobs.cancel now job_id)
  cancelled ← or_reject row (conflict "Job could not be cancelled")
  unschedule schema_name job job_id
  return cancelled

-- The transaction of `cancel`.
unfoldable pub cancel_body : ℕ → String → String → Handler Job
cancel_body now schema_name job_id = do
  row ← statement (Jobs.get job_id)
  job ← or_reject row (job_not_found job_id)
  cancel_found now schema_name job_id job

-- The answer and the store, when the body has been run over `before`; a refused commit is an error.
abbrev pub settle :
    {A : Type 0} → Bool → Store → Result AppError A × Conn → Result AppError A × Store
settle commits before (err e, c) = (err e, before)
settle commits before (ok a, c) =
    if commits then (ok a, commit before c) else (err (of_db_error (fault "commit")), before)

-- The handler `cancel`, on a store, with the faults that its statements and its commit meet.
unfoldable pub cancel :
    ℕ → String → String → Bool → List (Option String) → Store → Result AppError Job × Store
cancel now schema_name job_id commits faults s =
    settle commits s (cancel_body now schema_name job_id (begin s faults))

-- On a connection without a transaction each statement commits by itself.
abbrev pub autocommitted : {A : Type 0} → Result AppError A × Conn → Result AppError A × Store
autocommitted r = (r.0, r.1.store)

-- The last statement of such a request, after reads that may have seen an older store.
abbrev pub then_write :
    {A B : Type 0}
    → Result AppError A
    → (A → Handler B)
    → List (Option String)
    → Store
    → Result AppError B × Store
then_write (err e) write faults s = (err e, s)
then_write (ok a) write faults s = autocommitted (write a (begin s faults))

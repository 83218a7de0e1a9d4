-- ===== src/Handlers/Update.antt =====
-- The update of a CRON job, which makes a new version of it: `update` of
-- crates/api/src/handlers/jobs.rs. The job is read on a connection of its own, before the
-- transaction.
pub mod Reads
pub mod Replaces
pub mod Atomic
pub mod Race
use Prim.Native.String.{◌++◌}
use invokr.Base.{ℕ, ◌+◌, String, Bool, not, Option, none, some, List, get_or, or_else}
use invokr.Base.Result.{Result, ok, err}
use invokr.Json.{Json}
use invokr.Store.{Store, Job}
use invokr.Store.Conn.{begin}
use invokr.Errors.{AppError, invalid_request, job_not_found, job_not_updatable, invalid_cron}
use invokr.PgCronExpr.{Calendar, PgCronExpr, to_schedule, try_from, compute_next_cron}
use invokr.Jobs as Jobs
use invokr.Jobs.{is_active, is_cron, retire_and_replace}
use invokr.Jobs.Cron.{register_pg_cron_conn, unregister_pg_cron_conn}
use invokr.Handlers.{
  Handler, statement, return, from_result, or_reject, refuse_if, is_internal, settle, ◌>>=◌, ◌>>◌,
}
use invokr.Handlers.Create.{Env}

module _ {Schedule Tz : Type 0} (calendar : Calendar Schedule Tz) where
  pub record UpdateJob : Type 0 where
    pub cron : Option (PgCronExpr calendar)
    pub timezone : Option String
    pub input : Option Json
    pub starts_at : Option ℕ
    pub ends_at : Option ℕ

  -- The new version, with the expression of its schedule.
  pub record Revision : Type 0 where
    pub new_job : Job
    pub expression : PgCronExpr calendar

  abbrev pub expression_of :
      Option (PgCronExpr calendar) → Option String → Handler (PgCronExpr calendar)
  expression_of (some e) old = return e
  expression_of none old = do
    text ← or_reject old (invalid_cron "Existing job has no cron expression")
    from_result (try_from calendar text)

  abbrev pub revised : UpdateJob → Job → PgCronExpr calendar → String → ℕ → Job
  revised body old expression timezone next_run = record old {
    cron_expression = some expression.as_str;
    cron_timezone = some timezone;
    cron_next_run_at = some next_run;
    version = old.version + 1;
    input = or_else body.input old.input;
    cron_starts_at = or_else body.starts_at old.cron_starts_at;
    cron_ends_at = or_else body.ends_at old.cron_ends_at;
  }

  abbrev pub timezone_of : UpdateJob → Job → String
  timezone_of body old = get_or body.timezone (get_or old.cron_timezone "UTC")

  abbrev pub revise : Env → UpdateJob → Job → Handler Revision
  revise env body old = do
    refuse_if (not (is_cron old.trigger_type)) (job_not_updatable "Only CRON jobs can be updated")
    refuse_if (not (is_active old.status)) (job_not_updatable "Job is not active")
    refuse_if (is_internal old.endpoint_type)
        (job_not_updatable "Internal invokr jobs cannot be modified through the API")
    expression ← expression_of body.cron old.cron_expression
    tz ←
        or_reject (calendar.parse_timezone (timezone_of body old))
          (invalid_request ("Invalid timezone: " ++ timezone_of body old))
    next_run ←
        or_reject (compute_next_cron calendar (to_schedule calendar expression) tz env.now)
          (invalid_cron "No upcoming run")
    return (record {
      new_job = revised body old expression (timezone_of body old) next_run;
      expression = expression;
    })

  -- The part before the transaction.
  unfoldable pub read_old : Env → UpdateJob → String → Handler Revision
  read_old env body job_id = do
    row ← statement (Jobs.get job_id)
    old ← or_reject row (job_not_found job_id)
    revise env body old

  -- The transaction.
  abbrev pub replace : Env → String → Revision → Handler Job
  replace env job_id r = do
    created ← statement (retire_and_replace env.now env.job_id job_id r.new_job)
    statement (unregister_pg_cron_conn env.schema_name job_id)
    statement (register_pg_cron_conn env.schema_name created.job_id r.expression.as_str)
    return created

  abbrev pub after_read :
      Env
      → String
      → Bool
      → List (Option String)
      → Store
      → Result AppError Revision
      → Result AppError Job × Store
  after_read env job_id commits faults s (err e) = (err e, s)
  after_read env job_id commits faults s (ok r) =
      settle commits s (replace env job_id r (begin s faults))

  -- `seen` is the store that the old version is read in, `s` the one that the transaction begins on.
  unfoldable pub update :
      Env
      → UpdateJob
      → String
      → Bool
      → List (Option String)
      → List (Option String)
      → Store
      → Store
      → Result AppError Job × Store
  update env body job_id commits read_faults faults seen s =
      after_read env job_id commits faults s (read_old env body job_id (begin seen read_faults)).0

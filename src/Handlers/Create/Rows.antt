-- ===== src/Handlers/Create/Rows.antt =====
-- The rows that a request for a job makes, by its trigger (crates/api/src/handlers/jobs.rs).
use invokr.Base.{ℕ, ◌≡◌, Option, some, String, ◌∷◌, get_or}
use invokr.Base.Int.{ℤ}
use invokr.Store.{
  Store, Job, Execution, Endpoint, TriggerType, immediate, delayed, cron, pending, queued,
}
use invokr.PgCronExpr.{Calendar, PgCronExpr, to_schedule}
use invokr.Executions.{new_row}
use invokr.Jobs.{CreateJobResult, new_job}
use invokr.Jobs.Inserts.{Inserted, InsertedBoth}
use invokr.Jobs.Cron.{others, cron_job_name}
use invokr.Handlers.Create.{Env, CreateJob, Answer, created, scheduled}

abbrev pub MakesTimed : Job → Execution → Store → Answer → Store → Type 0
MakesTimed j e s a x = (r : CreateJobResult) × (a ≡ created r) × InsertedBoth j e s r x

-- The entry of a schedule, which takes the place of any other of its name.
abbrev pub with_entry : String → String → String → Store → Store
with_entry schema_name job_id expression s = record s {
  cron_jobs =
      record { jobname = cron_job_name schema_name job_id; schedule = expression; job_id = job_id }
      ∷ others (cron_job_name schema_name job_id) s.cron_jobs;
}

module _ {Schedule Tz : Type 0} (calendar : Calendar Schedule Tz) where
  module _ (env : Env) (body : CreateJob calendar) (ep : Endpoint) where
    abbrev pub immediate_key : Option String
    immediate_key = some (get_or body.idempotency_key env.generated_key)

    abbrev pub immediate_row : Job
    immediate_row =
        new_job env.job_id body.endpoint ep.endpoint_type immediate immediate_key body.input env.now

    abbrev pub immediate_execution : ℤ → Execution
    immediate_execution attempts =
        new_row env.execution_id env.job_id body.endpoint ep.endpoint_type immediate_key queued
          body.input env.now attempts env.now

    abbrev pub MakesImmediate : ℤ → Store → Answer → Store → Type 0
    MakesImmediate attempts = MakesTimed immediate_row (immediate_execution attempts)

    abbrev pub delayed_row : String → ℕ → Job
    delayed_row key run_at =
        record (new_job env.job_id body.endpoint ep.endpoint_type delayed (some key) body.input
          env.now) { run_at = some run_at }

    abbrev pub delayed_execution : String → ℕ → ℤ → Execution
    delayed_execution key run_at attempts =
        new_row env.execution_id env.job_id body.endpoint ep.endpoint_type (some key) pending
          body.input run_at attempts env.now

    abbrev pub MakesDelayed : ℤ → Store → Answer → Store → Type 0
    MakesDelayed attempts s a x =
        (key : String) × (body.idempotency_key ≡ some key)
        × ((run_at : ℕ) × (body.run_at ≡ some run_at)
            × MakesTimed (delayed_row key run_at) (delayed_execution key run_at attempts) s a x)

    abbrev pub cron_row : PgCronExpr calendar → String → ℕ → ℕ → Job
    cron_row expression timezone starts_at next =
        record (new_job env.job_id body.endpoint ep.endpoint_type cron body.idempotency_key
          body.input env.now) {
            cron_expression = some expression.as_str;
            cron_timezone = some timezone;
            cron_starts_at = some starts_at;
            cron_ends_at = body.ends_at;
            cron_next_run_at = some next;
          }

    abbrev pub Scheduled : PgCronExpr calendar → String → ℕ → ℕ → Store → Answer → Store → Type 0
    Scheduled expression timezone starts_at next s a x =
        let j = cron_row expression timezone starts_at next in
        (a ≡ scheduled j)
        × ((y : Store) × Inserted j s y
            × (x ≡ with_entry env.schema_name env.job_id expression.as_str y))

    -- The schedule has a next run in its time zone.
    abbrev pub MakesCron : Store → Answer → Store → Type 0
    MakesCron s a x =
        let starts_at = get_or body.starts_at env.now in
        (expression : PgCronExpr calendar) × (body.cron ≡ some expression)
        × ((timezone : String) × (body.timezone ≡ some timezone)
            × ((tz : Tz) × (calendar.parse_timezone timezone ≡ some tz)
                × ((next : ℕ) × (calendar.upcoming (to_schedule calendar expression) tz starts_at
                      ≡ some next)
                    × Scheduled expression timezone starts_at next s a x)))

    abbrev pub Makes : TriggerType → ℤ → Store → Answer → Store → Type 0
    Makes immediate attempts = MakesImmediate attempts
    Makes delayed attempts = MakesDelayed attempts
    Makes cron attempts = MakesCron

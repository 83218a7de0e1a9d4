-- ===== src/Examples/JobRequests.antt =====
-- Requests that make and change jobs, tried at concrete values.
use invokr.Base.{◌≡◌, refl, ◌+◌, ◌==◌, String, true, none, some, [], ◌∷◌, str_eq, if◌then◌else◌}
use invokr.Base.Result.{ok, err}
use invokr.Base.Text.{is_whitespace}
use invokr.Base.Rows.{update_where}
use invokr.Store.{Store, Job}
use invokr.Store.Conn.{query}
use invokr.Store.Enums.{trigger_type_of_text}
use invokr.PgCronExpr.{Calendar, PgCronExpr, words_after, field_count}
use invokr.Base.Int.{pos}
use invokr.Endpoints.{get_retry_policy}
use invokr.Endpoints as Endpoints
use invokr.Executions.{newest, of_job, insert_row}
use invokr.Jobs.{
  is_live, replacing, next_version, CreateJobResult, retire, get_by_idempotency, create_immediate,
  insert_job, insert_execution,
}
use invokr.Jobs.Inserts.{result_of}
use invokr.Handlers.Create.{Env, CreateJob, valid, create, prepare, replayed, created}
use invokr.Handlers.Create.Rows.{immediate_row, immediate_execution}
use invokr.Handlers.Create.Atomic.{CreateOutcome, create_atomic}
use invokr.Handlers.Create.Again.{create_idempotent}
use invokr.Handlers.Update.{UpdateJob, update, revised}
use invokr.Handlers.Update.Replaces.{reschedule}
use invokr.Handlers.Update.Atomic.{UpdateOutcome, update_atomic}
use invokr.Handlers.Update.Race.{update_answers}
use invokr.Examples.{row, nightly, store, hook}

-- A calendar that takes seven fields for a schedule, and finds a run one minute later.
abbrev pub calendar : Calendar String String
calendar = record {
  parse_schedule = λ s. if field_count s == 7 then ok s else err "fields";
  parse_timezone = λ t. if str_eq t "UTC" then some t else none;
  upcoming = λ s t after. some (after + 60000000);
}

unfoldable midnight : PgCronExpr calendar
unfolding words_after is_whitespace
midnight = record { as_str = "0 0 * * *"; five = refl; valid = tt }

abbrev pub env : Env
env = record {
  now = 12;
  job_id = "j2";
  execution_id = "e2";
  generated_key = "g";
  schema_name = "ws";
  validate = λ schema input. valid;
}

abbrev pub body : CreateJob calendar
body = record {
  endpoint = "hook";
  trigger = "IMMEDIATE";
  idempotency_key = some "k2";
  input = none;
  max_attempts = none;
  run_at = none;
  cron = none;
  timezone = none;
  starts_at = none;
  ends_at = none;
}

create_atomic_example :
    CreateOutcome calendar env body store store (create calendar env body true [] [] store store)
create_atomic_example = create_atomic calendar env body store store true [] []

abbrev made : CreateJobResult
made =
    result_of (immediate_row calendar env body hook)
      (immediate_execution calendar env body hook (pos 1))

abbrev after : Store
after = record store {
  jobs = made.job ∷ store.jobs;
  executions = immediate_execution calendar env body hook (pos 1) ∷ store.executions;
}

makes_test : create calendar env body true [] [] store store ≡ (ok (created made), after)
unfolding create prepare trigger_type_of_text Endpoints.get get_retry_policy query
    get_by_idempotency create_immediate insert_job insert_execution insert_row
makes_test = refl

-- Another execution has come between.
abbrev later : Store
later = record after { executions = row ∷ after.executions }

create_idempotent_example :
    create calendar (record env { job_id = "j3" }) body true [] [] later later
    ≡ (ok (replayed made.job (newest (of_job "j2") later.executions)), later)
create_idempotent_example =
    create_idempotent calendar env (record env { job_id = "j3" }) body store after later later made
      "k2" true true [] [] [] refl refl makes_test (refl, refl, refl)

abbrev change : UpdateJob calendar
change = record {
  cron = some midnight;
  timezone = some "UTC";
  input = none;
  starts_at = none;
  ends_at = none;
}

update_atomic_example :
    UpdateOutcome calendar env change "j1" store store
      (update calendar env change "j1" true [] [] store store)
update_atomic_example = update_atomic calendar env change "j1" store store true [] []

-- The job has been cancelled meanwhile.
abbrev meanwhile : Store
meanwhile = record store { jobs = retire 11 nightly ∷ []; cron_jobs = [] }

abbrev next : Job
next = next_version 12 "j2" "j1" (revised calendar change nightly midnight "UTC" 60000012)

update_answers_example : update calendar env change "j1" true [] [] store meanwhile ≡ (
  ok next,
  reschedule calendar "ws" "j1" "j2" midnight.as_str (record meanwhile {
    jobs = next ∷ update_where (is_live "j1") (replacing 12 "j1") meanwhile.jobs;
  }),
)
update_answers_example =
    update_answers calendar env change "j1" store meanwhile nightly midnight "UTC" 60000012 refl
      refl refl refl refl refl refl refl refl

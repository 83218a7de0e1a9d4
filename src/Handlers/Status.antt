-- ===== src/Handlers/Status.antt =====
-- The status of a job: `status` of crates/api/src/handlers/jobs.rs.
pub mod Counts
use invokr.Base.{
  ℕ, String, Bool, true, false, ◌||◌, Option, List, head?, find?, keep, length, ltb, ◌==◌,
  if◌then◌else◌, none, some,
}
use invokr.Store.{Job, Execution, pending, queued, running, retrying, success, failed}
use invokr.Errors.{job_not_found}
use invokr.Executions.Newest.{list_for_job}
use invokr.Jobs.{is_cron}
use invokr.Jobs as Jobs
use invokr.Handlers.{Handler, statement, or_reject, return, ◌>>=◌}

abbrev pub is_waiting : Execution → Bool
is_waiting e = elim e.status [ pending ↦ true | queued ↦ true | _ ↦ false ]

abbrev pub is_running : Execution → Bool
is_running e = elim e.status [ running ↦ true | retrying ↦ true | _ ↦ false ]

abbrev pub is_succeeded : Execution → Bool
is_succeeded e = elim e.status [ success ↦ true | _ ↦ false ]

abbrev pub is_failed : Execution → Bool
is_failed e = elim e.status [ failed ↦ true | _ ↦ false ]

abbrev pub is_active : Execution → Bool
is_active e = elim e.status [
  | pending ↦ true
  | queued ↦ true
  | running ↦ true
  | retrying ↦ true
  | _ ↦ false
]

abbrev pub has_outcome : Execution → Bool
has_outcome e = is_succeeded e || is_failed e

-- `iter().filter(p).count()`.
abbrev pub count : (Execution → Bool) → List Execution → ℕ
count p t = length (keep p t)

unfoldable pub health : ℕ → ℕ → ℕ → String
health shown failures successes =
    if shown == 0
    then "IDLE"
    else if ltb successes failures
    then "FAILING"
    else if ltb 0 failures
    then "DEGRADED"
    else "HEALTHY"

pub record CronStatus : Type 0 where
  pub expression : Option String
  pub next_run_at : Option ℕ
  pub last_tick_at : Option ℕ

-- The rows of the executions, of which the answer shows some columns.
pub record JobReport : Type 0 where
  pub job : Job
  pub latest_execution : Option Execution
  pub health : String
  pub last_execution : Option Execution
  pub pending : ℕ
  pub running : ℕ
  pub total : ℕ
  pub cron : Option CronStatus

abbrev pub cron_status : Job → Option CronStatus
cron_status job =
    if is_cron job.trigger_type
    then some record {
      expression = job.cron_expression;
      next_run_at = job.cron_next_run_at;
      last_tick_at = job.cron_last_tick_at;
    }
    else none

abbrev pub report : Job → List Execution → JobReport
report job execs = record {
  job = job;
  latest_execution = head? execs;
  health = health (length execs) (count is_failed execs) (count is_succeeded execs);
  last_execution = find? has_outcome execs;
  pending = count is_waiting execs;
  running = count is_running execs;
  total = count is_active execs;
  cron = cron_status job;
}

-- The handler `status`, on a connection without a transaction.
unfoldable pub status : String → Handler JobReport
status job_id = do
  row ← statement (Jobs.get job_id)
  job ← or_reject row (job_not_found job_id)
  execs ← statement (list_for_job job_id none 200)
  return (report job execs)

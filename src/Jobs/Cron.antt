-- ===== src/Jobs/Cron.antt =====
-- The pg_cron half of crates/common/src/db/jobs.rs: the entries of `cron.job`, and the command that
-- pg_cron runs at each tick. pg_cron is taken at its documented word: `cron.schedule` replaces an
-- entry of the same name.
pub mod Opens
pub mod Window
use Prim.Native.String.{◌++◌}
use invokr.Base.{
  ℕ, ◌+◌, ◌/◌, String, Bool, true, not, ◌&&◌, Option, none, some, List, ◌∷◌, leb, ltb, str_eq,
  find?, is_some, keep, if◌then◌else◌,
}
use invokr.Base.Int.{ℤ, pos}
use invokr.Base.Result.{Result, ok, err}
use invokr.Base.Text.{show_nat}
use invokr.Json.{Json, null}
use invokr.Json as Json
use invokr.Store.{Store, Job, Execution, queued, CronEntry}
use invokr.Store.Conn.{DbError, fault, query, M}
use invokr.Endpoints.{named, as_i64}
use invokr.Executions.{new_row, insert_row}
use invokr.Jobs.{has_job_id, is_active}

abbrev pub cron_job_name : String → String → String
cron_job_name schema_name job_id = "invokr_" ++ schema_name ++ "_" ++ job_id

abbrev pub has_name : String → CronEntry → Bool
has_name name e = str_eq e.jobname name

abbrev pub others : String → List CronEntry → List CronEntry
others name t = keep (λ e. not (has_name name e)) t

unfoldable pub register_pg_cron_conn : String → String → String → M (Unit {0})
unfolding query
register_pg_cron_conn schema_name job_id cron_expression =
    let name = cron_job_name schema_name job_id in
    query (λ s. ok (
      tt,
      record s {
        cron_jobs =
            record { jobname = name; schedule = cron_expression; job_id = job_id }
            ∷ others name s.cron_jobs;
      },
    ))

-- A missing entry is no error.
unfoldable pub unregister_pg_cron_conn : String → String → M (Unit {0})
unregister_pg_cron_conn schema_name job_id =
    query
      (λ s. ok (tt, record s { cron_jobs = others (cron_job_name schema_name job_id) s.cron_jobs }))

abbrev pub no_entry : String → String
no_entry name = "could not find valid entry for job '" ++ name ++ "'"

-- `cron.unschedule` by name, which raises an error where there is no entry.
unfoldable pub unregister_pg_cron : String → String → M (Unit {0})
unregister_pg_cron schema_name job_id =
    let name = cron_job_name schema_name job_id in
    query (λ s.
      if is_some (find? (has_name name) s.cron_jobs)
      then ok (tt, record s { cron_jobs = others name s.cron_jobs })
      else err (fault (no_entry name)))

-- `IS NULL OR cron_starts_at <= now()`.
abbrev pub has_started : ℕ → Option ℕ → Bool
has_started now none = true
has_started now (some t) = leb t now

-- `IS NULL OR cron_ends_at > now()`.
abbrev pub is_unended : ℕ → Option ℕ → Bool
is_unended now none = true
is_unended now (some t) = ltb now t

abbrev pub fires : ℕ → String → Job → Bool
fires now job_id j =
    has_job_id job_id j
    && is_active j.status
    && has_started now j.cron_starts_at
    && is_unended now j.cron_ends_at

-- `'cron_' || job_id || '_' || (EXTRACT(EPOCH FROM now()) * 1000)::BIGINT`.
abbrev pub cron_key : ℕ → String → String
cron_key now job_id = "cron_" ++ job_id ++ "_" ++ show_nat ((now + 500) / 1000)

abbrev attempts_of : Option Json → Option ℤ
attempts_of none = some (pos 1)
attempts_of (some null) = some (pos 1)
attempts_of (some v) = as_i64 v

-- `COALESCE((retry_policy->>'max_attempts')::BIGINT, 1)`. Policies are stored with an integer
-- there; any other value is taken to fail the command.
abbrev pub policy_attempts : Option Json → Option ℤ
policy_attempts none = some (pos 1)
policy_attempts (some p) = attempts_of (Json.get "max_attempts" p)

abbrev pub tick_row : ℕ → String → Job → ℤ → Execution
tick_row now new_id j max_attempts =
    new_row new_id j.job_id j.endpoint j.endpoint_type (some (cron_key now j.job_id)) queued j.input
      now max_attempts now

-- The table after the insert; a conflict and an error both leave it as it was.
abbrev pub settled : Store → Result DbError (List Execution) → Store
settled s (ok t) = record s { executions = t }
settled s (err e) = s

abbrev materialize : ℕ → String → Job → Store → Option ℤ → Store
materialize now new_id j s none = s
materialize now new_id j s (some n) = settled s (insert_row (tick_row now new_id j n) s.executions)

abbrev fire : ℕ → String → Store → Option Job → Store
fire now new_id s none = s
fire now new_id s (some j) = elim (find? (named j.endpoint) s.endpoints) [
  | none ↦ s
  | some e ↦ materialize now new_id j s (policy_attempts e.retry_policy)
]

-- The command of `build_cron_command`, as pg_cron runs it at `now`; `new_id` is the new row's id.
unfoldable pub tick : ℕ → String → String → Store → Store
tick now new_id job_id s = fire now new_id s (find? (fires now job_id) s.jobs)

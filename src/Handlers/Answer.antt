-- ===== src/Handlers/Answer.antt =====
-- That a cancellation which may be done is done (crates/api/src/handlers/jobs.rs).
use invokr.Base.{◌≡◌, refl, ℕ, String, true, false, some, [], find?, Bool-cases, inl, inr}
use invokr.Base.Result.{ok}
use invokr.Store.{Store, Job}
use invokr.Store.Conn.{query}
use invokr.Executions.{cancel_pending_for_job}
use invokr.Jobs.{has_job_id, is_live, retire, is_cron}
use invokr.Jobs as Jobs
use invokr.Jobs.Cron.{unregister_pg_cron_conn}
use invokr.Handlers.{is_retired, is_internal, cancel, cancel_body, unschedule}
use invokr.Handlers.Cancel.{cancelled}

-- With no fault on the way, the cancellation of a job that is there, ACTIVE and not INTERNAL
-- answers with the job as retired, and commits the whole change.
cancel_answers :
    (now : ℕ) (schema_name id : String) (s : Store) (j d : Job)
    → find? (has_job_id id) s.jobs ≡ some j
    → is_retired j.status ≡ false
    → is_internal j.endpoint_type ≡ false
    → find? (is_live id) s.jobs ≡ some d
    → cancel now schema_name id true [] s ≡ (ok (retire now d), cancelled now schema_name j id s)
unfolding cancel cancel_body Jobs.get Jobs.cancel cancel_pending_for_job unregister_pg_cron_conn
    query
cancel_answers now schema_name id s j d there active external live =
    elim (Bool-cases (is_cron j.trigger_type)) [
      | inl cron ↦ rw (there, active, external, cron, live) (rw (cron, unschedule) refl)
      | inr timed ↦ rw (there, active, external, timed, live) (rw (timed, unschedule) refl)
    ]

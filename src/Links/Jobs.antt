-- ===== src/Links/Jobs.antt =====
-- That the statements on jobs and executions keep the references between the tables.
use invokr.Base.{ℕ, ◌≡◌, refl, ◌∙◌, String, Bool, ◌∷◌, ◌&&◌, find?, keep, map, length, All-weaken}
use mathlib.Core.Option as Option
use invokr.Base.Rows.{find?-grows, is_some-find?-update, All-update, update_where}
use invokr.Store.{Store, Job, Execution}
use invokr.Store.Conn.{query}
use invokr.Executions.{of_job, is_cancellable, cancel_row, cancel_pending_for_job}
use invokr.Jobs.{
  has_job_id, is_live, is_expired, retire, replacing, returning, insert_job, insert_execution,
  create_with, retire_and_replace, retire_expired_cron_jobs, next_version,
}
use invokr.Jobs as Jobs
use invokr.Jobs.Inserts.{insert_job-ok, insert_execution-ok, returning-ok}
use invokr.Jobs.Cron.{register_pg_cron_conn, unregister_pg_cron_conn}
use invokr.Links.{JobIsLinked, ExecutionIsLinked, IsLinked}
use invokr.Links.Keeps.{Keeps, query-Keeps, change-Keeps, continue-Keeps}

pub insert_job-Keeps :
    {A : Type 0} (a : A) (j : Job) → Keeps IsLinked (query (λ s. returning a (insert_job j s)))
insert_job-Keeps a j =
    query-Keeps IsLinked (λ s. returning a (insert_job j s))
      (λ s b x h l.
        let made = insert_job-ok j s x (returning-ok a b x (insert_job j s) h).1 in
        rw (made.3) (
          l.0,
          (made.2, l.1),
          All-weaken (ExecutionIsLinked s.jobs) (ExecutionIsLinked (j ∷ s.jobs)) s.executions
              (λ e h. find?-grows (has_job_id e.job_id) j s.jobs h) l.2,
        ))

pub insert_execution-Keeps :
    {A : Type 0} (a : A) (e : Execution)
    → Keeps IsLinked (query (λ s. returning a (insert_execution e s)))
insert_execution-Keeps a e =
    query-Keeps IsLinked (λ s. returning a (insert_execution e s))
      (λ s b x h l.
        let made = insert_execution-ok e s x (returning-ok a b x (insert_execution e s) h).1 in
        rw (made.2) (l.0, l.1, (made.0, l.2)))

pub create_with-Keeps : (j : Job) (e : Execution) → Keeps IsLinked (create_with j e)
create_with-Keeps j e =
    continue-Keeps IsLinked (query (λ s. returning tt (insert_job j s))) _ (insert_job-Keeps tt j)
      (λ _.
        continue-Keeps IsLinked (query (λ s. returning tt (insert_execution e s))) _
          (insert_execution-Keeps tt e) (λ _ c l. l))

-- An update of jobs that keeps their ids and endpoints.
pub update-IsLinked :
    (p : Job → Bool) (f : Job → Job) (s : Store)
    → ((j : Job) → (f j).endpoint ≡ j.endpoint)
    → ((j : Job) → (f j).job_id ≡ j.job_id)
    → IsLinked s
    → IsLinked (record s { jobs = update_where p f s.jobs })
update-IsLinked p f s endpoint id l = (
  l.0,
  All-update (JobIsLinked s.endpoints) p f s.jobs (λ j h _. rw (endpoint j) h) l.1,
  All-weaken (ExecutionIsLinked s.jobs) (ExecutionIsLinked (update_where p f s.jobs)) s.executions
      (λ e h. is_some-find?-update (has_job_id e.job_id) p f s.jobs (λ j. rw (id j) refl) ∙ h) l.2,
)

pub cancel-Keeps : (now : ℕ) (id : String) → Keeps IsLinked (Jobs.cancel now id)
unfolding Jobs.cancel
cancel-Keeps now id =
    change-Keeps IsLinked (λ s. Option.map (retire now) (find? (is_live id) s.jobs))
      (λ s. record s { jobs = update_where (is_live id) (retire now) s.jobs })
      (λ s l. update-IsLinked (is_live id) (retire now) s (λ j. refl) (λ j. refl) l)

pub retire_and_replace-Keeps :
    (now : ℕ) (new_id old_id : String) (new : Job)
    → Keeps IsLinked (retire_and_replace now new_id old_id new)
unfolding retire_and_replace
retire_and_replace-Keeps now new_id old_id new =
    continue-Keeps IsLinked _ _
      (change-Keeps IsLinked (λ s. tt)
        (λ s. record s { jobs = update_where (is_live old_id) (replacing now new.job_id) s.jobs })
        (λ s l.
          update-IsLinked (is_live old_id) (replacing now new.job_id) s (λ j. refl) (λ j. refl) l))
      (λ _.
        insert_job-Keeps (next_version now new_id old_id new) (next_version now new_id old_id new))

pub retire_expired_cron_jobs-Keeps : (now : ℕ) → Keeps IsLinked (retire_expired_cron_jobs now)
unfolding retire_expired_cron_jobs
retire_expired_cron_jobs-Keeps now =
    change-Keeps IsLinked (λ s. map (λ (j : Job). j.job_id) (keep (is_expired now) s.jobs))
      (λ s. record s { jobs = update_where (is_expired now) (retire now) s.jobs })
      (λ s l. update-IsLinked (is_expired now) (retire now) s (λ j. refl) (λ j. refl) l)

pub cancel_pending_for_job-Keeps :
    (now : ℕ) (id : String) → Keeps IsLinked (cancel_pending_for_job now id)
unfolding cancel_pending_for_job
cancel_pending_for_job-Keeps now id =
    change-Keeps IsLinked
      (λ s. length (keep (λ e. of_job id e && is_cancellable e.status) s.executions))
      (λ s. record s {
        executions =
            update_where (λ e. of_job id e && is_cancellable e.status) (cancel_row now)
              s.executions;
      })
      (λ s l. (
        l.0,
        l.1,
        All-update (ExecutionIsLinked s.jobs) (λ e. of_job id e && is_cancellable e.status)
            (cancel_row now) s.executions (λ e h _. h) l.2,
      ))

pub register-Keeps :
    (schema_name job_id expression : String)
    → Keeps IsLinked (register_pg_cron_conn schema_name job_id expression)
unfolding register_pg_cron_conn
register-Keeps schema_name job_id expression = change-Keeps IsLinked (λ s. tt) _ (λ s l. l)

pub unregister-Keeps :
    (schema_name job_id : String) → Keeps IsLinked (unregister_pg_cron_conn schema_name job_id)
unfolding unregister_pg_cron_conn
unregister-Keeps schema_name job_id = change-Keeps IsLinked (λ s. tt) _ (λ s l. l)

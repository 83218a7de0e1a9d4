-- ===== src/Handlers/Update/Replaces.antt =====
-- What the transaction of an update does (crates/api/src/handlers/jobs.rs).
use mathlib.Core.Path.{subst}
use invokr.Base.{ℕ, ◌≡◌, refl, ap, ◌∙◌, inr, false, String}
use invokr.Base.Result.{ok}
use invokr.Base.Rows.{update_where}
use invokr.Store.{Store, Job}
use invokr.Store.Conn.{Conn, query}
use invokr.Store.Does.{Does, query-Does, bind-Does}
use invokr.Errors.{of_db_error}
use invokr.PgCronExpr.{Calendar}
use invokr.Jobs.{is_live, replacing, next_version, retire_and_replace, insert_job, returning}
use invokr.Jobs.Inserts.{Inserted, insert_job-Does}
use invokr.Jobs.Cron.{register_pg_cron_conn, unregister_pg_cron_conn, others, cron_job_name}
use invokr.Handlers.{Handler, return, statement, ◌>>◌}
use invokr.Handlers.Yields.{Yields, statement-follow, update-follow}
use invokr.Handlers.Create.{Env}
use invokr.Handlers.Create.Rows.{with_entry}
use invokr.Handlers.Update.{Revision, replace}

-- The old version RETIRED, the new one inserted, in the two statements of `retire_and_replace`.
abbrev pub Replaces : ℕ → String → String → Job → Store → Job → Store → Type 0
Replaces now new_id old_id new s created x =
    (created ≡ next_version now new_id old_id new)
    × Inserted (next_version now new_id old_id new)
        (record s { jobs = update_where (is_live old_id) (replacing now new.job_id) s.jobs }) x

pub retire_and_replace-Does :
    (now : ℕ) (new_id old_id : String) (new : Job) (c : Conn)
    → c.aborted ≡ false
    → Does (Replaces now new_id old_id new c.store) (retire_and_replace now new_id old_id new c)
unfolding retire_and_replace
retire_and_replace-Does now new_id old_id new c alive =
    bind-Does (λ _ x. x ≡ retired c.store) (Replaces now new_id old_id new c.store) _
      (query (λ s. ok (tt, retired s)) c)
      (query-Does (λ _ x. x ≡ retired c.store) (λ s. ok (tt, retired s)) c alive (λ a x h. cc))
      (λ _ d live same.
        subst
          (λ y.
            Does (λ b x. (b ≡ row) × Inserted row y x)
              (query (λ r. returning row (insert_job row r)) d))
          same (insert_job-Does row row d live))
  where
    row : Job
    row = next_version now new_id old_id new

    retired : Store → Store
    retired s = record s { jobs = update_where (is_live old_id) (replacing now new.job_id) s.jobs }

module _ {Schedule Tz : Type 0} (calendar : Calendar Schedule Tz) where
  -- The cron entry of the old version goes, and that of the new one comes.
  abbrev pub reschedule : String → String → String → String → Store → Store
  reschedule schema_name old_id new_id expression s =
      with_entry schema_name new_id expression
        (record s { cron_jobs = others (cron_job_name schema_name old_id) s.cron_jobs })

  abbrev pub Updates : Env → String → Revision calendar → Store → Job → Store → Type 0
  Updates env job_id r s created x =
      (y : Store) × Replaces env.now env.job_id job_id r.new_job s created y
      × (x ≡ reschedule env.schema_name job_id created.job_id r.expression.as_str y)

  pub replace-Yields :
      (env : Env) (job_id : String) (r : Revision calendar) (c : Conn)
      → c.aborted ≡ false
      → Yields (Updates env job_id r c.store) (replace calendar env job_id r c)
  unfolding unregister_pg_cron_conn register_pg_cron_conn
  replace-Yields env job_id r c alive =
      statement-follow (Updates env job_id r c.store) (after r)
        (Replaces env.now env.job_id job_id r.new_job c.store) of_db_error
        (retire_and_replace env.now env.job_id job_id r.new_job) c
        (retire_and_replace-Does env.now env.job_id job_id r.new_job c alive)
        (λ created d live made.
          update-follow (Updates env job_id r c.store) (λ _. last r created) (λ s. tt)
            (λ s. record s {
              cron_jobs = others (cron_job_name env.schema_name job_id) s.cron_jobs;
            })
            d.store d live refl
            (λ d1 live1 removed.
              update-follow (Updates env job_id r c.store) (λ _. return created) (λ s. tt)
                (with_entry env.schema_name created.job_id r.expression.as_str) d1.store d1 live1
                refl
                (λ d2 live2 entered. inr (
                  live2,
                  (
                    created,
                    refl,
                    (
                      d.store,
                      made,
                      entered
                          ∙ ap (with_entry env.schema_name created.job_id r.expression.as_str)
                              removed,
                    ),
                  ),
                ))))
    where
      last : Revision calendar → Job → Handler Job
      last r created =
          statement (register_pg_cron_conn env.schema_name created.job_id r.expression.as_str)
          >> return created

      after : Revision calendar → Job → Handler Job
      after r created = statement (unregister_pg_cron_conn env.schema_name job_id) >> last r created

-- ===== src/Handlers/Create/Bodies.antt =====
-- That the transaction of a request for a job makes its rows (crates/api/src/handlers/jobs.rs).
use invokr.Base.{ℕ, ◌≡◌, refl, ap, ◌∙◌, inr, false, String, get_or}
use invokr.Base.Int.{ℤ}
use invokr.Store.{Job, Execution, Endpoint, TriggerType, immediate, delayed, cron}
use invokr.Store.Conn.{Conn, DbError, query}
use invokr.Errors.{AppError, constraint_error, of_db_error}
use invokr.PgCronExpr.{Calendar, PgCronExpr, to_schedule}
use invokr.Jobs.{create_immediate, create_delayed, create_cron, create_with, returning, insert_job}
use invokr.Jobs.Inserts.{Inserted, InsertedBoth, insert_job-Does, create_with-Does}
use invokr.Jobs.Cron.{register_pg_cron_conn}
use invokr.Handlers.{follow, return, statement, statement_or, ◌>>◌}
use invokr.Handlers.Yields.{
  Yields, weaken-Yields, or_reject-follow, statement-follow, update-follow,
}
use invokr.Handlers.Create.{
  Env, CreateJob, created, scheduled, key_clash, cron_error, immediate_job, delayed_job,
  insert_cron, cron_job, create_body,
}
use invokr.Handlers.Create.Rows.{
  MakesTimed, with_entry, immediate_row, immediate_execution, MakesImmediate, delayed_row,
  delayed_execution, MakesDelayed, cron_row, Scheduled, MakesCron, Makes,
}

timed-Yields :
    (f : DbError → AppError) (j : Job) (e : Execution) (c : Conn)
    → c.aborted ≡ false
    → Yields
        (MakesTimed j e c.store)
        (follow (λ r. return (created r)) (statement_or f (create_with j e) c))
timed-Yields f j e c alive =
    statement-follow (MakesTimed j e c.store) (λ r. return (created r)) (InsertedBoth j e c.store) f
      (create_with j e) c (create_with-Does j e c alive)
      (λ r d live made. inr (live, (created r, refl, (r, refl, made))))

module _ {Schedule Tz : Type 0} (calendar : Calendar Schedule Tz) where
  module _ (env : Env) (body : CreateJob calendar) (ep : Endpoint) where
    immediate_job-Yields :
        (attempts : ℤ) (c : Conn)
        → c.aborted ≡ false
        → Yields
            (MakesImmediate calendar env body ep attempts c.store)
            (immediate_job calendar env body ep attempts c)
    unfolding create_immediate
    immediate_job-Yields attempts c alive =
        timed-Yields (constraint_error key_clash) (immediate_row calendar env body ep)
          (immediate_execution calendar env body ep attempts) c alive

    delayed_job-Yields :
        (attempts : ℤ) (c : Conn)
        → c.aborted ≡ false
        → Yields
            (MakesDelayed calendar env body ep attempts c.store)
            (delayed_job calendar env body ep attempts c)
    unfolding create_delayed
    delayed_job-Yields attempts c alive =
        or_reject-follow (MakesDelayed calendar env body ep attempts c.store) _ body.idempotency_key
          _ c
          (λ key keyed.
            or_reject-follow (MakesDelayed calendar env body ep attempts c.store) _ body.run_at _ c
              (λ run_at timed.
                weaken-Yields
                  (MakesTimed (delayed_row calendar env body ep key run_at)
                    (delayed_execution calendar env body ep key run_at attempts) c.store)
                  (MakesDelayed calendar env body ep attempts c.store)
                  (follow (λ r. return (created r))
                    (statement
                      (create_with (delayed_row calendar env body ep key run_at)
                        (delayed_execution calendar env body ep key run_at attempts))
                      c))
                  (timed-Yields of_db_error (delayed_row calendar env body ep key run_at)
                    (delayed_execution calendar env body ep key run_at attempts) c alive)
                  (λ a x made. (key, keyed, (run_at, timed, made)))))

    insert_cron-Yields :
        (e : PgCronExpr calendar) (timezone : String) (starts_at next : ℕ) (c : Conn)
        → c.aborted ≡ false
        → Yields
            (Scheduled calendar env body ep e timezone starts_at next c.store)
            (insert_cron calendar env body ep e timezone starts_at next c)
    unfolding create_cron register_pg_cron_conn
    insert_cron-Yields e timezone starts_at next c alive =
        statement-follow (Scheduled calendar env body ep e timezone starts_at next c.store)
          (λ k.
            statement (register_pg_cron_conn env.schema_name k.job_id e.as_str)
            >> return (scheduled k))
          (λ b x. (b ≡ j) × Inserted j c.store x) (cron_error body.endpoint)
          (query (λ s. returning j (insert_job j s))) c (insert_job-Does j j c alive)
          (λ k d live made.
            update-follow (Scheduled calendar env body ep e timezone starts_at next c.store)
              (λ _. return (scheduled k)) (λ s. tt) (with_entry env.schema_name k.job_id e.as_str)
              d.store d live refl
              (λ d1 live1 entered. inr (
                live1,
                (
                  scheduled k,
                  refl,
                  (
                    ap scheduled made.0,
                    (
                      d.store,
                      made.1,
                      entered
                          ∙ ap (λ (i : Job). with_entry env.schema_name i.job_id e.as_str d.store)
                              made.0,
                    ),
                  ),
                ),
              )))
      where
        j : Job
        j = cron_row calendar env body ep e timezone starts_at next

    cron_job-Yields :
        (c : Conn)
        → c.aborted ≡ false
        → Yields (MakesCron calendar env body ep c.store) (cron_job calendar env body ep c)
    cron_job-Yields c alive =
        or_reject-follow (MakesCron calendar env body ep c.store) _ body.cron _ c (λ e given.
          or_reject-follow (MakesCron calendar env body ep c.store) _ body.timezone _ c
            (λ timezone named.
              or_reject-follow (MakesCron calendar env body ep c.store) _
                (calendar.parse_timezone timezone) _ c
                (λ tz known.
                  or_reject-follow (MakesCron calendar env body ep c.store) _
                    (calendar.upcoming (to_schedule calendar e) tz starts_at) _ c
                    (λ next found.
                      weaken-Yields
                        (Scheduled calendar env body ep e timezone starts_at next c.store)
                        (MakesCron calendar env body ep c.store)
                        (insert_cron calendar env body ep e timezone starts_at next c)
                        (insert_cron-Yields e timezone starts_at next c alive)
                        (λ a x made.
                          (e, given, (timezone, named, (tz, known, (next, found, made)))))))))
      where
        starts_at : ℕ
        starts_at = get_or body.starts_at env.now

    pub create_body-Yields :
        (trigger : TriggerType) (attempts : ℤ) (c : Conn)
        → c.aborted ≡ false
        → Yields
            (Makes calendar env body ep trigger attempts c.store)
            (create_body calendar env body trigger ep attempts c)
    create_body-Yields immediate attempts c alive = immediate_job-Yields attempts c alive
    create_body-Yields delayed attempts c alive = delayed_job-Yields attempts c alive
    create_body-Yields cron attempts c alive = cron_job-Yields c alive

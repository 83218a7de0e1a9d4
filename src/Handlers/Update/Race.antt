-- ===== src/Handlers/Update/Race.antt =====
-- An update whose job changes between its reading and the transaction
-- (crates/api/src/handlers/jobs.rs).
use invokr.Base.{
  ℕ, ◌≡◌, refl, ◌∙◌, inl, inr, true, false, Option, none, some, String, List, [], ◌∷◌, find?,
  is_some, Bool-cases, Option-cases, str_eq,
}
use invokr.Base.Result.{ok}
use invokr.Base.Rows.{update_where, is_some-find?-update}
use invokr.Store.{Store, Job}
use invokr.Store.Conn.{begin, query}
use invokr.Endpoints.{named}
use invokr.PgCronExpr.{Calendar, PgCronExpr, to_schedule}
use invokr.Jobs.{
  has_job_id, takes_key, is_live, replacing, is_cron, is_active, retire_and_replace, insert_job,
  next_version,
}
use invokr.Jobs as Jobs
use invokr.Jobs.Cron.{register_pg_cron_conn, unregister_pg_cron_conn}
use invokr.Handlers.{is_internal}
use invokr.Handlers.Create.{Env}
use invokr.Handlers.Update.{UpdateJob, revised, timezone_of, expression_of, read_old, update}
use invokr.Handlers.Update.Reads.{Chosen}
use invokr.Handlers.Update.Replaces.{reschedule}

-- A row with no key clashes with no row.
keyless-apart :
    (j : Job) (t : List Job) → j.idempotency_key ≡ none → is_some (find? (takes_key j) t) ≡ false
keyless-apart j [] keyless = refl
keyless-apart j (x ∷ t) keyless = elim (Bool-cases (str_eq x.endpoint j.endpoint)) [
  | inl hit ↦ elim (Option-cases x.idempotency_key) [
    | inl bare ↦ rw (hit, keyless, bare) (keyless-apart j t keyless)
    | inr (k, keyed) ↦ rw (hit, keyless, keyed) (keyless-apart j t keyless)
  ]
  | inr miss ↦ rw miss (keyless-apart j t keyless)
]

expression_of-Chosen :
    {Schedule Tz : Type 0} (calendar : Calendar Schedule Tz) (given : Option (PgCronExpr calendar))
    (old : Option String) (e : PgCronExpr calendar) (s : Store)
    → Chosen calendar given old e
    → expression_of calendar given old (begin s []) ≡ (ok e, begin s [])
expression_of-Chosen calendar (some given) old e s same = rw same refl
expression_of-Chosen calendar none none e s impossible = absurd impossible
expression_of-Chosen calendar none (some text) e s fit = rw fit refl

module _ {Schedule Tz : Type 0} (calendar : Calendar Schedule Tz) where
  -- With no fault, an update of a job that was read as a CRON job, ACTIVE and not INTERNAL, with a
  -- schedule that has a next run, makes the next version and its cron entry, whatever has become of
  -- the job before the transaction, cancelled or updated: it is enough that the id drawn is new
  -- and that the endpoint is there.
  pub update_answers :
      (env : Env) (body : UpdateJob calendar) (id : String) (seen s : Store) (old : Job)
      (e : PgCronExpr calendar) (tz : Tz) (next : ℕ)
      → find? (has_job_id id) seen.jobs ≡ some old
      → is_cron old.trigger_type ≡ true
      → is_active old.status ≡ true
      → is_internal old.endpoint_type ≡ false
      → Chosen calendar body.cron old.cron_expression e
      → calendar.parse_timezone (timezone_of calendar body old) ≡ some tz
      → calendar.upcoming (to_schedule calendar e) tz env.now ≡ some next
      → is_some (find? (has_job_id env.job_id) s.jobs) ≡ false
      → is_some (find? (named old.endpoint) s.endpoints) ≡ true
      → let new =
          next_version env.now env.job_id id
            (revised calendar body old e (timezone_of calendar body old) next) in
        update calendar env body id true [] [] seen s ≡ (
          ok new,
          reschedule calendar env.schema_name id env.job_id e.as_str (record s {
            jobs = new ∷ update_where (is_live id) (replacing env.now old.job_id) s.jobs;
          }),
        )
  unfolding update read_old query Jobs.get retire_and_replace insert_job unregister_pg_cron_conn
      register_pg_cron_conn
  update_answers env body id seen s old e tz next there timed live external chosen known found
        new_id has_endpoint =
      rw (there, timed, live, external)
        (rw (expression_of-Chosen calendar body.cron old.cron_expression e seen chosen) (
          rw (known, found)
            (rw
              (
                is_some-find?-update (has_job_id env.job_id) (is_live id)
                      (replacing env.now old.job_id) s.jobs (λ j. refl)
                    ∙ new_id,
                keyless-apart
                    (next_version env.now env.job_id id
                      (revised calendar body old e (timezone_of calendar body old) next))
                    (update_where (is_live id) (replacing env.now old.job_id) s.jobs) refl,
                has_endpoint,
              )
              refl)))

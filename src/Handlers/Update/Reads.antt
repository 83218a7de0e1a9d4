-- ===== src/Handlers/Update/Reads.antt =====
-- What an update is known to satisfy when its transaction begins (crates/api/src/handlers/jobs.rs).
use invokr.Base.{
  ℕ, ◌≡◌, refl, inl, inr, not-eq_false, true, false, not, Option, none, some, String, find?,
}
use invokr.Base.Result.{ok, Result-cases}
use invokr.Store.{Store, Job}
use invokr.Store.Conn.{Conn}
use invokr.PgCronExpr.{Calendar, PgCronExpr, to_schedule, try_from}
use invokr.Jobs.{
  is_cron, is_active, is_live, has_job_id, replacing, next_version, retire_and_replace, insert_job,
  returning,
}
use invokr.Jobs as Jobs
use invokr.Handlers.{is_internal}
use invokr.Handlers.Yields.{
  Yields, or_reject-follow, guard-follow, update-follow, follow-Yields, weaken-Yields,
}
use invokr.Handlers.Create.{Env}
use invokr.Handlers.Update.{
  UpdateJob, Revision, revised, timezone_of, revise, expression_of, read_old,
}

module _ {Schedule Tz : Type 0} (calendar : Calendar Schedule Tz) where
  -- The expression of the new version: the request's, or that of the old version.
  abbrev pub Chosen : Option (PgCronExpr calendar) → Option String → PgCronExpr calendar → Type 0
  Chosen (some given) old e = e ≡ given
  Chosen none none e = ⊥
  Chosen none (some text) e = try_from calendar text ≡ ok e

  expression_of-Yields :
      (given : Option (PgCronExpr calendar)) (old : Option String) (s : Store) (c : Conn)
      → c.aborted ≡ false
      → c.store ≡ s
      → Yields (λ e x. Chosen given old e × (x ≡ s)) (expression_of calendar given old c)
  expression_of-Yields (some e) old s c alive same = inr (alive, (e, refl, (refl, same)))
  expression_of-Yields none none s c alive same = inl (_, refl)
  expression_of-Yields none (some text) s c alive same =
      elim (Result-cases (try_from calendar text)) [
        | inl (e, fit) ↦ rw fit (inr (alive, (e, refl, (refl, same))))
        | inr (e, unfit) ↦ rw unfit (inl (e, refl))
      ]

  module _ (env : Env) (body : UpdateJob calendar) where
    -- What is known of a revision: the old version was a CRON job, ACTIVE and not INTERNAL, and the
    -- new schedule has a next run in its time zone.
    abbrev pub Revises : Job → Revision calendar → Type 0
    Revises old r =
        (is_cron old.trigger_type ≡ true)
        × (is_active old.status ≡ true)
        × (is_internal old.endpoint_type ≡ false)
        × Chosen body.cron old.cron_expression r.expression
        × ((tz : Tz) × (calendar.parse_timezone (timezone_of calendar body old) ≡ some tz)
            × ((next : ℕ) × (calendar.upcoming (to_schedule calendar r.expression) tz env.now
                  ≡ some next)
                × (r.new_job
                    ≡ revised calendar body old r.expression (timezone_of calendar body old) next)))

    revise-Yields :
        (old : Job) (c : Conn)
        → c.aborted ≡ false
        → Yields (λ r _. Revises old r) (revise calendar env body old c)
    revise-Yields old c alive = guard-follow goal _ (not (is_cron old.trigger_type)) _ c (λ timed.
        guard-follow goal _ (not (is_active old.status)) _ c (λ live.
          guard-follow goal _ (is_internal old.endpoint_type) _ c (λ external.
            follow-Yields (λ e x. Chosen body.cron old.cron_expression e × (x ≡ c.store)) goal _
              (expression_of calendar body.cron old.cron_expression c)
              (expression_of-Yields body.cron old.cron_expression c.store c alive refl)
              (λ e d alive1 chosen.
                or_reject-follow goal _ (calendar.parse_timezone zone) _ d (λ tz known.
                  or_reject-follow goal _ (calendar.upcoming (to_schedule calendar e) tz env.now) _
                    d
                    (λ next found. inr (
                      alive1,
                      (
                        record { new_job = revised calendar body old e zone next; expression = e },
                        refl,
                        (
                          not-eq_false timed,
                          not-eq_false live,
                          external,
                          chosen.0,
                          (tz, known, (next, found, refl)),
                        ),
                      ),
                    )))))))
      where
        goal : Revision calendar → Store → Type 0
        goal r _ = Revises old r

        zone : String
        zone = timezone_of calendar body old

    abbrev pub ReadOld : String → Store → Revision calendar → Type 0
    ReadOld job_id seen r =
        (old : Job) × (find? (has_job_id job_id) seen.jobs ≡ some old) × Revises old r

    pub read_old-Yields :
        (job_id : String) (c : Conn)
        → c.aborted ≡ false
        → Yields (λ r _. ReadOld job_id c.store r) (read_old calendar env body job_id c)
    unfolding read_old Jobs.get
    read_old-Yields job_id c alive =
        update-follow (λ r _. ReadOld job_id c.store r) _ (λ s. find? (has_job_id job_id) s.jobs)
          (λ s. s) c.store c alive refl
          (λ d live here.
            or_reject-follow (λ r _. ReadOld job_id c.store r) _
              (find? (has_job_id job_id) c.store.jobs) _ d
              (λ old there.
                weaken-Yields (λ r _. Revises old r) (λ r _. ReadOld job_id c.store r)
                  (revise calendar env body old d) (revise-Yields old d live)
                  (λ r x h. (old, there, h))))

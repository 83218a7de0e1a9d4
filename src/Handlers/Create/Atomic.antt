-- ===== src/Handlers/Create/Atomic.antt =====
-- What a request for a job does, whole or not at all (crates/api/src/handlers/jobs.rs).
use invokr.Base.{◌≡◌, refl, ◌⊎◌, inl, inr, Bool, Option, String, List}
use invokr.Base.Int.{ℤ}
use invokr.Base.Result.{Result, ok, err}
use invokr.Store.{Store, Job, Execution, Endpoint, TriggerType}
use invokr.Store.Conn.{Conn, begin}
use invokr.Errors.{AppError}
use invokr.PgCronExpr.{Calendar}
use invokr.Handlers.Yields.{Yields, settle-cases}
use invokr.Handlers.Create.{
  Env, CreateJob, Answer, replayed, Prepared, replay, fresh, create_body, prepare, after_prepare,
  create,
}
use invokr.Handlers.Create.Reads.{Replays, Allows, Prepares, prepare-Yields}
use invokr.Handlers.Create.Rows.{Makes}
use invokr.Handlers.Create.Bodies.{create_body-Yields}

module _ {Schedule Tz : Type 0} (calendar : Calendar Schedule Tz) where
  module _ (env : Env) (body : CreateJob calendar) (seen s : Store) where
    abbrev Failed : Result AppError Answer × Store → Type 0
    Failed r = (e : AppError) × (r.0 ≡ err e) × (r.1 ≡ s)

    abbrev Replayed : Result AppError Answer × Store → Type 0
    Replayed r =
        (j : Job) × ((e : Option Execution) × Replays body.endpoint body.idempotency_key seen j e
          × (r ≡ (ok (replayed j e), s)))

    abbrev Made : Result AppError Answer × Store → Type 0
    Made r =
        (trigger : TriggerType) × ((ep : Endpoint) × ((attempts : ℤ) × Allows calendar env body seen
              trigger ep attempts
            × ((a : Answer) × (r.0 ≡ ok a) × Makes calendar env body ep trigger attempts s a r.1)))

    abbrev pub CreateOutcome : Result AppError Answer × Store → Type 0
    CreateOutcome r = Failed r ⊎ (Replayed r ⊎ Made r)

    settled-CreateOutcome :
        (r : Result AppError Answer × Store) (trigger : TriggerType) (ep : Endpoint) (attempts : ℤ)
        → Allows calendar env body seen trigger ep attempts
        → Failed r
          ⊎ ((a : Answer) × (r.0 ≡ ok a) × Makes calendar env body ep trigger attempts s a r.1)
        → CreateOutcome r
    settled-CreateOutcome r trigger ep attempts allowed (inl failed) = inl failed
    settled-CreateOutcome r trigger ep attempts allowed (inr made) =
        inr (inr (trigger, (ep, (attempts, allowed, made))))

    after_prepare-CreateOutcome :
        (commits : Bool) (faults : List (Option String)) (r : Result AppError Prepared × Conn)
        → Yields (λ p _. Prepares calendar env body seen p) r
        → CreateOutcome (after_prepare calendar env body commits faults s r.0)
    after_prepare-CreateOutcome commits faults (err e, c) y = inl (e, refl, refl)
    after_prepare-CreateOutcome commits faults (ok p, c) (inl (e, wrong)) = absurd cc
    after_prepare-CreateOutcome commits faults (ok (replay j e), c) (inr (live, (p, same, h))) =
        inr (inl (j, (e, (let q : replay j e ≡ p = cc in rw (← q) at h), refl)))
    after_prepare-CreateOutcome commits faults (ok (fresh t ep n), c) (inr (live, (p, same, h))) =
        settled-CreateOutcome _ t ep n (let q : fresh t ep n ≡ p = cc in rw (← q) at h) (
          settle-cases commits s (Makes calendar env body ep t n s)
            (create_body calendar env body t ep n (begin s faults))
            (create_body-Yields calendar env body ep t n (begin s faults) refl))

    -- A request for a job, whatever statement or commit fails, does one of three things. It answers
    -- with an error and changes nothing. It finds that its key is taken, answers with the job that
    -- has it and that job's newest execution, and changes nothing. Or the endpoint that it names
    -- was there and not INTERNAL, its input fitted the schema and its key was not seen to be taken,
    -- and the rows of its trigger are committed together: for IMMEDIATE and DELAYED an ACTIVE job
    -- and its one execution, QUEUED for now or PENDING for the time asked for, for CRON an ACTIVE
    -- job with a next run and its cron entry.
    pub create_atomic :
        (commits : Bool) (read_faults faults : List (Option String))
        → CreateOutcome (create calendar env body commits read_faults faults seen s)
    unfolding create
    create_atomic commits read_faults faults =
        after_prepare-CreateOutcome commits faults
          (prepare calendar env body (begin seen read_faults))
          (prepare-Yields calendar env body (begin seen read_faults) refl)

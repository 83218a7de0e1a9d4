-- ===== src/Handlers/Update/Atomic.antt =====
-- What an update does, whole or not at all (crates/api/src/handlers/jobs.rs).
use mathlib.Core.Logic.{⊎_map}
use invokr.Base.{◌≡◌, refl, ◌⊎◌, inl, inr, Bool, Option, String, List}
use invokr.Base.Result.{Result, ok, err}
use invokr.Store.{Store, Job}
use invokr.Store.Conn.{Conn, begin}
use invokr.Errors.{AppError}
use invokr.PgCronExpr.{Calendar}
use invokr.Handlers.Yields.{Yields, settle-cases}
use invokr.Handlers.Create.{Env}
use invokr.Handlers.Update.{UpdateJob, Revision, read_old, replace, after_read, update}
use invokr.Handlers.Update.Reads.{ReadOld, read_old-Yields}
use invokr.Handlers.Update.Replaces.{Updates, replace-Yields}

module _ {Schedule Tz : Type 0} (calendar : Calendar Schedule Tz) where
  module _ (env : Env) (body : UpdateJob calendar) (job_id : String) (seen s : Store) where
    abbrev pub UpdateOutcome : Result AppError Job × Store → Type 0
    UpdateOutcome r =
        ((e : AppError) × (r.0 ≡ err e) × (r.1 ≡ s))
        ⊎ ((revision : Revision calendar) × ReadOld calendar env body job_id seen revision
            × ((created : Job) × (r.0 ≡ ok created)
                × Updates calendar env job_id revision s created r.1))

    after_read-UpdateOutcome :
        (commits : Bool) (faults : List (Option String))
        (r : Result AppError (Revision calendar) × Conn)
        → Yields (λ v _. ReadOld calendar env body job_id seen v) r
        → UpdateOutcome (after_read calendar env job_id commits faults s r.0)
    after_read-UpdateOutcome commits faults (err e, c) y = inl (e, refl, refl)
    after_read-UpdateOutcome commits faults (ok v, c) (inl (e, wrong)) = absurd cc
    after_read-UpdateOutcome commits faults (ok v, c) (inr (live, (w, same, h))) =
        ⊎_map (λ failed. failed) (λ made. (v, (let q : v ≡ w = cc in rw q h), made))
          (settle-cases commits s (Updates calendar env job_id v s)
            (replace calendar env job_id v (begin s faults))
            (replace-Yields calendar env job_id v (begin s faults) refl))

    -- An update, whatever statement or commit fails, either answers with an error and changes
    -- nothing; or the job that was read is a CRON job, ACTIVE and not INTERNAL, the schedule that
    -- the request or the job gives has a next run in the time zone that the request or the job
    -- gives, and all of this is committed together: the old version, if it is still ACTIVE, is
    -- RETIRED, the next version with what the request changes is inserted as ACTIVE, and the cron
    -- entry of the old version is replaced by one for the new.
    pub update_atomic :
        (commits : Bool) (read_faults faults : List (Option String))
        → UpdateOutcome (update calendar env body job_id commits read_faults faults seen s)
    unfolding update
    update_atomic commits read_faults faults =
        after_read-UpdateOutcome commits faults
          (read_old calendar env body job_id (begin seen read_faults))
          (read_old-Yields calendar env body job_id (begin seen read_faults) refl)

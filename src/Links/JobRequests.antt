-- ===== src/Links/JobRequests.antt =====
-- That the requests on jobs keep the references between the tables, whatever they do.
use mathlib.Core.Path.{subst}
use invokr.Base.{
  ℕ, refl, sym, ap, inl, inr, String, Bool, true, false, Option, List, ◌∷◌, ◌&&◌, All, All-weaken,
  if◌then◌else◌,
}
use invokr.Base.Int.{ℤ}
use invokr.Base.Rows.{find?-grows, All-update, update_where}
use invokr.Store.{Store, Job, Execution, Endpoint, TriggerType, immediate, delayed, cron}
use invokr.PgCronExpr.{Calendar}
use invokr.Executions.{of_job, is_cancellable, cancel_row}
use invokr.Jobs.{has_job_id, is_cron, is_live, retire, replacing, CreateJobResult}
use invokr.Jobs.Inserts.{Inserted, InsertedBoth}
use invokr.Handlers.{cancel}
use invokr.Handlers.Cancel.{cancelled, cancel_atomic}
use invokr.Handlers.Create.{Env, CreateJob, Answer, create}
use invokr.Handlers.Create.Rows.{Makes}
use invokr.Handlers.Create.Atomic.{create_atomic}
use invokr.Handlers.Update.{UpdateJob, Revision, update}
use invokr.Handlers.Update.Replaces.{Updates}
use invokr.Handlers.Update.Atomic.{update_atomic}
use invokr.Links.{ExecutionIsLinked, IsLinked}
use invokr.Links.Jobs.{update-IsLinked}

Inserted-IsLinked : (j : Job) (s x : Store) → Inserted j s x → IsLinked s → IsLinked x
Inserted-IsLinked j s x made l = rw (made.3) (
  l.0,
  (made.2, l.1),
  All-weaken (ExecutionIsLinked s.jobs) (ExecutionIsLinked (j ∷ s.jobs)) s.executions
      (λ e h. find?-grows (has_job_id e.job_id) j s.jobs h) l.2,
)

InsertedBoth-IsLinked :
    (j : Job) (e : Execution) (s x : Store) (r : CreateJobResult)
    → InsertedBoth j e s r x
    → IsLinked s
    → IsLinked x
InsertedBoth-IsLinked j e s x r (same, (y, first, second)) l =
    let m = Inserted-IsLinked j s y first l in rw (second.2) (m.0, m.1, (second.0, m.2))

cancelled-IsLinked :
    (now : ℕ) (schema_name : String) (j : Job) (id : String) (s : Store)
    → IsLinked s
    → IsLinked (cancelled now schema_name j id s)
cancelled-IsLinked now schema_name j id s l =
    let m = update-IsLinked (is_live id) (retire now) s (λ j. refl) (λ j. refl) l in
    (m.0, m.1, pick (is_cron j.trigger_type) m.2)
  where
    jobs : List Job
    jobs = update_where (is_live id) (retire now) s.jobs

    pick :
        (b : Bool)
        → All (ExecutionIsLinked jobs) s.executions
        → All (ExecutionIsLinked jobs) (
            if b
            then s.executions
            else update_where
                (λ e. of_job id e && is_cancellable e.status)
                (cancel_row now)
                s.executions)
    pick true h = h
    pick false h =
        All-update (ExecutionIsLinked jobs) (λ e. of_job id e && is_cancellable e.status)
          (cancel_row now) s.executions (λ e h _. h) h

pub cancel-IsLinked :
    (now : ℕ) (schema_name id : String) (commits : Bool) (faults : List (Option String)) (s : Store)
    → IsLinked s
    → IsLinked (cancel now schema_name id commits faults s).1
cancel-IsLinked now schema_name id commits faults s l =
    elim (cancel_atomic now schema_name id commits faults s) [
      | inl (e, _, same) ↦ subst IsLinked (sym same) l
      | inr (d, _, (j, _, _, _, _, same)) ↦
          subst IsLinked (sym same) (cancelled-IsLinked now schema_name j id s l)
    ]

module _ {Schedule Tz : Type 0} (calendar : Calendar Schedule Tz) where
  Makes-IsLinked :
      (env : Env) (body : CreateJob calendar) (ep : Endpoint) (trigger : TriggerType) (attempts : ℤ)
      (s : Store) (a : Answer) (x : Store)
      → Makes calendar env body ep trigger attempts s a x
      → IsLinked s
      → IsLinked x
  Makes-IsLinked env body ep immediate attempts s a x (r, _, made) l =
      InsertedBoth-IsLinked _ _ s x r made l
  Makes-IsLinked env body ep delayed attempts s a x (key, _, (run_at, _, (r, _, made))) l =
      InsertedBoth-IsLinked _ _ s x r made l
  Makes-IsLinked env body ep cron attempts s a x
        (e, _, (z, _, (tz, _, (next, _, (_, (y, made, same)))))) l =
      rw same (Inserted-IsLinked _ s y made l)

  pub create-IsLinked :
      (env : Env) (body : CreateJob calendar) (commits : Bool)
      (read_faults faults : List (Option String)) (seen s : Store)
      → IsLinked s
      → IsLinked (create calendar env body commits read_faults faults seen s).1
  create-IsLinked env body commits read_faults faults seen s l =
      elim (create_atomic calendar env body seen s commits read_faults faults) [
        | inl (e, _, same) ↦ subst IsLinked (sym same) l
        | inr (inl (j, (e, _, same))) ↦ subst IsLinked (sym (ap (λ p. p.1) same)) l
        | inr (inr (trigger, (ep, (attempts, _, (a, _, made))))) ↦
            Makes-IsLinked env body ep trigger attempts s a _ made l
      ]

  Updates-IsLinked :
      (env : Env) (id : String) (r : Revision calendar) (s : Store) (created : Job) (x : Store)
      → Updates calendar env id r s created x
      → IsLinked s
      → IsLinked x
  Updates-IsLinked env id r s created x (y, (_, made), same) l = rw same (
      Inserted-IsLinked _ _ y made (
        update-IsLinked (is_live id) (replacing env.now r.new_job.job_id) s (λ j. refl) (λ j. refl)
          l))

  pub updates-IsLinked :
      (env : Env) (body : UpdateJob calendar) (id : String) (commits : Bool)
      (read_faults faults : List (Option String)) (seen s : Store)
      → IsLinked s
      → IsLinked (update calendar env body id commits read_faults faults seen s).1
  updates-IsLinked env body id commits read_faults faults seen s l =
      elim (update_atomic calendar env body id seen s commits read_faults faults) [
        | inl (e, _, same) ↦ subst IsLinked (sym same) l
        | inr (r, _, (created, _, made)) ↦ Updates-IsLinked env id r s created _ made l
      ]

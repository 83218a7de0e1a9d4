-- ===== src/Handlers/Cancel.antt =====
-- What the cancellation of a job does, whole or not at all.
use mathlib.Core.Path.{subst}
use invokr.Base.{
  ℕ, ◌≡◌, refl, ap, sym, ◌∙◌, ◌⊎◌, inr, String, Bool, false, ◌&&◌, Option, some, List, find?, keep,
  length, if◌then◌else◌,
}
use mathlib.Core.Option as Option
use invokr.Base.Rows.{update_where}
use invokr.Base.Result.{ok, err}
use invokr.Store.{Store, Job}
use invokr.Store.Conn.{Conn, begin}
use invokr.Executions.{of_job, is_cancellable, cancel_row, cancel_pending_for_job}
use invokr.Jobs.{is_cron, has_job_id, is_live, retire}
use invokr.Jobs as Jobs
use invokr.Jobs.Cron.{unregister_pg_cron_conn, others, cron_job_name}
use invokr.Handlers.{
  follow, statement, return, or_reject, is_retired, is_internal, cancel_executions, unschedule,
  cancel_found, cancel_body, cancel,
}
use invokr.Errors.{AppError, job_not_found}
use invokr.Handlers.Yields.{
  Yields, follow-Yields, or_reject-Yields, refuse_if-Yields, choose-Yields, update-Yields,
  store-Yields, settle-cases,
}

-- The three changes, and their sum.
abbrev without_pending : ℕ → Job → String → Store → Store
without_pending now j id s = record s {
  executions =
      if is_cron j.trigger_type
      then s.executions
      else update_where (λ e. of_job id e && is_cancellable e.status) (cancel_row now) s.executions;
}

abbrev without_job : ℕ → String → Store → Store
without_job now id s = record s { jobs = update_where (is_live id) (retire now) s.jobs }

abbrev without_entry : String → Job → String → Store → Store
without_entry schema_name j id s = record s {
  cron_jobs =
      if is_cron j.trigger_type
      then others (cron_job_name schema_name id) s.cron_jobs
      else s.cron_jobs;
}

abbrev pub cancelled : ℕ → String → Job → String → Store → Store
cancelled now schema_name j id s =
    without_entry schema_name j id (without_job now id (without_pending now j id s))

pending-Yields :
    (now : ℕ) (j : Job) (id : String) (c : Conn)
    → c.aborted ≡ false
    → Yields (λ _ x. x ≡ without_pending now j id c.store) (cancel_executions now j id c)
unfolding cancel_pending_for_job
pending-Yields now j id c alive =
    choose-Yields (λ _ x. x ≡ without_pending now j id c.store) (is_cron j.trigger_type) (return 0)
      (statement (cancel_pending_for_job now id)) c
      (λ cron. inr (alive, (0, refl, sym (ap choice cron))))
      (λ timed.
        store-Yields (λ s. length (keep (λ e. of_job id e && is_cancellable e.status) s.executions))
          changed _ c alive (ap choice timed))
  where
    changed : Store → Store
    changed s = record s {
      executions =
          update_where (λ e. of_job id e && is_cancellable e.status) (cancel_row now) s.executions;
    }

    choice : Bool → Store
    choice b = record c.store {
      executions =
          if b
          then c.store.executions
          else update_where (λ e. of_job id e && is_cancellable e.status) (cancel_row now)
              c.store.executions;
    }

job-Yields :
    (now : ℕ) (id : String) (c : Conn)
    → c.aborted ≡ false
    → Yields
        (λ o x.
          (o ≡ Option.map (retire now) (find? (is_live id) c.store.jobs))
          × (x ≡ without_job now id c.store))
        (statement (Jobs.cancel now id) c)
unfolding Jobs.cancel
job-Yields now id c =
    update-Yields (λ s. Option.map (retire now) (find? (is_live id) s.jobs)) (without_job now id) c

entry-Yields :
    (schema_name : String) (j : Job) (id : String) (c : Conn)
    → c.aborted ≡ false
    → Yields (λ _ x. x ≡ without_entry schema_name j id c.store) (unschedule schema_name j id c)
unfolding unregister_pg_cron_conn
entry-Yields schema_name j id c alive =
    choose-Yields (λ _ x. x ≡ without_entry schema_name j id c.store) (is_cron j.trigger_type)
      (statement (unregister_pg_cron_conn schema_name id)) (return tt) c
      (λ cron. store-Yields (λ s. tt) changed _ c alive (ap choice cron))
      (λ timed. inr (alive, (tt, refl, sym (ap choice timed))))
  where
    changed : Store → Store
    changed s = record s { cron_jobs = others (cron_job_name schema_name id) s.cron_jobs }

    choice : Bool → Store
    choice b = record c.store {
      cron_jobs =
          if b then others (cron_job_name schema_name id) c.store.cron_jobs else c.store.cron_jobs;
    }

-- The row that the handler answers with, and what has made it possible.
abbrev pub Cancels : ℕ → String → String → Store → Job → Store → Type 0
Cancels now schema_name id s d x =
    (j : Job) × (find? (has_job_id id) s.jobs ≡ some j)
    × (is_retired j.status ≡ false)
    × (is_internal j.endpoint_type ≡ false)
    × (some d ≡ Option.map (retire now) (find? (is_live id) s.jobs))
    × (x ≡ cancelled now schema_name j id s)

abbrev Retires : ℕ → String → Store → Option Job → Store → Type 0
Retires now id s o x =
    (o ≡ Option.map (retire now) (find? (is_live id) s.jobs)) × (x ≡ without_job now id s)

cancel_found-Yields :
    (now : ℕ) (schema_name id : String) (j : Job) (c : Conn)
    → c.aborted ≡ false
    → find? (has_job_id id) c.store.jobs ≡ some j
    → Yields (Cancels now schema_name id c.store) (cancel_found now schema_name id j c)
cancel_found-Yields now schema_name id j c alive there =
    follow-Yields (λ _ x. (is_retired j.status ≡ false) × (x ≡ c.store)) goal _ _
      (refuse_if-Yields (is_retired j.status) _ c alive)
      (λ _ c1 alive1 h1.
        follow-Yields (λ _ x. (is_internal j.endpoint_type ≡ false) × (x ≡ c1.store)) goal _ _
          (refuse_if-Yields (is_internal j.endpoint_type) _ c1 alive1)
          (λ _ c2 alive2 h2.
            follow-Yields (λ _ x. x ≡ without_pending now j id c2.store) goal _ _
              (pending-Yields now j id c2 alive2)
              (λ _ c3 alive3 h3.
                follow-Yields (Retires now id c3.store) goal _ _ (job-Yields now id c3 alive3)
                  (λ o c4 alive4 h4.
                    follow-Yields (λ d x. (o ≡ some d) × (x ≡ c4.store)) goal _ _
                      (or_reject-Yields (λ d x. (o ≡ some d) × (x ≡ c4.store)) o _ c4 alive4
                        (λ d e. (e, refl)))
                      (λ d c5 alive5 h5.
                        follow-Yields (λ _ x. x ≡ without_entry schema_name j id c5.store) goal _ _
                          (entry-Yields schema_name j id c5 alive5)
                          (λ _ c6 alive6 h6.
                            let two : c2.store ≡ c.store = h2.1 ∙ h1.1 in
                            let three : c3.store ≡ without_pending now j id c.store =
                              h3 ∙ ap (without_pending now j id) two in
                            let four : c4.store
                                ≡ without_job now id (without_pending now j id c.store) =
                              h4.1 ∙ ap (without_job now id) three in
                            inr (
                              alive6,
                              (
                                d,
                                refl,
                                (
                                  j,
                                  there,
                                  h1.0,
                                  h2.0,
                                  sym h5.0
                                      ∙ h4.0
                                      ∙ ap
                                          (λ (x : Store).
                                            Option.map (retire now) (find? (is_live id) x.jobs))
                                          three,
                                  h6 ∙ ap (without_entry schema_name j id) (h5.1 ∙ four),
                                ),
                              ),
                            )))))))
  where
    goal : Job → Store → Type 0
    goal = Cancels now schema_name id c.store

found-Yields :
    (now : ℕ) (schema_name id : String) (s : Store) (o : Option Job) (c : Conn)
    → c.aborted ≡ false
    → o ≡ find? (has_job_id id) s.jobs
    → c.store ≡ s
    → Yields
        (Cancels now schema_name id s)
        (follow (cancel_found now schema_name id) (or_reject o (job_not_found id) c))
found-Yields now schema_name id s o c alive there store =
    follow-Yields (λ j x. (o ≡ some j) × (x ≡ c.store)) (Cancels now schema_name id s)
      (cancel_found now schema_name id) (or_reject o (job_not_found id) c)
      (or_reject-Yields (λ j x. (o ≡ some j) × (x ≡ c.store)) o _ c alive (λ j e. (e, refl)))
      (λ j d live g.
        let same : d.store ≡ s = g.1 ∙ store in
        subst (λ x. Yields (Cancels now schema_name id x) (cancel_found now schema_name id j d))
          same
          (cancel_found-Yields now schema_name id j d live
            (ap (λ (x : Store). find? (has_job_id id) x.jobs) same ∙ sym there ∙ g.0)))

get-Yields :
    (id : String) (c : Conn)
    → c.aborted ≡ false
    → Yields
        (λ o x. (o ≡ find? (has_job_id id) c.store.jobs) × (x ≡ c.store))
        (statement (Jobs.get id) c)
unfolding Jobs.get
get-Yields id c = update-Yields (λ x. find? (has_job_id id) x.jobs) (λ x. x) c

cancel_body-Yields :
    (now : ℕ) (schema_name id : String) (s : Store) (faults : List (Option String))
    → Yields (Cancels now schema_name id s) (cancel_body now schema_name id (begin s faults))
unfolding cancel_body
cancel_body-Yields now schema_name id s faults =
    follow-Yields (λ o x. (o ≡ find? (has_job_id id) s.jobs) × (x ≡ s))
      (Cancels now schema_name id s)
      (λ o c. follow (cancel_found now schema_name id) (or_reject o (job_not_found id) c))
      (statement (Jobs.get id) (begin s faults)) (get-Yields id (begin s faults) refl)
      (λ o c alive h. found-Yields now schema_name id s o c alive h.0 h.1)

-- A request to cancel a job either answers with an error and changes nothing, whatever statement or
-- commit has failed; or the job is there, is ACTIVE and not INTERNAL, and all of this is committed
-- together: it is retired, and its executions that have not started are cancelled, or, for a CRON
-- job, its cron entry is removed and its executions are left.
pub cancel_atomic :
    (now : ℕ) (schema_name id : String) (commits : Bool) (faults : List (Option String)) (s : Store)
    → let r = cancel now schema_name id commits faults s in
      ((e : AppError) × (r.0 ≡ err e) × (r.1 ≡ s))
      ⊎ ((d : Job) × (r.0 ≡ ok d) × Cancels now schema_name id s d r.1)
unfolding cancel
cancel_atomic now schema_name id commits faults s =
    settle-cases commits s (Cancels now schema_name id s)
      (cancel_body now schema_name id (begin s faults))
      (cancel_body-Yields now schema_name id s faults)

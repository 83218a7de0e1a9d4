-- ===== src/Links/Histories.antt =====
-- That all histories of a workspace keep the references between its tables.
use Prim.Native.String.{◌++◌}
use mathlib.Core.Path.{subst}
use invokr.Base.{ℕ, ◌≡◌, sym, inl, inr, eq_refl, String, Bool, not, Option, List, [], ◌∷◌, ◌&&◌}
use invokr.Base.Result.{Result, ok, guarded-ok}
use invokr.Base.Rows.{find?-Memᴰ, All-update}
use invokr.Json.{Json}
use invokr.Store.{Store}
use invokr.Store.Conn.{DbError, begin}
use invokr.Errors.{AppError, conflict, secret_not_found, constraint_error, of_db_error}
use invokr.PgCronExpr.{Calendar}
use invokr.Jobs.Cron.{tick}
use invokr.Secrets as DbSecrets
use invokr.Named.{set_value, without}
use invokr.Jobs.{has_job_id}
use invokr.Jobs.Cron.Window.{tick-TickOutcome}
use invokr.Handlers.{follow, statement, statement_or, or_reject, refuse_if}
use invokr.Links.Keeps.{
  query-Keeps, change-Keeps, follow-Keeps, statement-Keeps, or_reject-Keeps, refuse_if-Keeps,
  from_result-Keeps, then_write-Keeps,
}
use invokr.Handlers.Secrets as Secrets
use invokr.Handlers.Secrets.{Sealing}
use invokr.Api.{
  Event, create_job, update_job, cancel_job, cancel_execution, create_endpoint, update_endpoint,
  delete_endpoint, create_config, update_config, delete_config, create_payload_spec,
  update_payload_spec, delete_payload_spec, create_secret, update_secret, delete_secret, cron_tick,
  serve, run,
}
use invokr.Executions.{has_id, is_cancellable, cancel_row}
use invokr.Handlers.Executions as Executions
use invokr.Handlers.Executions.Waiting.{cancel_waiting}
use invokr.Links.{IsLinked, ExecutionIsLinked}
use invokr.Links.JobRequests.{cancel-IsLinked, create-IsLinked, updates-IsLinked}
use invokr.Links.Requests.{
  written-Keeps, Configs-create-IsLinked, Configs-update-IsLinked, Configs-delete-IsLinked,
  PayloadSpecs-create-IsLinked, PayloadSpecs-update-IsLinked, PayloadSpecs-delete-IsLinked,
  Endpoints-create-IsLinked, Endpoints-update-IsLinked, Endpoints-delete-IsLinked,
}

create-IsLinked_secret :
    (k : Sealing) (name value : String) (faults : List (Option String)) (s : Store)
    → IsLinked s
    → IsLinked (Secrets.create k name value faults s).1
unfolding Secrets.create DbSecrets.create
create-IsLinked_secret k name value faults s l =
    follow-Keeps IsLinked (Secrets.sealed k value)
      (λ v. statement_or clash (DbSecrets.create name v)) (from_result-Keeps IsLinked _)
      (λ v. statement-Keeps IsLinked clash (DbSecrets.create name v) (
        query-Keeps IsLinked _ (λ r a x h m.
          let same : ◌≡◌ {A = Result DbError ((String × List ℕ) × Store)}
              (ok ((name, v), record r { secrets = (name, v) ∷ r.secrets })) (ok (a, x)) =
            (guarded-ok _ _ _ h).1 in
          let e : x ≡ record r { secrets = (name, v) ∷ r.secrets } = cc in rw e m)))
      (begin s faults) l
  where
    clash : DbError → AppError
    clash = constraint_error (conflict ("Secret '" ++ name ++ "' already exists"))

update-IsLinked_secret :
    (k : Sealing) (name value : String) (faults : List (Option String)) (s : Store)
    → IsLinked s
    → IsLinked (Secrets.update k name value faults s).1
unfolding Secrets.update DbSecrets.update
update-IsLinked_secret k name value faults s l =
    follow-Keeps IsLinked (Secrets.sealed k value)
      (λ v c.
        follow (λ row. or_reject row (secret_not_found name))
          (statement (DbSecrets.update name v) c))
      (from_result-Keeps IsLinked _)
      (λ v.
        written-Keeps of_db_error (DbSecrets.update name v)
          (λ row. or_reject row (secret_not_found name))
          (change-Keeps IsLinked _ (λ r. record r { secrets = set_value name v r.secrets })
            (λ r m. m))
          (λ row. or_reject-Keeps IsLinked row (secret_not_found name)))
      (begin s faults) l

delete-IsLinked_secret :
    (like : Json → String → Bool) (name : String) (read_faults faults : List (Option String))
    (seen s : Store)
    → IsLinked s
    → IsLinked (Secrets.delete like name read_faults faults seen s).1
unfolding Secrets.delete DbSecrets.delete
delete-IsLinked_secret like name read_faults faults seen s l =
    then_write-Keeps IsLinked (Secrets.check_unused like name (begin seen read_faults)).0
      (Secrets.delete_row name) faults s
      (λ _.
        written-Keeps of_db_error (DbSecrets.delete name)
          (λ deleted. refuse_if (not deleted) (secret_not_found name))
          (change-Keeps IsLinked _ (λ r. record r { secrets = without name r.secrets }) (λ r m. m))
          (λ deleted. refuse_if-Keeps IsLinked (not deleted) (secret_not_found name)))
      l

cancel_execution-IsLinked :
    (now : ℕ) (id : String) (read_faults faults : List (Option String)) (seen s : Store)
    → IsLinked s
    → IsLinked (Executions.cancel now id read_faults faults seen s).1
cancel_execution-IsLinked now id read_faults faults seen s l =
    elim (cancel_waiting now id read_faults faults seen s) [
      | inl (e, _, same) ↦ subst IsLinked (sym same) l
      | inr (e, _, _, changed) ↦ subst IsLinked (sym changed) (
        l.0,
        l.1,
        All-update (ExecutionIsLinked s.jobs) (λ e. has_id id e && is_cancellable e.status)
            (cancel_row now) s.executions (λ e h _. h) l.2,
      )
    ]

tick-IsLinked :
    (now : ℕ) (new_id job_id : String) (s : Store)
    → IsLinked s
    → IsLinked (tick now new_id job_id s)
tick-IsLinked now new_id job_id s l = elim (tick-TickOutcome now new_id job_id s) [
  | inl (same, _) ↦ subst IsLinked (sym same) l
  | inr (j, e, n, m, _, _, _, _, _, added) ↦
      subst IsLinked (sym added)
        (l.0, l.1, (find?-Memᴰ (has_job_id j.job_id) m (eq_refl j.job_id), l.2))
]

module _ {Schedule Tz : Type 0} (calendar : Calendar Schedule Tz) where
  serve-IsLinked : (e : Event calendar) (s : Store) → IsLinked s → IsLinked (serve calendar e s)
  unfolding serve
  serve-IsLinked (create_job env body commits m) s l =
      create-IsLinked calendar env body commits m.read_faults m.faults m.seen s l
  serve-IsLinked (update_job env body id commits m) s l =
      updates-IsLinked calendar env body id commits m.read_faults m.faults m.seen s l
  serve-IsLinked (cancel_job now schema_name id commits faults) s l =
      cancel-IsLinked now schema_name id commits faults s l
  serve-IsLinked (cancel_execution now id m) s l =
      cancel_execution-IsLinked now id m.read_faults m.faults m.seen s l
  serve-IsLinked (create_endpoint now body m) s l =
      Endpoints-create-IsLinked now body m.read_faults m.faults m.seen s l
  serve-IsLinked (update_endpoint now name body m) s l =
      Endpoints-update-IsLinked now name body m.read_faults m.faults m.seen s l
  serve-IsLinked (delete_endpoint name m) s l =
      Endpoints-delete-IsLinked name m.read_faults m.faults m.seen s l
  serve-IsLinked (create_config name v faults) s l = Configs-create-IsLinked name v faults s l
  serve-IsLinked (update_config name v faults) s l = Configs-update-IsLinked name v faults s l
  serve-IsLinked (delete_config name m) s l =
      Configs-delete-IsLinked name m.read_faults m.faults m.seen s l
  serve-IsLinked (create_payload_spec name v faults) s l =
      PayloadSpecs-create-IsLinked name v faults s l
  serve-IsLinked (update_payload_spec name v faults) s l =
      PayloadSpecs-update-IsLinked name v faults s l
  serve-IsLinked (delete_payload_spec name m) s l =
      PayloadSpecs-delete-IsLinked name m.read_faults m.faults m.seen s l
  serve-IsLinked (create_secret k name value faults) s l =
      create-IsLinked_secret k name value faults s l
  serve-IsLinked (update_secret k name value faults) s l =
      update-IsLinked_secret k name value faults s l
  serve-IsLinked (delete_secret like name m) s l =
      delete-IsLinked_secret like name m.read_faults m.faults m.seen s l
  serve-IsLinked (cron_tick now new_id job_id) s l = tick-IsLinked now new_id job_id s l

  -- Whatever requests and ticks a workspace meets, in any order, with any faults, refused commits
  -- and reads of older stores: an endpoint's payload spec and config are there, a job's endpoint
  -- is there, and an execution's job is there, if this holds at the start.
  pub run-IsLinked :
      (es : List (Event calendar)) (s : Store) → IsLinked s → IsLinked (run calendar es s)
  unfolding run
  run-IsLinked [] s l = l
  run-IsLinked (e ∷ es) s l = run-IsLinked es (serve calendar e s) (serve-IsLinked e s l)

-- ===== src/Api.antt =====
-- The requests that change a workspace (crates/api/src/router.rs), together with the ticks of
-- pg_cron, and their histories. A request says what it has met: the store that its reads have seen,
-- the faults of its statements, and whether its transaction commits.
use invokr.Base.{ℕ, String, Bool, Option, List, [], ◌∷◌}
use invokr.Json.{Json}
use invokr.Store.{Store}
use invokr.PgCronExpr.{Calendar}
use invokr.Jobs.Cron.{tick}
use invokr.Handlers as Handlers
use invokr.Handlers.Create as Create
use invokr.Handlers.Create.{Env, CreateJob}
use invokr.Handlers.Update as Update
use invokr.Handlers.Update.{UpdateJob}
use invokr.Handlers.Configs as Configs
use invokr.Handlers.PayloadSpecs as PayloadSpecs
use invokr.Handlers.Secrets as Secrets
use invokr.Handlers.Secrets.{Sealing}
use invokr.Handlers.Endpoints as Endpoints
use invokr.Handlers.Executions as Executions
use invokr.Handlers.Endpoints.{CreateEndpoint, UpdateEndpoint}

-- What befalls a request that reads before it writes.
pub record Meeting : Type 0 where
  pub seen : Store
  pub read_faults : List (Option String)
  pub faults : List (Option String)

module _ {Schedule Tz : Type 0} (calendar : Calendar Schedule Tz) where
  pub data Event : Type 0 where
    create_job : Env → CreateJob calendar → Bool → Meeting → Event
    update_job : Env → UpdateJob calendar → String → Bool → Meeting → Event
    cancel_job : ℕ → String → String → Bool → List (Option String) → Event
    cancel_execution : ℕ → String → Meeting → Event
    create_endpoint : ℕ → CreateEndpoint → Meeting → Event
    update_endpoint : ℕ → String → UpdateEndpoint → Meeting → Event
    delete_endpoint : String → Meeting → Event
    create_config : String → Json → List (Option String) → Event
    update_config : String → Json → List (Option String) → Event
    delete_config : String → Meeting → Event
    create_payload_spec : String → Json → List (Option String) → Event
    update_payload_spec : String → Json → List (Option String) → Event
    delete_payload_spec : String → Meeting → Event
    create_secret : Sealing → String → String → List (Option String) → Event
    update_secret : Sealing → String → String → List (Option String) → Event
    delete_secret : (Json → String → Bool) → String → Meeting → Event
    cron_tick : ℕ → String → String → Event

  unfoldable pub serve : Event → Store → Store
  serve (create_job env body commits m) s =
      (Create.create calendar env body commits m.read_faults m.faults m.seen s).1
  serve (update_job env body id commits m) s =
      (Update.update calendar env body id commits m.read_faults m.faults m.seen s).1
  serve (cancel_job now schema_name id commits faults) s =
      (Handlers.cancel now schema_name id commits faults s).1
  serve (cancel_execution now id m) s = (Executions.cancel now id m.read_faults m.faults m.seen s).1
  serve (create_endpoint now body m) s =
      (Endpoints.create now body m.read_faults m.faults m.seen s).1
  serve (update_endpoint now name body m) s =
      (Endpoints.update now name body m.read_faults m.faults m.seen s).1
  serve (delete_endpoint name m) s = (Endpoints.delete name m.read_faults m.faults m.seen s).1
  serve (create_config name v faults) s = (Configs.create name v faults s).1
  serve (update_config name v faults) s = (Configs.update name v faults s).1
  serve (delete_config name m) s = (Configs.delete name m.read_faults m.faults m.seen s).1
  serve (create_payload_spec name v faults) s = (PayloadSpecs.create name v faults s).1
  serve (update_payload_spec name v faults) s = (PayloadSpecs.update name v faults s).1
  serve (delete_payload_spec name m) s =
      (PayloadSpecs.delete name m.read_faults m.faults m.seen s).1
  serve (create_secret k name value faults) s = (Secrets.create k name value faults s).1
  serve (update_secret k name value faults) s = (Secrets.update k name value faults s).1
  serve (delete_secret like name m) s = (Secrets.delete like name m.read_faults m.faults m.seen s).1
  serve (cron_tick now new_id job_id) s = tick now new_id job_id s

  unfoldable pub run : List Event → Store → Store
  run [] s = s
  run (e ∷ es) s = run es (serve e s)

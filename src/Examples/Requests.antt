-- ===== src/Examples/Requests.antt =====
-- Requests, names, health and caches, tried at concrete values.
use invokr.Base.{none, ◌+◌, ◌≡◌, refl, ◌⊎◌, true, [], ◌∷◌, arith}
use invokr.Base.Int.{pos}
use invokr.Base.Result.{ok, err}
use invokr.Json.{obj, end}
use invokr.Store.{Job}
use invokr.Errors.{AppError}
use invokr.Handlers.{cancel}
use invokr.Handlers.Cancel.{Cancels, cancel_atomic}
use invokr.Executions.{of_job, newest}
use invokr.Store.Conn.{begin}
use invokr.Handlers.Status.{JobReport, status, count, has_outcome, is_succeeded, is_failed}
use invokr.Handlers.Status as JobHealth
use invokr.Handlers.Status.Counts.{both, is_cancelled, status_report}
use invokr.Tenant.Registry.{SchemaRegistry, Call, Workspace, new}
use invokr.Tenant.Registry as Registry
use invokr.Tenant.Registry.Recent.{IsRecent, get_active_schemas-IsRecent}
use invokr.Health.{WorkerHealth}
use invokr.Pipeline.Load.{World}
use invokr.Examples.{nightly, store, world}

cancel_atomic_example :
    let r = cancel 30 "ws" "j1" true [] store in
    ((e : AppError) × (r.0 ≡ err e) × (r.1 ≡ store))
    ⊎ ((d : Job) × (r.0 ≡ ok d) × Cancels 30 "ws" "j1" store d r.1)
cancel_atomic_example = cancel_atomic 30 "ws" "j1" true [] store

abbrev health : WorkerHealth
health = record { started = 100; last_tick_ms = 0; available_permits = 4; stale = 5000 }

abbrev filled : World
filled = record world {
  config_cache = record { entries = ("a", (obj end, 0)) ∷ []; ttl = 60 };
  secret_cache = record { entries = ("a", ("s", 0)) ∷ []; ttl = 60 };
}

status_report_example :
    (r : JobReport) × (status "j1" (begin store []) ≡ (ok r, begin store []))
    × (r.job ≡ nightly)
    × (r.latest_execution ≡ newest (of_job "j1") store.executions)
    × (r.last_execution ≡ newest (both (of_job "j1") has_outcome) store.executions)
    × (r.pending + r.running ≡ r.total)
    × (r.total
          + count (both (of_job "j1") is_succeeded) store.executions
          + count (both (of_job "j1") is_failed) store.executions
          + count (both (of_job "j1") is_cancelled) store.executions
        ≡ count (of_job "j1") store.executions)
    × (r.health
        ≡ JobHealth.health
            (count (of_job "j1") store.executions)
            (count (both (of_job "j1") is_failed) store.executions)
            (count (both (of_job "j1") is_succeeded) store.executions))
status_report_example = status_report "j1" store nightly refl (omega arith)

abbrev workspace : Workspace
workspace = record {
  workspace_id = "w1";
  org_id = "o1";
  name = "Team";
  slug = "team";
  schema_name = "o1_team";
  status = "ACTIVE";
  schema_version = pos 1;
  created_at = 0;
  updated_at = 0;
}

abbrev first_call : Call
first_call = record { now = 100; workspaces = workspace ∷ []; fails = none; fetched = 101 }

abbrev second_call : Call
second_call = record { now = 130; workspaces = []; fails = none; fetched = 131 }

get_active_schemas-IsRecent_example : IsRecent 60 (first_call ∷ []) second_call ("o1_team" ∷ [])
unfolding Registry.get_active_schemas Registry.active_schemas
get_active_schemas-IsRecent_example =
    get_active_schemas-IsRecent (first_call ∷ []) second_call (new 0 60) ("o1_team" ∷ []) refl refl

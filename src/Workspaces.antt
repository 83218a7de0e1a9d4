-- ===== src/Workspaces.antt =====
-- crates/common/src/db/workspaces.rs: the workspaces, the references to them, and what is installed
-- in a new one.
pub mod Resolves
pub mod Provisions
use mathlib.Core.Option as Option
use invokr.Base.{
  ℕ, String, Bool, ◌&&◌, ◌||◌, Option, none, some, List, [], ◌∷◌, ◌++◌, map, str_eq, find?, keep,
  is_some, if◌then◌else◌,
}
use invokr.Base.Int.{pos}
use invokr.Base.Map.{lookup, insert}
use invokr.Base.Rows.{update_where}
use invokr.Base.Result.{Result, ok, err}
use invokr.Json.{Json, obj, field, end, str}
use invokr.Store.{Store, Job, internal, cron}
use invokr.Store.Conn.{
  Conn, DbError, unique_violation, foreign_key_violation, fault, M, begin, commit, query,
}
use invokr.Store.Conn as Conn
use invokr.Endpoints as Endpoints
use invokr.Jobs.{new_job, insert_job, returning}
use invokr.Jobs.Cron.{register_pg_cron_conn}
use invokr.Tenant.Registry.{Workspace, is_active}
use invokr.Public.{Organization, Database, Ask, ask, ◌>>=◌}
use invokr.Organizations.{best, has_org_id, answers_to}

abbrev pub has_workspace_id : String → Workspace → Bool
has_workspace_id id w = str_eq w.workspace_id id

-- `workspace_id = $2 OR slug = $2`.
abbrev pub answers_to_ref : String → Workspace → Bool
answers_to_ref ref w = has_workspace_id ref w || str_eq w.slug ref

-- `JOIN public.organizations o ON o.org_id = w.org_id`.
unfoldable pub join : List Workspace → List Organization → List (Workspace × Organization)
join [] os = []
join (w ∷ ws) os = map (λ o. (w, o)) (keep (has_org_id w.org_id) os) ++ join ws os

abbrev pub matches : String → String → Workspace × Organization → Bool
matches org_ref workspace_ref row = answers_to org_ref row.1 && answers_to_ref workspace_ref row.0

abbrev pub pick :
    String → String → List (Workspace × Organization) → Option (Workspace × Organization)
pick org_ref workspace_ref t =
    best (λ row. has_org_id org_ref row.1) (λ row. has_workspace_id workspace_ref row.0) t

unfoldable pub get_by_org_and_id : String → String → Ask (Option Workspace)
get_by_org_and_id org_ref workspace_ref = ask (λ db. ok (
  Option.map (λ row. row.0)
      (pick org_ref workspace_ref
        (keep (matches org_ref workspace_ref) (join db.workspaces db.organizations))),
  db,
))

abbrev pub is_reachable : String → String → Workspace × Organization → Bool
is_reachable org_ref workspace_ref row = matches org_ref workspace_ref row && is_active row.0

unfoldable pub resolved : String → String → Database → Option String
resolved org_ref workspace_ref db =
    Option.map (λ (row : Workspace × Organization). row.0.schema_name)
      (pick org_ref workspace_ref
        (keep (is_reachable org_ref workspace_ref) (join db.workspaces db.organizations)))

unfoldable pub resolve_schema : String → String → Ask (Option String)
resolve_schema org_ref workspace_ref = ask (λ db. ok (resolved org_ref workspace_ref db, db))

abbrev pub empty_store : Store
empty_store = record {
  endpoints = [];
  configs = [];
  secrets = [];
  payload_specs = [];
  jobs = [];
  executions = [];
  attempts = [];
  logs = [];
  cron_jobs = [];
}

abbrev pub with_schema : String → Database → Option Store → Database
with_schema name db (some s) = db
with_schema name db none = record db { schemas = (name, empty_store) ∷ db.schemas }

-- `CREATE SCHEMA IF NOT EXISTS` and the tables, `IF NOT EXISTS`. The statements commit one by one;
-- they are taken as one here.
unfoldable pub provision_schema : String → Ask (Unit {0})
provision_schema name = ask (λ db. ok (tt, with_schema name db (lookup name db.schemas)))

abbrev pub reaper_endpoint_name : String
reaper_endpoint_name = "invokr.reaper"

abbrev pub reaper_spec : Json
reaper_spec = obj (field "task" (str "reaper") end)

abbrev pub reaper_job : ℕ → String → String → Job
reaper_job now job_id cron_expression =
    record (new_job job_id reaper_endpoint_name internal cron none none now) {
      cron_expression = some cron_expression;
      cron_timezone = some "UTC";
      cron_next_run_at = some now;
    }

-- The transaction of `provision_reaper`.
abbrev pub install_reaper : ℕ → String → String → String → M (Unit {0})
install_reaper now job_id schema_name cron_expression =
    Conn.◌>>=◌ (Endpoints.create now reaper_endpoint_name internal none none reaper_spec none) (λ e.
      Conn.◌>>=◌ (query (λ s. returning tt (insert_job (reaper_job now job_id cron_expression) s)))
        (λ j. register_pg_cron_conn schema_name job_id cron_expression))

abbrev pub set_schema : String → Store → Database → Database
set_schema name s db = record db { schemas = insert name s db.schemas }

-- What its commit leaves, on a schema that is there.
abbrev pub settled :
    String
    → Database
    → Store
    → Result DbError (Unit {0}) × Conn
    → Result DbError (Unit {0} × Database)
settled name db before (ok a, c) = ok (tt, set_schema name (commit before c) db)
settled name db before (err e, c) = err e

abbrev pub on_schema :
    String
    → M (Unit {0})
    → List (Option String)
    → Database
    → Option Store
    → Result DbError (Unit {0} × Database)
on_schema name m faults db none = err (fault "relation does not exist")
on_schema name m faults db (some s) = settled name db s (m (begin s faults))

-- What a creation does not say: the time, the ids that are drawn, the faults of the reaper's
-- transaction.
pub record Env : Type 0 where
  pub now : ℕ
  pub workspace_id : String
  pub reaper_job_id : String
  pub reaper_faults : List (Option String)

unfoldable pub provision_reaper : Env → String → String → Ask (Unit {0})
provision_reaper env schema_name cron_expression = ask (λ db.
    on_schema schema_name (install_reaper env.now env.reaper_job_id schema_name cron_expression)
      env.reaper_faults db (lookup schema_name db.schemas))

abbrev pub has_schema : String → Workspace → Bool
has_schema name w = str_eq w.schema_name name

abbrev pub has_slug_in : String → String → Workspace → Bool
has_slug_in org_id slug w = str_eq w.org_id org_id && str_eq w.slug slug

abbrev pub new_row : Env → String → String → String → String → Workspace
new_row env org_id name slug schema_name = record {
  workspace_id = env.workspace_id;
  org_id = org_id;
  name = name;
  slug = slug;
  schema_name = schema_name;
  status = "ACTIVE";
  schema_version = pos 0;
  created_at = env.now;
  updated_at = env.now;
}

-- `INSERT INTO public.workspaces`, with its keys and the foreign key to `organizations`.
unfoldable pub insert_workspace : Workspace → Ask Workspace
insert_workspace w = ask (λ db.
    if is_some (find? (has_workspace_id w.workspace_id) db.workspaces)
    then err (unique_violation "pk_workspaces")
    else if is_some (find? (has_schema w.schema_name) db.workspaces)
    then err (unique_violation "workspaces_schema_name_key")
    else if is_some (find? (has_slug_in w.org_id w.slug) db.workspaces)
    then err (unique_violation "uq_workspace_slug")
    else if is_some (find? (has_org_id w.org_id) db.organizations)
    then ok (w, record db { workspaces = w ∷ db.workspaces })
    else err (foreign_key_violation "fk_workspaces_org"))

abbrev pub versioned : Workspace → Workspace
versioned w = record w { schema_version = pos 1 }

unfoldable pub set_version : String → Ask (Unit {0})
set_version id = ask (λ db.
    ok (tt, record db { workspaces = update_where (has_workspace_id id) versioned db.workspaces }))

-- `fetch_one`.
abbrev pub one_row : {A : Type 0} → Database → Option A → Result DbError (A × Database)
one_row db (some a) = ok (a, db)
one_row db none = err (fault "no rows returned")

unfoldable pub fetch : String → Ask Workspace
fetch id = ask (λ db. one_row db (find? (has_workspace_id id) db.workspaces))

-- The name is taken to pass the assertion on it, which panics.
unfoldable pub create : Env → String → String → String → String → String → Ask Workspace
create env org_id name slug schema_name cron_expression = do
  workspace ← insert_workspace (new_row env org_id name slug schema_name)
  u ← provision_schema schema_name
  v ← provision_reaper env schema_name cron_expression
  x ← set_version workspace.workspace_id
  fetch workspace.workspace_id

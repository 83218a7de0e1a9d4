-- ===== src/Workspaces/Provisions.antt =====
-- What a new workspace holds, and what is left when its creation breaks off
-- (crates/common/src/db/workspaces.rs).
use invokr.Base.{
  inl, inr, Option-cases, Bool-cases, is_some, ℕ, zero, suc, ◌<◌, arith, ◌≡◌, refl, ap, String,
  Option, none, some, true, false, List, [], ◌∷◌, find?, eq_refl,
}
use invokr.Base.Int.{pos}
use invokr.Base.Map.{lookup, insert}
use invokr.Base.Rows.{update_where}
use invokr.Base.Result.{ok, err}
use invokr.Store.{Store, Endpoint, Execution, internal}
use invokr.Store.Conn.{DbError, fault, next_fault, rest_faults, query}
use invokr.Endpoints as Endpoints
use invokr.Executions.{insert_row, takes_id, takes_key}
use invokr.Jobs.{insert_job}
use invokr.Jobs.Cron.{cron_job_name, register_pg_cron_conn, tick, tick_row}
use invokr.Tenant.Registry.{Workspace}
use invokr.Public.{Organization, Database, pool_of, ask}
use invokr.Organizations.{has_org_id}
use invokr.Workspaces.{
  Env, has_workspace_id, has_schema, has_slug_in, insert_workspace, provision_schema,
  provision_reaper, set_version, fetch, create, new_row, versioned, empty_store, reaper_job,
  reaper_endpoint_name, reaper_spec,
}

abbrev pub reaper_endpoint : ℕ → Endpoint
reaper_endpoint now = record {
  name = reaper_endpoint_name;
  endpoint_type = internal;
  payload_spec_ref = none;
  config_ref = none;
  spec = reaper_spec;
  retry_policy = none;
  created_at = now;
  updated_at = now;
}

-- The tables of a workspace that has its reaper and nothing else.
abbrev pub provisioned : Env → String → String → Store
provisioned env schema_name cron_expression = record empty_store {
  endpoints = reaper_endpoint env.now ∷ [];
  jobs = reaper_job env.now env.reaper_job_id cron_expression ∷ [];
  cron_jobs =
      record {
        jobname = cron_job_name schema_name env.reaper_job_id;
        schedule = cron_expression;
        job_id = env.reaper_job_id;
      }
      ∷ [];
}

-- A workspace that the keys leave free.
abbrev pub IsFree : Workspace → Database → Type 0
IsFree w db =
    (find? (has_workspace_id w.workspace_id) db.workspaces ≡ none)
    × (find? (has_schema w.schema_name) db.workspaces ≡ none)
    × (find? (has_slug_in w.org_id w.slug) db.workspaces ≡ none)

abbrev pub with_workspace : Workspace → String → Store → Database → Database
with_workspace w schema_name s db = record db {
  workspaces = w ∷ db.workspaces;
  schemas = (schema_name, s) ∷ db.schemas;
}

insert_workspace-free :
    (w : Workspace) (o : Organization) (db : Database) (fs : List (Option String))
    → IsFree w db
    → find? (has_org_id w.org_id) db.organizations ≡ some o
    → next_fault fs ≡ none
    → insert_workspace w (pool_of db fs)
      ≡ (ok w, pool_of (record db { workspaces = w ∷ db.workspaces }) (rest_faults fs))
unfolding insert_workspace ask
insert_workspace-free w o db fs free there calm = rw (calm, free.0, free.1, free.2, there) refl

-- A new schema, found at once.
lookup-first :
    {V : Type 0} (name : String) (v : V) (t : List (String × V))
    → lookup name ((name, v) ∷ t) ≡ some v
unfolding lookup
lookup-first name v t = ap (λ b. elim b [ true ↦ some v | false ↦ lookup name t ]) (eq_refl name)

insert-first :
    {V : Type 0} (name : String) (v u : V) (t : List (String × V))
    → insert name u ((name, v) ∷ t) ≡ (name, u) ∷ t
unfolding insert
insert-first name v u t =
    ap (λ b. elim b [ true ↦ (name, u) ∷ t | false ↦ (name, v) ∷ insert name u t ]) (eq_refl name)

provision_schema-absent :
    (name : String) (db : Database) (fs : List (Option String))
    → lookup name db.schemas ≡ none
    → next_fault fs ≡ none
    → provision_schema name (pool_of db fs)
      ≡ (ok tt, pool_of (record db { schemas = (name, empty_store) ∷ db.schemas }) (rest_faults fs))
unfolding provision_schema ask
provision_schema-absent name db fs absent calm = rw (calm, absent) refl

provision_reaper-empty :
    (env : Env) (schema_name cron_expression : String) (db : Database) (t : List (String × Store))
    (fs : List (Option String))
    → env.reaper_faults ≡ []
    → next_fault fs ≡ none
    → provision_reaper env schema_name cron_expression
        (pool_of (record db { schemas = (schema_name, empty_store) ∷ t }) fs)
      ≡ (
        ok tt,
        pool_of
            (record db { schemas = (schema_name, provisioned env schema_name cron_expression) ∷ t })
            (rest_faults fs),
      )
unfolding provision_reaper ask Endpoints.create query insert_job register_pg_cron_conn
provision_reaper-empty env schema_name cron_expression db t fs quiet calm =
    rw (calm, lookup-first schema_name empty_store t, quiet)
      (ap (λ u. (ok tt, pool_of (record db { schemas = u }) (rest_faults fs)))
        (insert-first schema_name empty_store (provisioned env schema_name cron_expression) t))

abbrev pub reaper_row : ℕ → String → Env → String → Execution
reaper_row later new_id env cron_expression =
    tick_row later new_id (reaper_job env.now env.reaper_job_id cron_expression) (pos 1)

-- With no fault, a creation whose keys are free answers with the workspace at version 1, ACTIVE, and
-- its schema, which was not there, holds the reaper: its endpoint, its job and the entry of pg_cron. A
-- tick of that entry on these tables with any executions adds one of the reaper, unless its id or its
-- key, which is of the millisecond, is taken.
pub create_provisions :
    (env : Env) (org_id name slug schema_name cron_expression : String) (o : Organization)
    (db : Database) (later : ℕ) (new_id : String) (rows : List Execution)
    → env.reaper_faults ≡ []
    → IsFree (new_row env org_id name slug schema_name) db
    → find? (has_org_id org_id) db.organizations ≡ some o
    → lookup schema_name db.schemas ≡ none
    → find? (takes_id (reaper_row later new_id env cron_expression)) rows ≡ none
    → find? (takes_key (reaper_row later new_id env cron_expression)) rows ≡ none
    → (create env org_id name slug schema_name cron_expression (pool_of db []) ≡ (
      ok (versioned (new_row env org_id name slug schema_name)),
      pool_of
          (record db {
            workspaces =
                versioned (new_row env org_id name slug schema_name)
                ∷ update_where (has_workspace_id env.workspace_id) versioned db.workspaces;
            schemas = (schema_name, provisioned env schema_name cron_expression) ∷ db.schemas;
          })
          [],
    ))
      × ((tick later new_id env.reaper_job_id
            (record (provisioned env schema_name cron_expression) { executions = rows })).executions
          ≡ reaper_row later new_id env cron_expression ∷ rows)
unfolding create set_version fetch ask tick insert_row
create_provisions env org_id name slug schema_name cron_expression o db later new_id rows quiet free
      there absent id key =
    let w = new_row env org_id name slug schema_name in
    let db1 : Database = record db { workspaces = w ∷ db.workspaces } in
    (
      rw
          (
            insert_workspace-free w o db [] free there refl,
            provision_schema-absent schema_name db1 [] absent refl,
            provision_reaper-empty env schema_name cron_expression db1 db.schemas [] quiet refl,
          )
          (rw (eq_refl env.workspace_id) (rw (eq_refl env.workspace_id) refl)),
      rw (eq_refl env.reaper_job_id, id, key) refl,
    )

-- A schema name is taken once: a creation under the name of a workspace fails and changes nothing,
-- whatever the faults.
create_taken :
    (env : Env) (org_id name slug schema_name cron_expression : String) (w : Workspace)
    (db : Database) (fs : List (Option String))
    → find? (has_schema schema_name) db.workspaces ≡ some w
    → (e : DbError) × (create env org_id name slug schema_name cron_expression (pool_of db fs)
        ≡ (err e, pool_of db (rest_faults fs)))
unfolding create insert_workspace ask
create_taken env org_id name slug schema_name cron_expression w db fs taken =
    elim (Option-cases (next_fault fs)) [
      | inr (text, faulty) ↦ rw faulty (_, refl)
      | inl calm ↦
          elim (Bool-cases (is_some (find? (has_workspace_id env.workspace_id) db.workspaces))) [
            | inl there ↦ rw (calm, there) (_, refl)
            | inr free ↦ rw (calm, free, taken) (_, refl)
          ]
    ]

-- Statements without a fault, and then `rest`.
abbrev pub calm_until : ℕ → List (Option String) → List (Option String)
calm_until zero rest = rest
calm_until (suc n) rest = none ∷ calm_until n rest

-- The transaction of the reaper has three statements; a fault of any leaves the schema as it was.
provision_reaper-faulty :
    (env : Env) (schema_name cron_expression text : String) (db : Database)
    (t : List (String × Store)) (fs rest : List (Option String)) (done : ℕ)
    → done < 3
    → env.reaper_faults ≡ calm_until done (some text ∷ rest)
    → next_fault fs ≡ none
    → provision_reaper env schema_name cron_expression
        (pool_of (record db { schemas = (schema_name, empty_store) ∷ t }) fs)
      ≡ (
        err (fault text),
        pool_of (record db { schemas = (schema_name, empty_store) ∷ t }) (rest_faults fs),
      )
unfolding provision_reaper ask Endpoints.create query insert_job register_pg_cron_conn
provision_reaper-faulty env schema_name cron_expression text db t fs rest zero few faulty calm =
    rw (calm, lookup-first schema_name empty_store t, faulty) refl
provision_reaper-faulty env schema_name cron_expression text db t fs rest (suc zero) few faulty
      calm =
    rw (calm, lookup-first schema_name empty_store t, faulty) refl
provision_reaper-faulty env schema_name cron_expression text db t fs rest (suc (suc zero)) few
      faulty calm =
    rw (calm, lookup-first schema_name empty_store t, faulty) refl
provision_reaper-faulty env schema_name cron_expression text db t fs rest (suc (suc (suc n))) few
      faulty calm =
    absurd (omega (arith, few))

-- A creation whose keys and whose schema are free, and which has a fault in one of the three
-- statements of the reaper's transaction, leaves nothing of that transaction but an ACTIVE workspace
-- of version 0 with empty tables and no reaper, which no later creation of its slug repairs: each
-- fails and changes nothing, whatever its time, its ids and its faults.
pub create_breaks_off :
    (env again : Env) (org_id name name' slug schema_name cron_expression cron_expression' : String)
    (o : Organization) (db : Database) (text : String) (fs rest : List (Option String)) (done : ℕ)
    → done < 3
    → env.reaper_faults ≡ calm_until done (some text ∷ rest)
    → IsFree (new_row env org_id name slug schema_name) db
    → find? (has_org_id org_id) db.organizations ≡ some o
    → lookup schema_name db.schemas ≡ none
    → (create env org_id name slug schema_name cron_expression (pool_of db []) ≡ (
      err (fault text),
      pool_of
          (with_workspace (new_row env org_id name slug schema_name) schema_name empty_store db)
          [],
    ))
      × ((e : DbError) × (create again org_id name' slug schema_name cron_expression' (
              pool_of
                (with_workspace
                  (new_row env org_id name slug schema_name)
                  schema_name
                  empty_store
                  db)
                fs)
            ≡ (
              err e,
              pool_of
                  (with_workspace
                    (new_row env org_id name slug schema_name)
                    schema_name
                    empty_store
                    db)
                  (rest_faults fs),
            )))
unfolding create
create_breaks_off env again org_id name name' slug schema_name cron_expression cron_expression' o db
      text fs rest done few faulty free there absent =
    let w = new_row env org_id name slug schema_name in
    let db1 : Database = record db { workspaces = w ∷ db.workspaces } in
    (
      rw
          (
            insert_workspace-free w o db [] free there refl,
            provision_schema-absent schema_name db1 [] absent refl,
            provision_reaper-faulty env schema_name cron_expression text db1 db.schemas [] rest done
                few faulty refl,
          )
          refl,
      create_taken again org_id name' slug schema_name cron_expression' w
          (with_workspace w schema_name empty_store db) fs (rw (eq_refl schema_name) refl),
    )

-- ===== src/Examples/Tenancy.antt =====
-- Organizations and workspaces, tried at concrete values.
use invokr.Base.{◌≡◌, refl, arith, String, none, some, [], ◌∷◌}
use invokr.Base.Map.{lookup}
use invokr.Base.Text.{all_chars, count_chars, show_nat}
use invokr.Base.Rows.{update_where}
use invokr.Base.Result.{ok, err}
use invokr.Store.Conn.{DbError, fault, rest_faults}
use invokr.Jobs.Cron.{tick}
use invokr.Tenant.Apart.{build_schema_name_injective}
use invokr.Public.{Organization, Database, pool_of}
use invokr.Workspaces.{
  Env, create, new_row, versioned, has_workspace_id, empty_store, resolved, join,
}
use invokr.Workspaces.Resolves.{Reaches, resolved-Reaches}
use invokr.Workspaces.Provisions.{
  provisioned, reaper_row, with_workspace, create_provisions, create_breaks_off,
}

abbrev acme : Organization
acme = record {
  org_id = "0f-1a";
  name = "Acme";
  slug = "acme";
  status = "ACTIVE";
  created_at = 0;
  updated_at = 0;
}

abbrev database : Database
database = record { organizations = acme ∷ []; workspaces = []; schemas = [] }

abbrev env : Env
env = record { now = 5; workspace_id = "w1"; reaper_job_id = "r1"; reaper_faults = [] }

-- The second statement of the reaper's transaction fails.
abbrev faulty : Env
faulty = record env { reaper_faults = none ∷ some "timeout" ∷ [] }

abbrev again : Env
again = record { now = 9; workspace_id = "w2"; reaper_job_id = "r2"; reaper_faults = [] }

abbrev half : Database
half =
    with_workspace (new_row env "0f-1a" "Team" "team" "0f_1a_team") "0f_1a_team" empty_store
      database

create_provisions_example :
    (create env "0f-1a" "Team" "team" "0f_1a_team" "*/15 * * * *" (pool_of database []) ≡ (
      ok (versioned (new_row env "0f-1a" "Team" "team" "0f_1a_team")),
      pool_of
          (record database {
            workspaces =
                versioned (new_row env "0f-1a" "Team" "team" "0f_1a_team")
                ∷ update_where (has_workspace_id "w1") versioned database.workspaces;
            schemas =
                ("0f_1a_team", provisioned env "0f_1a_team" "*/15 * * * *") ∷ database.schemas;
          })
          [],
    ))
    × ((tick 2000 "e2" "r1" (record (provisioned env "0f_1a_team" "*/15 * * * *") {
      executions = reaper_row 20 "e1" env "*/15 * * * *" ∷ [];
    })).executions
        ≡ reaper_row 2000 "e2" env "*/15 * * * *" ∷ reaper_row 20 "e1" env "*/15 * * * *" ∷ [])
unfolding lookup show_nat
create_provisions_example =
    create_provisions env "0f-1a" "Team" "team" "0f_1a_team" "*/15 * * * *" acme database 2000 "e2"
      (reaper_row 20 "e1" env "*/15 * * * *" ∷ []) refl (refl, refl, refl) refl refl refl refl

create_breaks_off_example :
    (create faulty "0f-1a" "Team" "team" "0f_1a_team" "*/15 * * * *" (pool_of database [])
      ≡ (err (fault "timeout"), pool_of half []))
    × ((e : DbError) × (create again "0f-1a" "Team 2" "team" "0f_1a_team" "*/5 * * * *"
            (pool_of half [])
          ≡ (err e, pool_of half (rest_faults []))))
unfolding lookup
create_breaks_off_example =
    create_breaks_off faulty again "0f-1a" "Team" "Team 2" "team" "0f_1a_team" "*/15 * * * *"
      "*/5 * * * *" acme database "timeout" [] [] 1 (omega arith) refl (refl, refl, refl) refl refl

resolved-Reaches_example : Reaches "acme" "team" half "0f_1a_team"
unfolding resolved join
resolved-Reaches_example = resolved-Reaches "acme" "team" "0f_1a_team" half refl

build_schema_name_injective_example :
    (◌≡◌ {A = String} "0f-1a" "0f-1a") × (◌≡◌ {A = String} "my-team" "my-team")
unfolding all_chars count_chars
build_schema_name_injective_example =
    build_schema_name_injective "0f-1a" "0f-1a" "my-team" "my-team" refl refl refl refl refl refl

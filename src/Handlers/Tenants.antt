-- ===== src/Handlers/Tenants.antt =====
-- The requests on organizations and workspaces: crates/api/src/handlers/organizations.rs and
-- workspaces.rs.
use Prim.Native.String.{◌++◌}
use invokr.Base.{ℕ, String, Option, none, some, if◌then◌else◌}
use invokr.Base.Result.{Result, ok, err}
use invokr.Store.Conn.{DbError}
use invokr.Errors.{
  AppError, invalid_request, conflict, org_not_found, of_db_error, constraint_error,
}
use invokr.Tenant.{validate_slug, build_schema_name}
use invokr.Tenant.Registry.{Workspace}
use invokr.Public.{Organization, Pool}
use invokr.Organizations as Organizations
use invokr.Workspaces as Workspaces
use invokr.Workspaces.{Env}

-- A request, with `?` after each step.
abbrev pub Reply : Type 0 → Type 0
Reply A = Result AppError A × Pool

abbrev pub followed : {A B : Type 0} → Reply A → (A → Pool → Reply B) → Reply B
followed (ok a, p) next = next a p
followed (err e, p) next = (err e, p)

abbrev pub asked : {A : Type 0} → (DbError → AppError) → Result DbError A × Pool → Reply A
asked f (ok a, p) = (ok a, p)
asked f (err e, p) = (err (f e), p)

abbrev pub found : {A : Type 0} → AppError → Option A → Pool → Reply A
found e (some a) p = (ok a, p)
found e none p = (err e, p)

abbrev pub bad_slug : String → AppError
bad_slug slug = invalid_request (
    "Invalid slug '" ++ slug
    ++ "': must be 1-25 chars of lowercase letters, digits, and interior hyphens (no leading or trailing hyphen)")

unfoldable pub create_organization : ℕ → String → String → String → Pool → Reply Organization
create_organization now id name slug p =
    if validate_slug slug
    then asked
        (constraint_error (conflict ("Organization with slug '" ++ slug ++ "' already exists")))
        (Organizations.create now id name slug p)
    else (err (bad_slug slug), p)

abbrev pub no_org : String → AppError
no_org ref = org_not_found ("Organization " ++ ref ++ " not found")

unfoldable pub get_organization : String → Pool → Reply Organization
get_organization ref p = followed (asked of_db_error (Organizations.get ref p)) (found (no_org ref))

unfoldable pub update_organization : ℕ → String → Option String → Pool → Reply Organization
update_organization now ref none p = (err (invalid_request "name is required"), p)
update_organization now ref (some name) p =
    followed (asked of_db_error (Organizations.update now ref name p)) (found (no_org ref))

-- The schema name is asserted to be valid, which `build_schema_name_valid` shows it is for the ids
-- that PostgreSQL draws.
abbrev pub create_in : Env → String → String → String → Organization → Pool → Reply Workspace
create_in env cron_expression name slug org p =
    asked
      (constraint_error
        (conflict ("Workspace with slug '" ++ slug ++ "' already exists in this org")))
      (Workspaces.create env org.org_id name slug (build_schema_name org.org_id slug)
        cron_expression p)

unfoldable pub create_workspace : Env → String → String → String → String → Pool → Reply Workspace
create_workspace env cron_expression ref name slug p =
    if validate_slug slug
    then followed (get_organization ref p) (create_in env cron_expression name slug)
    else (err (bad_slug slug), p)

unfoldable pub get_workspace : String → String → Pool → Reply Workspace
get_workspace org_ref workspace_ref p =
    followed (asked of_db_error (Workspaces.get_by_org_and_id org_ref workspace_ref p)) (
      found (
        AppError.workspace_not_found
          ("Workspace " ++ workspace_ref ++ " not found in org " ++ org_ref)))

-- crates/common/src/tenant.rs.
pub record WorkspaceContext : Type 0 where
  pub org_id : String
  pub workspace_id : String
  pub schema_name : String

-- What a request without a workspace is answered with: 400, 500 and 404.
pub data Unresolved : Type 0 where
  missing_workspace : Unresolved
  failed_to_resolve : Unresolved
  workspace_not_found : String → String → Unresolved

abbrev pub context_of :
    String → String → Result DbError (Option String) → Result Unresolved WorkspaceContext
context_of org_id workspace_id (err e) = err failed_to_resolve
context_of org_id workspace_id (ok none) = err (workspace_not_found workspace_id org_id)
context_of org_id workspace_id (ok (some schema_name)) =
    ok (record { org_id = org_id; workspace_id = workspace_id; schema_name = schema_name })

-- crates/api/src/extractors.rs: the workspace of a request, from the headers `x-org-id` and
-- `x-workspace-id`, when no earlier extractor has found it.
unfoldable pub extract_workspace :
    Option String → Option String → Pool → Result Unresolved WorkspaceContext
extract_workspace (some org_id) (some workspace_id) p =
    context_of org_id workspace_id (Workspaces.resolve_schema org_id workspace_id p).0
extract_workspace _ _ p = err missing_workspace

-- ===== src/Tenant/Registry.antt =====
-- `SchemaRegistry` of crates/common/src/tenant.rs: the schemas that a worker polls, cached. Calls run
-- one after another.
pub mod Recent
use invokr.Base.Int.{ℤ}
use invokr.Base.{
  ℕ, ◌+◌, ◌-◌, String, Bool, true, false, not, ◌&&◌, Option, none, some, List, [], ◌∷◌, keep, map,
  ltb, str_eq, if◌then◌else◌,
}
use invokr.Base.Result.{Result, ok, err}
use invokr.Store.Conn.{DbError, fault}

-- A row of `public.workspaces` (crates/common/src/models/workspace.rs).
pub record Workspace : Type 0 where
  pub workspace_id : String
  pub org_id : String
  pub name : String
  pub slug : String
  pub schema_name : String
  pub status : String
  pub schema_version : ℤ
  pub created_at : ℕ
  pub updated_at : ℕ

abbrev pub is_active : Workspace → Bool
is_active w = str_eq w.status "ACTIVE"

-- The statement.
unfoldable pub active_schemas : List Workspace → List String
active_schemas t = map (λ w. w.schema_name) (keep is_active t)

pub record SchemaRegistry : Type 0 where
  pub schemas : List String
  pub fetched_at : ℕ
  pub ttl : ℕ

-- In seconds, as are the instants. No schema is cached yet, so the instant, which lies before the clock's zero for a new
-- clock, is not looked at.
abbrev pub new : ℕ → ℕ → SchemaRegistry
new now ttl_secs = record { schemas = []; fetched_at = now - (ttl_secs + 1); ttl = ttl_secs }

abbrev pub is_empty : List String → Bool
is_empty [] = true
is_empty (s ∷ t) = false

-- What a call meets: the instant of its look at the cache, the table, a fault of the statement, and
-- the instant after it.
pub record Call : Type 0 where
  pub now : ℕ
  pub workspaces : List Workspace
  pub fails : Option String
  pub fetched : ℕ

abbrev pub is_fresh : ℕ → SchemaRegistry → Bool
is_fresh now r = ltb (now - r.fetched_at) r.ttl && not (is_empty r.schemas)

abbrev pub refresh :
    Call → SchemaRegistry → Option String → Result DbError (List String) × SchemaRegistry
refresh p r (some text) = (err (fault text), r)
refresh p r none =
    let schemas = active_schemas p.workspaces in
    (ok schemas, record r { schemas = schemas; fetched_at = p.fetched })

unfoldable pub get_active_schemas :
    Call → SchemaRegistry → Result DbError (List String) × SchemaRegistry
get_active_schemas p r = if is_fresh p.now r then (ok r.schemas, r) else refresh p r p.fails

-- The registry after calls, the latest first.
abbrev pub after : List Call → SchemaRegistry → SchemaRegistry
after [] r = r
after (p ∷ past) r = (get_active_schemas p (after past r)).1

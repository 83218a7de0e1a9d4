-- ===== src/Handlers/Configs.antt =====
-- The requests on configs: crates/api/src/handlers/configs.rs.
use Prim.Native.String.{◌++◌}
use invokr.Base.{String, not, Option, List, is_some}
use invokr.Base.Result.{Result}
use invokr.Json.{Json, as_object}
use invokr.Store.{Store}
use invokr.Store.Conn.{begin}
use invokr.Errors.{AppError, invalid_request, conflict, config_not_found, constraint_error}
use invokr.Configs as Configs
use invokr.Handlers.{
  Handler, ◌>>=◌, ◌>>◌, statement, statement_or, or_reject, refuse_if, autocommitted, then_write,
}

abbrev pub create_body : String → Json → Handler (String × Json)
create_body name v = do
  refuse_if (not (is_some (as_object v))) (invalid_request "Values must be a JSON object")
  statement_or (constraint_error (conflict ("Config '" ++ name ++ "' already exists")))
      (Configs.create name v)

unfoldable pub create :
    String → Json → List (Option String) → Store → Result AppError (String × Json) × Store
create name v faults s = autocommitted (create_body name v (begin s faults))

abbrev pub update_body : String → Json → Handler (String × Json)
update_body name v = do
  refuse_if (not (is_some (as_object v))) (invalid_request "Values must be a JSON object")
  row ← statement (Configs.update name v)
  or_reject row (config_not_found name)

unfoldable pub update :
    String → Json → List (Option String) → Store → Result AppError (String × Json) × Store
update name v faults s = autocommitted (update_body name v (begin s faults))

-- The check, and the deletion after it.
abbrev pub check_unused : String → Handler (Unit {0})
check_unused name = do
  used ← statement (Configs.has_dependent_endpoints name)
  refuse_if used (conflict ("Config '" ++ name ++ "' has dependent endpoints"))

abbrev pub delete_row : String → Unit {0} → Handler (Unit {0})
delete_row name nothing = do
  deleted ← statement (Configs.delete name)
  refuse_if (not deleted) (config_not_found name)

unfoldable pub delete :
    String
    → List (Option String)
    → List (Option String)
    → Store
    → Store
    → Result AppError (Unit {0}) × Store
delete name read_faults faults seen s =
    then_write (check_unused name (begin seen read_faults)).0 (delete_row name) faults s

-- ===== src/Handlers/PayloadSpecs.antt =====
-- The requests on payload specs: crates/api/src/handlers/payload_specs.rs.
use Prim.Native.String.{◌++◌}
use invokr.Base.{String, not, Option, List, is_some}
use invokr.Base.Result.{Result}
use invokr.Json.{Json, as_object}
use invokr.Store.{Store}
use invokr.Store.Conn.{begin}
use invokr.Errors.{AppError, invalid_schema, conflict, payload_spec_not_found, constraint_error}
use invokr.PayloadSpecs as PayloadSpecs
use invokr.Handlers.{
  Handler, ◌>>=◌, ◌>>◌, statement, statement_or, or_reject, refuse_if, autocommitted, then_write,
}

abbrev pub create_body : String → Json → Handler (String × Json)
create_body name v = do
  refuse_if (not (is_some (as_object v))) (invalid_schema "Schema must be a JSON object")
  statement_or (constraint_error (conflict ("Payload spec '" ++ name ++ "' already exists")))
      (PayloadSpecs.create name v)

unfoldable pub create :
    String → Json → List (Option String) → Store → Result AppError (String × Json) × Store
create name v faults s = autocommitted (create_body name v (begin s faults))

abbrev pub update_body : String → Json → Handler (String × Json)
update_body name v = do
  refuse_if (not (is_some (as_object v))) (invalid_schema "Schema must be a JSON object")
  row ← statement (PayloadSpecs.update name v)
  or_reject row (payload_spec_not_found name)

unfoldable pub update :
    String → Json → List (Option String) → Store → Result AppError (String × Json) × Store
update name v faults s = autocommitted (update_body name v (begin s faults))

-- The check, and the deletion after it.
abbrev pub check_unused : String → Handler (Unit {0})
check_unused name = do
  used ← statement (PayloadSpecs.has_dependent_endpoints name)
  refuse_if used (conflict ("Payload spec '" ++ name ++ "' has dependent endpoints"))

abbrev pub delete_row : String → Unit {0} → Handler (Unit {0})
delete_row name nothing = do
  deleted ← statement (PayloadSpecs.delete name)
  refuse_if (not deleted) (payload_spec_not_found name)

unfoldable pub delete :
    String
    → List (Option String)
    → List (Option String)
    → Store
    → Store
    → Result AppError (Unit {0}) × Store
delete name read_faults faults seen s =
    then_write (check_unused name (begin seen read_faults)).0 (delete_row name) faults s

-- ===== src/Handlers/Endpoints.antt =====
-- The requests on endpoints: crates/api/src/handlers/endpoints.rs.
pub mod Deletes
use Prim.Native.String.{◌++◌}
use mathlib.Core.Option as Option
use invokr.Base.{ℕ, String, not, Option, none, some, List, is_some}
use invokr.Base.Result.{Result}
use invokr.Json.{Json}
use invokr.Store.{Store, Endpoint, EndpointType}
use invokr.Store.Enums.{endpoint_type_of_text}
use invokr.Store.Conn.{begin}
use invokr.Errors.{
  AppError, invalid_request, conflict, endpoint_not_found, invalid_payload_spec_ref,
  invalid_config_ref, constraint_error,
}
use invokr.Endpoints as Endpoints
use invokr.Endpoints.{RetryPolicy, json_of_retry_policy}
use invokr.Pipeline.Load.{get_config}
use invokr.Handlers.{
  Handler, statement, statement_or, return, or_reject, refuse_if, is_internal, then_write, ◌>>=◌,
  ◌>>◌,
}
use invokr.Handlers.Create.{get_payload_spec}

pub record CreateEndpoint : Type 0 where
  pub name : String
  pub endpoint_type : String
  pub payload_spec : Option String
  pub config : Option String
  pub spec : Json
  pub retry_policy : Option RetryPolicy

pub record UpdateEndpoint : Type 0 where
  pub spec : Option Json
  pub config : Option String
  pub payload_spec : Option String
  pub retry_policy : Option RetryPolicy

abbrev pub check_payload_spec : Option String → Handler (Unit {0})
check_payload_spec none = return tt
check_payload_spec (some ps) = do
  row ← statement (get_payload_spec ps)
  refuse_if (not (is_some row)) (invalid_payload_spec_ref ps)

abbrev pub check_config : Option String → Handler (Unit {0})
check_config none = return tt
check_config (some cfg) = do
  row ← statement (get_config cfg)
  refuse_if (not (is_some row)) (invalid_config_ref cfg)

abbrev pub invalid_type : String → AppError
invalid_type text =
    invalid_request ("Invalid endpoint type: " ++ text ++ ". Must be HTTP, KAFKA, or REDIS_STREAM")

-- The reads of `create`: the type is one that a user may choose, and the references are there.
abbrev pub check_create : CreateEndpoint → Handler EndpointType
check_create body = do
  endpoint_type ←
      or_reject (endpoint_type_of_text body.endpoint_type) (invalid_type body.endpoint_type)
  refuse_if (is_internal endpoint_type) (invalid_type body.endpoint_type)
  check_payload_spec body.payload_spec
  check_config body.config
  return endpoint_type

abbrev pub insert : ℕ → CreateEndpoint → EndpointType → Handler Endpoint
insert now body endpoint_type =
    statement_or (constraint_error (conflict ("Endpoint '" ++ body.name ++ "' already exists"))) (
      Endpoints.create now body.name endpoint_type body.payload_spec body.config body.spec
        (Option.map json_of_retry_policy body.retry_policy))

unfoldable pub create :
    ℕ
    → CreateEndpoint
    → List (Option String)
    → List (Option String)
    → Store
    → Store
    → Result AppError Endpoint × Store
create now body read_faults faults seen s =
    then_write (check_create body (begin seen read_faults)).0 (insert now body) faults s

abbrev pub check_update : UpdateEndpoint → Handler (Unit {0})
check_update body = do check_payload_spec body.payload_spec; check_config body.config

abbrev pub change : ℕ → String → UpdateEndpoint → Unit {0} → Handler Endpoint
change now name body nothing = do
  row ← statement (
      Endpoints.update now name body.spec body.config body.payload_spec
        (Option.map json_of_retry_policy body.retry_policy))
  or_reject row (endpoint_not_found name)

unfoldable pub update :
    ℕ
    → String
    → UpdateEndpoint
    → List (Option String)
    → List (Option String)
    → Store
    → Store
    → Result AppError Endpoint × Store
update now name body read_faults faults seen s =
    then_write (check_update body (begin seen read_faults)).0 (change now name body) faults s

abbrev pub check_idle : String → Handler (Unit {0})
check_idle name = do
  busy ← statement (Endpoints.has_active_jobs name)
  refuse_if busy (conflict ("Endpoint '" ++ name ++ "' has active jobs"))

abbrev pub delete_row : String → Unit {0} → Handler (Unit {0})
delete_row name nothing = do
  deleted ← statement (Endpoints.delete name)
  refuse_if (not deleted) (endpoint_not_found name)

unfoldable pub delete :
    String
    → List (Option String)
    → List (Option String)
    → Store
    → Store
    → Result AppError (Unit {0}) × Store
delete name read_faults faults seen s =
    then_write (check_idle name (begin seen read_faults)).0 (delete_row name) faults s

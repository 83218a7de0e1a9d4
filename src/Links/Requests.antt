-- ===== src/Links/Requests.antt =====
-- That the requests on configs, payload specs and endpoints keep the references between the tables.
use Prim.Native.String.{◌++◌}
use mathlib.Core.Option as Option
use invokr.Base.{ℕ, String, not, Option, List, is_some}
use invokr.Json.{Json, as_object}
use invokr.Store.{Store}
use invokr.Store.Conn.{DbError, M, begin}
use invokr.Errors.{
  AppError, invalid_request, invalid_schema, conflict, config_not_found, payload_spec_not_found,
  endpoint_not_found, constraint_error, of_db_error,
}
use invokr.Endpoints.{json_of_retry_policy}
use invokr.Configs as DbConfigs
use invokr.PayloadSpecs as DbPayloadSpecs
use invokr.Endpoints as DbEndpoints
use invokr.Handlers.{Handler, follow, statement, statement_or, or_reject, refuse_if}
use invokr.Handlers.Configs as Configs
use invokr.Handlers.PayloadSpecs as PayloadSpecs
use invokr.Handlers.Endpoints as Endpoints
use invokr.Handlers.Endpoints.{CreateEndpoint, UpdateEndpoint}
use invokr.Links.{IsLinked}
use invokr.Links.Keeps.{
  Keeps, follow-Keeps, statement-Keeps, or_reject-Keeps, refuse_if-Keeps, then_write-Keeps,
}
use invokr.Links.Named.{
  Configs-create-Keeps, Configs-update-Keeps, Configs-delete-Keeps, PayloadSpecs-create-Keeps,
  PayloadSpecs-update-Keeps, PayloadSpecs-delete-Keeps,
}
use invokr.Links.Endpoints.{create-Keeps, update-Keeps, delete-Keeps}

-- A statement, and a look at what it has answered.
pub written-Keeps :
    {A B : Type 0} (f : DbError → AppError) (m : M A) (look : A → Handler B)
    → Keeps IsLinked m
    → ((a : A) → Keeps IsLinked (look a))
    → Keeps IsLinked (λ c. follow look (statement_or f m c))
written-Keeps f m look keeps looks =
    follow-Keeps IsLinked (statement_or f m) look (statement-Keeps IsLinked f m keeps) looks

pub Configs-create-IsLinked :
    (name : String) (v : Json) (faults : List (Option String)) (s : Store)
    → IsLinked s
    → IsLinked (Configs.create name v faults s).1
unfolding Configs.create
Configs-create-IsLinked name v faults s l =
    follow-Keeps IsLinked
      (refuse_if (not (is_some (as_object v))) (invalid_request "Values must be a JSON object"))
      (λ _. statement_or clash (DbConfigs.create name v)) (refuse_if-Keeps IsLinked _ _)
      (λ _. statement-Keeps IsLinked clash (DbConfigs.create name v) (Configs-create-Keeps name v))
      (begin s faults) l
  where
    clash : DbError → AppError
    clash = constraint_error (conflict ("Config '" ++ name ++ "' already exists"))

pub Configs-update-IsLinked :
    (name : String) (v : Json) (faults : List (Option String)) (s : Store)
    → IsLinked s
    → IsLinked (Configs.update name v faults s).1
unfolding Configs.update
Configs-update-IsLinked name v faults s l =
    follow-Keeps IsLinked
      (refuse_if (not (is_some (as_object v))) (invalid_request "Values must be a JSON object"))
      (λ _ c.
        follow (λ row. or_reject row (config_not_found name))
          (statement (DbConfigs.update name v) c))
      (refuse_if-Keeps IsLinked _ _)
      (λ _.
        written-Keeps of_db_error (DbConfigs.update name v)
          (λ row. or_reject row (config_not_found name)) (Configs-update-Keeps name v)
          (λ row. or_reject-Keeps IsLinked row (config_not_found name)))
      (begin s faults) l

pub Configs-delete-IsLinked :
    (name : String) (read_faults faults : List (Option String)) (seen s : Store)
    → IsLinked s
    → IsLinked (Configs.delete name read_faults faults seen s).1
unfolding Configs.delete
Configs-delete-IsLinked name read_faults faults seen s l =
    then_write-Keeps IsLinked (Configs.check_unused name (begin seen read_faults)).0
      (Configs.delete_row name) faults s
      (λ _.
        written-Keeps of_db_error (DbConfigs.delete name)
          (λ deleted. refuse_if (not deleted) (config_not_found name)) (Configs-delete-Keeps name)
          (λ deleted. refuse_if-Keeps IsLinked (not deleted) (config_not_found name)))
      l

pub PayloadSpecs-create-IsLinked :
    (name : String) (v : Json) (faults : List (Option String)) (s : Store)
    → IsLinked s
    → IsLinked (PayloadSpecs.create name v faults s).1
unfolding PayloadSpecs.create
PayloadSpecs-create-IsLinked name v faults s l =
    follow-Keeps IsLinked
      (refuse_if (not (is_some (as_object v))) (invalid_schema "Schema must be a JSON object"))
      (λ _. statement_or clash (DbPayloadSpecs.create name v)) (refuse_if-Keeps IsLinked _ _)
      (λ _.
        statement-Keeps IsLinked clash (DbPayloadSpecs.create name v)
          (PayloadSpecs-create-Keeps name v))
      (begin s faults) l
  where
    clash : DbError → AppError
    clash = constraint_error (conflict ("Payload spec '" ++ name ++ "' already exists"))

pub PayloadSpecs-update-IsLinked :
    (name : String) (v : Json) (faults : List (Option String)) (s : Store)
    → IsLinked s
    → IsLinked (PayloadSpecs.update name v faults s).1
unfolding PayloadSpecs.update
PayloadSpecs-update-IsLinked name v faults s l =
    follow-Keeps IsLinked
      (refuse_if (not (is_some (as_object v))) (invalid_schema "Schema must be a JSON object"))
      (λ _ c.
        follow (λ row. or_reject row (payload_spec_not_found name))
          (statement (DbPayloadSpecs.update name v) c))
      (refuse_if-Keeps IsLinked _ _)
      (λ _.
        written-Keeps of_db_error (DbPayloadSpecs.update name v)
          (λ row. or_reject row (payload_spec_not_found name)) (PayloadSpecs-update-Keeps name v)
          (λ row. or_reject-Keeps IsLinked row (payload_spec_not_found name)))
      (begin s faults) l

pub PayloadSpecs-delete-IsLinked :
    (name : String) (read_faults faults : List (Option String)) (seen s : Store)
    → IsLinked s
    → IsLinked (PayloadSpecs.delete name read_faults faults seen s).1
unfolding PayloadSpecs.delete
PayloadSpecs-delete-IsLinked name read_faults faults seen s l =
    then_write-Keeps IsLinked (PayloadSpecs.check_unused name (begin seen read_faults)).0
      (PayloadSpecs.delete_row name) faults s
      (λ _.
        written-Keeps of_db_error (DbPayloadSpecs.delete name)
          (λ deleted. refuse_if (not deleted) (payload_spec_not_found name))
          (PayloadSpecs-delete-Keeps name)
          (λ deleted. refuse_if-Keeps IsLinked (not deleted) (payload_spec_not_found name)))
      l

pub Endpoints-create-IsLinked :
    (now : ℕ) (body : CreateEndpoint) (read_faults faults : List (Option String)) (seen s : Store)
    → IsLinked s
    → IsLinked (Endpoints.create now body read_faults faults seen s).1
unfolding Endpoints.create
Endpoints-create-IsLinked now body read_faults faults seen s l =
    then_write-Keeps IsLinked (Endpoints.check_create body (begin seen read_faults)).0
      (Endpoints.insert now body) faults s
      (λ endpoint_type.
        statement-Keeps IsLinked
          (constraint_error (conflict ("Endpoint '" ++ body.name ++ "' already exists")))
          (DbEndpoints.create now body.name endpoint_type body.payload_spec body.config body.spec
            (Option.map json_of_retry_policy body.retry_policy))
          (create-Keeps now body.name endpoint_type body.payload_spec body.config body.spec
            (Option.map json_of_retry_policy body.retry_policy)))
      l

pub Endpoints-update-IsLinked :
    (now : ℕ) (name : String) (body : UpdateEndpoint) (read_faults faults : List (Option String))
    (seen s : Store)
    → IsLinked s
    → IsLinked (Endpoints.update now name body read_faults faults seen s).1
unfolding Endpoints.update
Endpoints-update-IsLinked now name body read_faults faults seen s l =
    then_write-Keeps IsLinked (Endpoints.check_update body (begin seen read_faults)).0
      (Endpoints.change now name body) faults s
      (λ _.
        written-Keeps of_db_error
          (DbEndpoints.update now name body.spec body.config body.payload_spec
            (Option.map json_of_retry_policy body.retry_policy))
          (λ row. or_reject row (endpoint_not_found name))
          (update-Keeps now name body.spec body.config body.payload_spec
            (Option.map json_of_retry_policy body.retry_policy))
          (λ row. or_reject-Keeps IsLinked row (endpoint_not_found name)))
      l

pub Endpoints-delete-IsLinked :
    (name : String) (read_faults faults : List (Option String)) (seen s : Store)
    → IsLinked s
    → IsLinked (Endpoints.delete name read_faults faults seen s).1
unfolding Endpoints.delete
Endpoints-delete-IsLinked name read_faults faults seen s l =
    then_write-Keeps IsLinked (Endpoints.check_idle name (begin seen read_faults)).0
      (Endpoints.delete_row name) faults s
      (λ _.
        written-Keeps of_db_error (DbEndpoints.delete name)
          (λ deleted. refuse_if (not deleted) (endpoint_not_found name)) (delete-Keeps name)
          (λ deleted. refuse_if-Keeps IsLinked (not deleted) (endpoint_not_found name)))
      l

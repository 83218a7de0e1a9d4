-- ===== src/PayloadSpecs.antt =====
-- crates/common/src/db/payload_specs.rs: the statements on the table `payload_specs` that the API uses.
use invokr.Base.{String, Bool, ◌&&◌, Option, ◌∷◌, find?, is_some, if◌then◌else◌}
use invokr.Base.Result.{ok, err}
use invokr.Json.{Json}
use invokr.Store.Conn.{M, query, unique_violation, foreign_key_violation}
use invokr.Named.{holds, set_value, without, updated_row, uses_payload_spec}

unfoldable pub create : String → Json → M (String × Json)
create name v = query (λ s.
    if holds name s.payload_specs
    then err (unique_violation "pk_payload_specs")
    else ok ((name, v), record s { payload_specs = (name, v) ∷ s.payload_specs }))

unfoldable pub update : String → Json → M (Option (String × Json))
update name v = query (λ s. ok (
  updated_row name v s.payload_specs,
  record s { payload_specs = set_value name v s.payload_specs },
))

-- Whether a row has been deleted; the foreign key of `endpoints` may refuse it.
unfoldable pub delete : String → M Bool
delete name = query (λ s.
    if holds name s.payload_specs && is_some (find? (uses_payload_spec name) s.endpoints)
    then err (foreign_key_violation "fk_endpoints_payload_spec")
    else ok (holds name s.payload_specs, record s { payload_specs = without name s.payload_specs }))

unfoldable pub has_dependent_endpoints : String → M Bool
has_dependent_endpoints name =
    query (λ s. ok (is_some (find? (uses_payload_spec name) s.endpoints), s))

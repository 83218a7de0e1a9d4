-- ===== src/Configs.antt =====
-- crates/common/src/db/configs.rs: the statements on the table `configs` that the API uses.
use invokr.Base.{String, Bool, ◌&&◌, Option, ◌∷◌, find?, is_some, if◌then◌else◌}
use invokr.Base.Result.{ok, err}
use invokr.Json.{Json}
use invokr.Store.Conn.{M, query, unique_violation, foreign_key_violation}
use invokr.Named.{holds, set_value, without, updated_row, uses_config}

unfoldable pub create : String → Json → M (String × Json)
create name v = query (λ s.
    if holds name s.configs
    then err (unique_violation "pk_configs")
    else ok ((name, v), record s { configs = (name, v) ∷ s.configs }))

unfoldable pub update : String → Json → M (Option (String × Json))
update name v =
    query
      (λ s. ok (updated_row name v s.configs, record s { configs = set_value name v s.configs }))

-- Whether a row has been deleted; the foreign key of `endpoints` may refuse it.
unfoldable pub delete : String → M Bool
delete name = query (λ s.
    if holds name s.configs && is_some (find? (uses_config name) s.endpoints)
    then err (foreign_key_violation "fk_endpoints_config")
    else ok (holds name s.configs, record s { configs = without name s.configs }))

unfoldable pub has_dependent_endpoints : String → M Bool
has_dependent_endpoints name = query (λ s. ok (is_some (find? (uses_config name) s.endpoints), s))

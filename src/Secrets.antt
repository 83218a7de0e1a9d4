-- ===== src/Secrets.antt =====
-- crates/common/src/db/secrets.rs: the statements on the table `secrets` that the API uses.
use invokr.Base.{String, Bool, Option, List, ◌∷◌, find?, is_some, if◌then◌else◌, ℕ}
use invokr.Base.Result.{ok, err}
use invokr.Json.{Json}
use invokr.Store.{Endpoint}
use invokr.Store.Conn.{M, query, unique_violation}
use invokr.Named.{holds, set_value, without, updated_row}

unfoldable pub create : String → List ℕ → M (String × List ℕ)
create name v = query (λ s.
    if holds name s.secrets
    then err (unique_violation "pk_secrets")
    else ok ((name, v), record s { secrets = (name, v) ∷ s.secrets }))

unfoldable pub update : String → List ℕ → M (Option (String × List ℕ))
update name v =
    query
      (λ s. ok (updated_row name v s.secrets, record s { secrets = set_value name v s.secrets }))

-- Whether a row has been deleted. No foreign key refers to the table.
unfoldable pub delete : String → M Bool
delete name = query (λ s. ok (holds name s.secrets, record s { secrets = without name s.secrets }))

-- `spec::TEXT LIKE '%{{secret.' || $1 || '}}%'`; PostgreSQL's answer for a spec and a name is the
-- parameter `like`.
unfoldable pub has_dependent_endpoints : (Json → String → Bool) → String → M Bool
has_dependent_endpoints like name =
    query (λ s. ok (is_some (find? (λ (e : Endpoint). like e.spec name) s.endpoints), s))

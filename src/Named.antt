-- ===== src/Named.antt =====
-- What the tables of named values share (crates/common/src/db/configs.rs, payload_specs.rs and
-- secrets.rs), and the references of endpoints to them. The times of a row are left out.
pub mod Lookup
use invokr.Base.{
  String, Bool, true, false, not, Option, none, some, List, str_eq, find?, keep, is_some,
  if◌then◌else◌,
}
use invokr.Base.Rows.{update_where}
use invokr.Store.{Endpoint}

module _ {V : Type 0} where
  abbrev pub has_name : String → String × V → Bool
  has_name name row = str_eq row.0 name

  abbrev pub holds : String → List (String × V) → Bool
  holds name t = is_some (find? (has_name name) t)

  -- A foreign key that may be NULL.
  abbrev pub ref_holds : Option String → List (String × V) → Bool
  ref_holds none t = true
  ref_holds (some name) t = holds name t

  abbrev pub set_value : String → V → List (String × V) → List (String × V)
  set_value name v t = update_where (has_name name) (λ row. (row.0, v)) t

  abbrev pub without : String → List (String × V) → List (String × V)
  without name t = keep (λ row. not (has_name name row)) t

  -- `RETURNING` of an update.
  abbrev pub updated_row : String → V → List (String × V) → Option (String × V)
  updated_row name v t = if holds name t then some (name, v) else none

abbrev pub refers : Option String → String → Bool
refers none name = false
refers (some other) name = str_eq other name

abbrev pub uses_config : String → Endpoint → Bool
uses_config name e = refers e.config_ref name

abbrev pub uses_payload_spec : String → Endpoint → Bool
uses_payload_spec name e = refers e.payload_spec_ref name

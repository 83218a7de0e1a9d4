-- ===== src/Tenant.antt =====
-- crates/common/src/tenant.rs: slugs and the names of the schemas that are made of them.
pub mod Names
pub mod Apart
pub mod Registry
use Prim.Native.Char.{Char, code}
use Prim.Native.String.{◌++◌}
use invokr.Base.{ℕ, String, Bool, true, false, not, ◌&&◌, ◌||◌, leb, ltb, ◌==◌, if◌then◌else◌}
use invokr.Base.Text.{all_chars, count_chars}

abbrev pub is_empty : String → Bool
is_empty String.[] = true
is_empty (String.◌∷◌ c s) = false

abbrev pub is_lower : ℕ → Bool
is_lower c = leb 97 c && leb c 122

abbrev pub is_upper : ℕ → Bool
is_upper c = leb 65 c && leb c 90

abbrev pub is_digit : ℕ → Bool
is_digit c = leb 48 c && leb c 57

-- `is_ascii_alphanumeric() || c == '_'`.
abbrev pub is_safe : ℕ → Bool
is_safe c = is_lower c || is_upper c || is_digit c || c == 95

unfoldable pub validate_schema_name : String → Bool
validate_schema_name name = not (is_empty name) && all_chars is_safe name

unfoldable pub validate_table_prefix : String → Bool
validate_table_prefix prefix = is_empty prefix || all_chars is_safe prefix

abbrev pub max_slug_len : ℕ
max_slug_len = 25

abbrev starts_with_dash : String → Bool
starts_with_dash String.[] = false
starts_with_dash (String.◌∷◌ c s) = code c == 45

ends_with_dash : String → Bool
ends_with_dash String.[] = false
ends_with_dash (String.◌∷◌ c String.[]) = code c == 45
ends_with_dash (String.◌∷◌ c (String.◌∷◌ d s)) = ends_with_dash (String.◌∷◌ d s)

abbrev pub is_slug_char : ℕ → Bool
is_slug_char c = is_lower c || is_digit c || c == 45

-- `len()` counts bytes; a text with a character of more than one is refused by the last test.
unfoldable pub validate_slug : String → Bool
unfolding ends_with_dash
validate_slug slug =
    if is_empty slug || ltb max_slug_len (count_chars slug)
    then false
    else if starts_with_dash slug || ends_with_dash slug
    then false
    else all_chars is_slug_char slug

abbrev pub underscore : Char
underscore = "_"

-- `replace('-', "_")`.
unfoldable pub replace_dashes : String → String
replace_dashes String.[] = ""
replace_dashes (String.◌∷◌ c s) =
    String.◌∷◌ (if code c == 45 then underscore else c) (replace_dashes s)

unfoldable pub build_schema_name : String → String → String
build_schema_name org_id workspace_slug =
    replace_dashes org_id ++ ("_" ++ replace_dashes workspace_slug)

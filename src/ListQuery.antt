-- ===== src/ListQuery.antt =====
-- The text of the query that lists jobs: `build_list_query` of crates/common/src/db/jobs.rs.
pub mod Placeholders
pub mod Literals
use Prim.Native.Char.{Char, code}
use Prim.Native.String.{◌++◌}
use invokr.Base.{
  ℕ, ◌+◌, String, Bool, ◌||◌, Option, none, some, List, [], ◌∷◌, ◌++◌ as append, map, ◌==◌,
  if◌then◌else◌,
}
use invokr.Base.Text.{show_nat}
use invokr.Store.Enums.{job_status_text, trigger_type_text, endpoint_type_text}
use invokr.Filters.{JobFilters}

pub data BindValue : Type 0 where
  scalar : String → BindValue
  array : List String → BindValue

-- `\`, `%` and `_`.
abbrev pub is_metacharacter : Char → Bool
is_metacharacter c = code c == 92 || code c == 37 || code c == 95

abbrev pub backslash : Char
backslash = "\\"

unfoldable pub escape_like : String → String
escape_like String.[] = ""
escape_like (String.◌∷◌ c s) =
    if is_metacharacter c
    then String.◌∷◌ backslash (String.◌∷◌ c (escape_like s))
    else String.◌∷◌ c (escape_like s)

-- The variables of `build_list_query`.
pub record Building : Type 0 where
  pub conditions : List String
  pub binds : List BindValue
  pub n : ℕ

abbrev pub push : (ℕ → String) → BindValue → Building → Building
push condition value b = record {
  conditions = append b.conditions (condition b.n ∷ []);
  binds = append b.binds (value ∷ []);
  n = b.n + 1;
}

abbrev pub push_scalar : {A : Type 0} → (ℕ → String) → (A → String) → Option A → Building → Building
push_scalar condition text none b = b
push_scalar condition text (some a) b = push condition (scalar (text a)) b

abbrev pub push_any : {A : Type 0} → String → (A → String) → List A → Building → Building
push_any column text [] b = b
push_any column text (a ∷ t) b =
    push (λ n. column ++ " = ANY($" ++ show_nat n ++ ")") (array (map text (a ∷ t))) b

abbrev pub cursor_condition : String → ℕ → String
cursor_condition t n =
    "(created_at, job_id) < ((SELECT created_at FROM "
    ++ t
    ++ " WHERE job_id = $"
    ++ show_nat n
    ++ "), $"
    ++ show_nat n
    ++ ")"

abbrev pub endpoint_condition : ℕ → String
endpoint_condition n = "endpoint ILIKE '%' || $" ++ show_nat n ++ " || '%' ESCAPE '\\'"

-- `rfc3339` is chrono's text of a time.
unfoldable pub build : (ℕ → String) → String → Option String → JobFilters → Building
build rfc3339 t cursor filters =
    let b0 : Building = record { conditions = []; binds = []; n = 1 } in
    let b1 = push_scalar (cursor_condition t) (λ c. c) cursor b0 in
    let b2 = push_any "status" job_status_text filters.status b1 in
    let b3 = push_any "trigger_type" trigger_type_text filters.trigger b2 in
    let b4 = push_any "endpoint_type" endpoint_type_text filters.endpoint_type b3 in
    let b5 = push_scalar endpoint_condition escape_like filters.endpoint b4 in
    let b6 =
      push_scalar (λ n. "created_at >= $" ++ show_nat n ++ "::timestamptz") rfc3339
        filters.created_after b5 in
    let b7 =
      push_scalar (λ n. "created_at <= $" ++ show_nat n ++ "::timestamptz") rfc3339
        filters.created_before b6 in
    push_scalar (λ n. "job_id = $" ++ show_nat n) (λ id. id) filters.job_id b7

-- `join(" AND ")`.
abbrev pub join_and : List String → String
join_and [] = ""
join_and (c ∷ []) = c
join_and (c ∷ d ∷ t) = c ++ " AND " ++ join_and (d ∷ t)

abbrev pub where_clause : List String → String
where_clause [] = ""
where_clause (c ∷ t) = " WHERE " ++ join_and (c ∷ t)

abbrev pub sql_of : String → Building → String
sql_of t b =
    "SELECT * FROM "
    ++ t
    ++ where_clause b.conditions
    ++ " ORDER BY created_at DESC, job_id DESC LIMIT $"
    ++ show_nat b.n

unfoldable pub build_list_query :
    (ℕ → String) → String → Option String → JobFilters → String × List BindValue
build_list_query rfc3339 t cursor filters =
    let b = build rfc3339 t cursor filters in (sql_of t b, b.binds)

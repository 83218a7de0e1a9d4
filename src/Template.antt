-- ===== src/Template.antt =====
-- crates/common/src/template.rs: `{{namespace.key}}` variables in an endpoint's spec.
pub mod Laws
use Prim.Native.String.{◌++◌}
use invokr.Base.{ℕ, zero, suc, ◌+◌, String, Option, none, some, List, if◌then◌else◌}
use invokr.Base.Map.{lookup}
use invokr.Base.Result.{Result, ok, err, ◌>>=◌, or_fail, map_ok}
use invokr.Base.Text.{strip_prefix, split_once, strip_suffix, contains, trim, count_chars}
use invokr.Json.{
  Json, null, bool, int, float, str, arr, obj, Items, nil, cons, Fields, end, field, insert_field,
  to_string,
}

-- The four maps that `resolve` is given.
pub record Scope : Type 0 where
  pub input : List (String × Json)
  pub config : List (String × Json)
  pub secrets : List (String × String)
  pub execution : List (String × Json)

abbrev unresolved : String → String
unresolved var = "Unresolved template variable: " ++ var

unfoldable pub resolve_variable : String → Scope → Result String Json
resolve_variable var s = elim (strip_prefix "input." var) [
  | some key ↦ or_fail (lookup key s.input) (unresolved var)
  | none ↦ elim (strip_prefix "config." var) [
    | some key ↦ or_fail (lookup key s.config) (unresolved var)
    | none ↦ elim (strip_prefix "secret." var) [
      | some key ↦ map_ok str (or_fail (lookup key s.secrets) (unresolved var))
      | none ↦ elim (strip_prefix "execution." var) [
        | some key ↦ or_fail (lookup key s.execution) (unresolved var)
        | none ↦ err ("Unknown template namespace in: " ++ var)
      ]
    ]
  ]
]

unfoldable pub is_single_template : String → Option String
is_single_template s = elim (strip_prefix "{{" (trim s)) [
  | none ↦ none
  | some rest ↦ elim (strip_suffix "}}" rest) [
    | none ↦ none
    | some body ↦ if contains "{{" (trim body) then none else some (trim body)
  ]
]

abbrev pub replacement : Json → String
replacement (str s) = s
replacement v = to_string v

-- What stands at a position: text, an opening with no close (the loop ends), or a variable with
-- the number of characters of `{{…}}`.
pub data Spot : Type 0 where
  plain : Spot
  unclosed : Spot
  variable : String → ℕ → Spot

unfoldable pub spot : String → Spot
spot s = elim (strip_prefix "{{" s) [
  | none ↦ plain
  | some rest ↦ elim (split_once "}}" rest) [
    | none ↦ unclosed
    | some (body, _) ↦ variable (trim body) (count_chars body + 4)
  ]
]

-- The `while` loop of `resolve_string`, as one walk over the text: `n` characters of a replaced
-- `{{…}}` are still to be passed, and a replacement is not looked at again (`start` moves past it).
unfoldable pub interpolate : Scope → ℕ → String → Result String String
interpolate m n String.[] = ok ""
interpolate m (suc n) (String.◌∷◌ c s) = interpolate m n s
interpolate m zero (String.◌∷◌ c s) = elim (spot (String.◌∷◌ c s)) [
  | plain ↦ map_ok (λ t. String.◌∷◌ c t) (interpolate m zero s)
  | unclosed ↦ ok (String.◌∷◌ c s)
  | variable var (suc n) ↦ do
    v ← resolve_variable var m
    map_ok (λ t. replacement v ++ t) (interpolate m n s)
  | variable var zero ↦ ok (String.◌∷◌ c s)
]

unfoldable pub resolve_string : String → Scope → Result String Json
resolve_string s m = elim (is_single_template s) [
  | some var ↦ resolve_variable var m
  | none ↦ map_ok str (interpolate m zero s)
]

-- `resolve`; the loops over the entries of an array and of an object, with the object built so far.
unfoldable mutual
  pub resolve : Json → Scope → Result String Json
  resolve (str s) m = resolve_string s m
  resolve (obj fs) m = map_ok obj (resolve_fields fs end m)
  resolve (arr xs) m = map_ok arr (resolve_items xs m)
  resolve null m = ok null
  resolve (bool b) m = ok (bool b)
  resolve (int n) m = ok (int n)
  resolve (float s) m = ok (float s)

  pub resolve_items : Items → Scope → Result String Items
  resolve_items nil m = ok nil
  resolve_items (cons x xs) m = resolve x m >>= λ v. map_ok (cons v) (resolve_items xs m)

  pub resolve_fields : Fields → Fields → Scope → Result String Fields
  resolve_fields end done m = ok done
  resolve_fields (field k v fs) done m = resolve_string k m >>= λ key.
      resolve v m >>= λ w. resolve_fields fs (insert_field (replacement key) w done) m

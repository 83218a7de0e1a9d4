-- ===== src/Json.antt =====
-- JSON values as serde_json keeps them, and their text (`Value::to_string`).
-- An object is a map sorted by key, so `insert` keeps the keys in order and replaces an old value.
-- A number that is no integer is carried as its text.
use Prim.Native.Char.{code}
use Prim.Native.String.{◌++◌, compare}
use Prim.Native.Nat.{Ordering}
use invokr.Base.{
  ℕ, suc, ◌/◌, ◌%◌, String, Bool, true, false, Option, none, some, ◌==◌, ltb, str_eq, ◌≡◌, refl,
  if◌then◌else◌,
}
use invokr.Base.Int.{ℤ, pos, negsuc}
use invokr.Base.Text.{show_nat}

mutual
  pub data Json : Type 0 where
    null : Json
    bool : Bool → Json
    int : ℤ → Json
    float : String → Json
    str : String → Json
    arr : Items → Json
    obj : Fields → Json

  pub data Items : Type 0 where
    nil : Items
    cons : Json → Items → Items

  pub data Fields : Type 0 where
    end : Fields
    field : String → Json → Fields → Fields

-- `Map::insert` of an ordered map.
unfoldable pub insert_field : String → Json → Fields → Fields
insert_field k v end = field k v end
insert_field k v (field j w fs) = elim (compare k j) [
  | Ordering.lt ↦ field k v (field j w fs)
  | Ordering.eq ↦ field k v fs
  | Ordering.gt ↦ field j w (insert_field k v fs)
]

unfoldable pub get_field : String → Fields → Option Json
get_field k end = none
get_field k (field j w fs) = if str_eq j k then some w else get_field k fs

abbrev pub as_object : Json → Option Fields
as_object (obj fs) = some fs
as_object _ = none

abbrev pub as_str : Json → Option String
as_str (str s) = some s
as_str _ = none

abbrev pub as_bool : Json → Option Bool
as_bool (bool b) = some b
as_bool _ = none

abbrev pub as_array : Json → Option Items
as_array (arr xs) = some xs
as_array _ = none

-- An integer of a JSON number fits 64 bits, so no bound is tested here.
abbrev pub as_u64 : Json → Option ℕ
as_u64 (int (pos n)) = some n
as_u64 _ = none

-- `value.get(key)`, which is `None` for a value that is no object.
abbrev pub get : String → Json → Option Json
get k (obj fs) = get_field k fs
get k _ = none

abbrev pub show_int : ℤ → String
show_int (pos n) = show_nat n
show_int (negsuc n) = "-" ++ show_nat (suc n)

abbrev hex : ℕ → String
hex n =
    if ltb n 10
    then show_nat n
    else if n == 10
    then "a"
    else if n == 11
    then "b"
    else if n == 12
    then "c"
    else if n == 13
    then "d"
    else if n == 14
    then "e"
    else "f"

-- The escapes of serde_json: the short ones, and \u00xx for the other control characters.
escape_char : ℕ → String → String
escape_char c raw =
    if c == 0x22
    then "\\\""
    else if c == 0x5c
    then "\\\\"
    else if c == 8
    then "\\b"
    else if c == 12
    then "\\f"
    else if c == 10
    then "\\n"
    else if c == 13
    then "\\r"
    else if c == 9
    then "\\t"
    else if ltb c 0x20
    then "\\u00" ++ hex (c / 16) ++ hex (c % 16)
    else raw

escape : String → String
unfolding escape_char
escape String.[] = ""
escape (String.◌∷◌ c s) = escape_char (code c) (String.◌∷◌ c "") ++ escape s

show_string : String → String
unfolding escape
show_string s = "\"" ++ escape s ++ "\""

show_bool : Bool → String
show_bool true = "true"
show_bool false = "false"

-- The separator stands before every entry but the first.
separator : Bool → String
separator true = ""
separator false = ","

unfoldable mutual
  unfolding show_string show_bool separator

  pub to_string : Json → String
  to_string null = "null"
  to_string (bool b) = show_bool b
  to_string (int n) = show_int n
  to_string (float s) = s
  to_string (str s) = show_string s
  to_string (arr xs) = "[" ++ show_items true xs ++ "]"
  to_string (obj fs) = "{" ++ show_fields true fs ++ "}"

  pub show_items : Bool → Items → String
  show_items first nil = ""
  show_items first (cons x xs) = separator first ++ to_string x ++ show_items false xs

  pub show_fields : Bool → Fields → String
  show_fields first end = ""
  show_fields first (field k v fs) =
      separator first ++ show_string k ++ ":" ++ to_string v ++ show_fields false fs

show_test :
    to_string
      (obj (field "a" (arr (cons (int (negsuc 1)) (cons null nil))) (field "b" (str "x\"y") end)))
    ≡ "{\"a\":[-2,null],\"b\":\"x\\\"y\"}"
unfolding to_string show_nat
show_test = refl

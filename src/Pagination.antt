-- ===== src/Pagination.antt =====
-- crates/common/src/pagination.rs, and the pages of the list requests on configs, secrets, payload
-- specs and endpoints (crates/common/src/db and crates/api/src/handlers), which have one shape.
pub mod Order
pub mod Pages
use invokr.Base.{
  ℕ, ◌+◌, String, Bool, Option, none, some, List, [], ◌∷◌, take, length, ltb, keep, and_then,
  if◌then◌else◌,
}
use mathlib.Core.Option as Option
use invokr.Base.Int.{ℤ, pos, pos_part, ltb_ℤ}

abbrev pub default_limit : ℤ
default_limit = pos 50

-- `clamp(1, 200)`.
unfoldable pub effective_limit : ℤ → ℕ
effective_limit limit =
    if ltb_ℤ limit (pos 1) then 1 else if ltb_ℤ (pos 200) limit then 200 else pos_part limit

-- Base64 for URLs with no padding: the crate `base64`, and `String::from_utf8`.
pub record Base64 : Type 0 where
  pub encode : String → String
  pub decode : String → Option String

abbrev pub decode_cursor : Base64 → Option String → Option String
decode_cursor base64 cursor = and_then cursor base64.decode

abbrev pub encode_cursor : Base64 → String → String
encode_cursor base64 value = base64.encode value

-- `before` is the order of texts that PostgreSQL has for `ORDER BY name` and `name > $1`.
module _ {A : Type 0} (name : A → String) (before : String → String → Bool) where
  abbrev pub insert : A → List A → List A
  insert a [] = a ∷ []
  insert a (b ∷ t) =
      let rest = insert a t in if before (name a) (name b) then a ∷ b ∷ t else b ∷ rest

  -- `ORDER BY name ASC`.
  unfoldable pub ordered : List A → List A
  ordered [] = []
  ordered (a ∷ t) = insert a (ordered t)

  -- `WHERE name > $1`.
  abbrev pub after : String → List A → List A
  after c t = keep (λ a. before c (name a)) t

  -- The statement `list`.
  unfoldable pub list : Option String → ℕ → List A → List A
  list none limit t = take limit (ordered t)
  list (some c) limit t = take limit (after c (ordered t))

  abbrev pub last_name : List A → Option String
  last_name [] = none
  last_name (a ∷ []) = some (name a)
  last_name (a ∷ b ∷ t) = last_name (b ∷ t)

  abbrev pub respond : Base64 → ℕ → List A → List A × Option String
  respond base64 limit items =
      let shown = take limit items in
      (
        shown,
        if ltb limit (length items)
            then Option.map (encode_cursor base64) (last_name shown)
            else none,
      )

  -- The handler `list`: a page and the cursor of the next. It asks for one row more than the page.
  unfoldable pub list_page : Base64 → Option String → ℤ → List A → List A × Option String
  list_page base64 cursor limit t =
      let n = effective_limit limit in
      respond base64 n (list (decode_cursor base64 cursor) (n + 1) t)

-- ===== src/Tenant/Names.antt =====
-- That the schema name of a valid slug is safe to stand in SQL text.
use Prim.Native.Char.{code}
use Prim.Native.String.{◌++◌}
use Prim.Native.String.append
use invokr.Base.{
  ℕ, ◌+◌, ◌≤◌, ◌<◌, ◌≡◌, refl, String, Bool, true, ◌||◌, arith, ◌==◌, Bool-cases, inl, inr,
}
use invokr.Base.Text.{all_chars, count_chars, count_chars-append}
use invokr.Tenant.{
  is_safe, is_slug_char, validate_schema_name, validate_slug, replace_dashes, build_schema_name,
  max_slug_len,
}

all_chars-append :
    (p : ℕ → Bool) (s t : String)
    → all_chars p s ≡ true
    → all_chars p t ≡ true
    → all_chars p (s ++ t) ≡ true
unfolding all_chars
all_chars-append p String.[] t h k = rw (append.nil t) k
all_chars-append p (String.◌∷◌ c s) t h k =
    rw (append.cons c s t) (ground (arith, all_chars-append p s t (ground arith) k))

-- The characters that `replace_dashes` makes safe: those, and the dash.
abbrev pub is_name_char : ℕ → Bool
is_name_char c = is_safe c || c == 45

replace_dashes-safe :
    (s : String) → all_chars is_name_char s ≡ true → all_chars is_safe (replace_dashes s) ≡ true
unfolding all_chars replace_dashes
replace_dashes-safe String.[] h = refl
replace_dashes-safe (String.◌∷◌ c s) h = elim (Bool-cases (code c == 45)) [
  | inl dash ↦ rw dash (replace_dashes-safe s (ground arith))
  | inr other ↦ rw other (ground (arith, replace_dashes-safe s))
]

pub count_chars-replace_dashes : (s : String) → count_chars (replace_dashes s) ≡ count_chars s
unfolding count_chars replace_dashes
count_chars-replace_dashes String.[] = refl
count_chars-replace_dashes (String.◌∷◌ c s) = omega (arith, count_chars-replace_dashes s)

slug_chars : (s : String) → all_chars is_slug_char s ≡ true → all_chars is_name_char s ≡ true
unfolding all_chars
slug_chars String.[] h = refl
slug_chars (String.◌∷◌ c s) h = ground (arith, slug_chars s)

valid_slug :
    (slug : String)
    → validate_slug slug ≡ true
    → (all_chars is_slug_char slug ≡ true) × (count_chars slug ≤ max_slug_len)
unfolding validate_slug
valid_slug slug h = ground arith

safe_schema_name :
    (name : String)
    → 0 < count_chars name
    → all_chars is_safe name ≡ true
    → validate_schema_name name ≡ true
unfolding validate_schema_name count_chars
safe_schema_name String.[] h safe = absurd (let q : 0 < 0 = h in omega (arith, q))
safe_schema_name (String.◌∷◌ c s) h safe = rw safe refl

middle-safe : all_chars is_safe "_" ≡ true
unfolding all_chars
middle-safe = refl

count_chars-middle : count_chars "_" ≡ 1
unfolding count_chars
count_chars-middle = refl

schema_name_length :
    (org_id slug : String)
    → count_chars (replace_dashes org_id ++ ("_" ++ replace_dashes slug))
      ≡ count_chars org_id + (1 + count_chars slug)
schema_name_length org_id slug = omega (
  arith,
  count_chars-append (replace_dashes org_id) ("_" ++ replace_dashes slug),
  count_chars-append "_" (replace_dashes slug),
  count_chars-middle,
  count_chars-replace_dashes org_id,
  count_chars-replace_dashes slug,
)

-- The schema name of an organization id of letters, digits, dashes and underscores, at most 36 of
-- them as in a UUID, and a valid slug, is a valid schema name, so nothing in it has to be quoted,
-- and it has at most 62 characters, which PostgreSQL does not cut.
pub build_schema_name_valid :
    (org_id slug : String)
    → all_chars is_name_char org_id ≡ true
    → count_chars org_id ≤ 36
    → validate_slug slug ≡ true
    → (validate_schema_name (build_schema_name org_id slug) ≡ true)
      × (count_chars (build_schema_name org_id slug) ≤ 62)
unfolding build_schema_name
build_schema_name_valid org_id slug chars short valid =
    let (slug_ok, slug_short) = valid_slug slug valid in
    let size = schema_name_length org_id slug in
    (
      safe_schema_name _ (omega (arith, size)) (
          all_chars-append is_safe (replace_dashes org_id) ("_" ++ replace_dashes slug)
            (replace_dashes-safe org_id chars)
            (all_chars-append is_safe "_" (replace_dashes slug) middle-safe
              (replace_dashes-safe slug (slug_chars slug slug_ok)))),
      omega (arith, size),
    )

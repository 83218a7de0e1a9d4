-- ===== src/Tenant/Apart.antt =====
-- That workspaces have schemas of their own: `build_schema_name` of crates/common/src/tenant.rs.
use Prim.Native.Char.{Char, code}
use Prim.Native.String.{◌++◌}
use Prim.Native.String.append
use text.Mathlib.TextEquality.{Char-path}
use invokr.Base.{
  suc, ◌≡◌, refl, sym, ap, ◌∙◌, inl, inr, String, true, arith, ◌==◌, Bool-cases, if◌then◌else◌,
}
use invokr.Base.Text.{all_chars, count_chars}
use invokr.Tenant.Names.{count_chars-replace_dashes}
use invokr.Tenant.{is_slug_char, replace_dashes, build_schema_name, underscore}

-- The first character and the rest of a text.
first : Char → String → Char
unfolding replace_dashes
first c String.[] = c
first c (String.◌∷◌ d s) = d

rest : String → String
rest String.[] = ""
rest (String.◌∷◌ d s) = s

cons_injective : (c d : Char) (s t : String) → String.◌∷◌ c s ≡ String.◌∷◌ d t → (c ≡ d) × (s ≡ t)
unfolding first rest
cons_injective c d s t h = (ap (first c) h, ap rest h)

-- Texts of one length in front of others.
append_injective :
    (s t u v : String) → count_chars s ≡ count_chars t → s ++ u ≡ t ++ v → (s ≡ t) × (u ≡ v)
unfolding count_chars
append_injective String.[] String.[] u v size h = (refl, sym (append.nil u) ∙ h ∙ append.nil v)
append_injective String.[] (String.◌∷◌ d t) u v size h = absurd (omega (arith, size))
append_injective (String.◌∷◌ c s) String.[] u v size h = absurd (omega (arith, size))
append_injective (String.◌∷◌ c s) (String.◌∷◌ d t) u v size h =
    let parts =
      cons_injective c d (s ++ u) (t ++ v) (sym (append.cons c s u) ∙ h ∙ append.cons d t v) in
    let later = append_injective s t u v (omega (arith, size)) parts.1 in
    ((λ i. String.◌∷◌ (parts.0 i) (later.0 i)), later.1)

abbrev undashed : Char → Char
undashed c = if code c == 45 then underscore else c

-- No underscore is among the characters, which the dash becomes.
undashed_injective :
    (c d : Char)
    → is_slug_char (code c) ≡ true
    → is_slug_char (code d) ≡ true
    → undashed c ≡ undashed d
    → c ≡ d
undashed_injective c d hc hd same = elim (Bool-cases (code c == 45)) [
  | inl dash ↦ elim (Bool-cases (code d == 45)) [
    | inl dash' ↦ Char-path c d (ground arith)
    | inr other ↦
        let e : underscore ≡ d = rw (dash, other) at same in
        let n : 95 ≡ code d = ap code e in absurd (ground arith)
  ]
  | inr other ↦ elim (Bool-cases (code d == 45)) [
    | inl dash ↦
        let e : c ≡ underscore = rw (other, dash) at same in
        let n : code c ≡ 95 = ap code e in absurd (ground arith)
    | inr other' ↦ rw (other, other') at same
  ]
]

replace_dashes_injective :
    (s t : String)
    → all_chars is_slug_char s ≡ true
    → all_chars is_slug_char t ≡ true
    → replace_dashes s ≡ replace_dashes t
    → s ≡ t
unfolding all_chars replace_dashes count_chars
replace_dashes_injective String.[] String.[] hs ht same = refl
replace_dashes_injective String.[] (String.◌∷◌ d t) hs ht same =
    absurd
      (let n : 0 ≡ suc (count_chars (replace_dashes t)) = ap count_chars same in omega (arith, n))
replace_dashes_injective (String.◌∷◌ c s) String.[] hs ht same =
    absurd
      (let n : suc (count_chars (replace_dashes s)) ≡ 0 = ap count_chars same in omega (arith, n))
replace_dashes_injective (String.◌∷◌ c s) (String.◌∷◌ d t) hs ht same =
    let parts =
      cons_injective (undashed c) (undashed d) (replace_dashes s) (replace_dashes t) same in
    let one : c ≡ d = undashed_injective c d (ground arith) (ground arith) parts.0 in
    let more : s ≡ t = replace_dashes_injective s t (ground arith) (ground arith) parts.1 in
    λ i. String.◌∷◌ (one i) (more i)

-- Workspaces with one schema name have one organization and one slug, where ids and slugs are of
-- lowercase letters, digits and dashes and the ids are of one length, as UUIDs are.
pub build_schema_name_injective :
    (org org' slug slug' : String)
    → count_chars org ≡ count_chars org'
    → all_chars is_slug_char org ≡ true
    → all_chars is_slug_char org' ≡ true
    → all_chars is_slug_char slug ≡ true
    → all_chars is_slug_char slug' ≡ true
    → build_schema_name org slug ≡ build_schema_name org' slug'
    → (org ≡ org') × (slug ≡ slug')
unfolding build_schema_name
build_schema_name_injective org org' slug slug' size ho ho' hs hs' same =
    let parts =
      append_injective (replace_dashes org) (replace_dashes org') ("_" ++ replace_dashes slug)
        ("_" ++ replace_dashes slug')
        (count_chars-replace_dashes org ∙ size ∙ sym (count_chars-replace_dashes org')) same in
    let ends = append_injective "_" "_" (replace_dashes slug) (replace_dashes slug') refl parts.1 in
    (
      replace_dashes_injective org org' ho ho' parts.0,
      replace_dashes_injective slug slug' hs hs' ends.1,
    )

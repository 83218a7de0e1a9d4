-- ===== src/ListQuery/Literals.antt =====
-- That a filter on the endpoint is taken literally (crates/common/src/db/jobs.rs).
use Prim.Native.Char.{Char, code}
use invokr.Base.{
  ◌≡◌, refl, ap, ◌∙◌, inl, inr, String, false, ◌||◌, Option, none, some, Bool-cases, arith, ◌==◌,
  if◌then◌else◌,
}
use mathlib.Core.Option as Option
use invokr.ListQuery.{is_metacharacter, escape_like}

-- The text that a LIKE pattern with the escape character `\` stands for, if it has no wildcard and
-- does not end in the escape character.
unfoldable pub literal_of : String → Option String
literal_of String.[] = some ""
literal_of (String.◌∷◌ c String.[]) = if is_metacharacter c then none else some (String.◌∷◌ c "")
literal_of (String.◌∷◌ c (String.◌∷◌ d s)) =
    let whole = literal_of (String.◌∷◌ d s) in
    let after = literal_of s in
    if code c == 92
    then Option.map (String.◌∷◌ d) after
    else if code c == 37 || code c == 95
    then none
    else Option.map (String.◌∷◌ c) whole

-- A plain character in front.
literal_of-plain :
    (c : Char) (s : String)
    → is_metacharacter c ≡ false
    → literal_of (String.◌∷◌ c s) ≡ Option.map (String.◌∷◌ c) (literal_of s)
unfolding literal_of
literal_of-plain c String.[] plain = rw plain refl
literal_of-plain c (String.◌∷◌ d s) plain = ground arith

-- A filter on the endpoint, as it stands between the two wildcards of the pattern, is a pattern
-- without wildcards that stands for itself.
pub literal_of-escape_like : (s : String) → literal_of (escape_like s) ≡ some s
unfolding literal_of escape_like
literal_of-escape_like String.[] = refl
literal_of-escape_like (String.◌∷◌ c s) = elim (Bool-cases (is_metacharacter c)) [
  | inl meta ↦ rw meta (ap (Option.map (String.◌∷◌ c)) (literal_of-escape_like s))
  | inr plain ↦ rw plain (
      literal_of-plain c (escape_like s) plain
      ∙ ap (Option.map (String.◌∷◌ c)) (literal_of-escape_like s))
]

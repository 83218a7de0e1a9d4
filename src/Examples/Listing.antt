-- ===== src/Examples/Listing.antt =====
-- Pages of a listed table, tried with the order of texts by their code points.
use Prim.Native.Char.{code}
use text.Mathlib.TextEquality.{Char-path}
use invokr.Base.{
  ◌≡◌, refl, ap, ◌∙◌, inl, inr, ◌≤◌, ℕ, String, Bool, true, false, none, some, List, [], ◌∷◌, arith,
  ltb, ◌==◌, str_eq, eq_iff, Bool-cases, sym, eqb→eq, if◌then◌else◌,
}
use invokr.Base.Int.{pos}
use invokr.Pagination.{Base64, ordered, effective_limit}
use invokr.Pagination.Order.{IsOrder}
use invokr.Pagination.Pages.{pages_from, pages_cover, effective_limit_bounds}

unfoldable by_code : String → String → Bool
by_code String.[] String.[] = false
by_code String.[] (String.◌∷◌ d t) = true
by_code (String.◌∷◌ c s) String.[] = false
by_code (String.◌∷◌ c s) (String.◌∷◌ d t) =
    let rest = by_code s t in
    if ltb (code c) (code d) then true else if code c == code d then rest else false

by_code_irreflexive : (s : String) → by_code s s ≡ false
unfolding by_code
by_code_irreflexive String.[] = refl
by_code_irreflexive (String.◌∷◌ c s) = ground (arith, by_code_irreflexive s)

by_code_transitive : (s t u : String) → by_code s t ≡ true → by_code t u ≡ true → by_code s u ≡ true
unfolding by_code
by_code_transitive String.[] String.[] u h g = absurd cc
by_code_transitive String.[] (String.◌∷◌ d t) String.[] h g = absurd cc
by_code_transitive String.[] (String.◌∷◌ d t) (String.◌∷◌ e u) h g = refl
by_code_transitive (String.◌∷◌ c s) String.[] u h g = absurd cc
by_code_transitive (String.◌∷◌ c s) (String.◌∷◌ d t) String.[] h g = absurd cc
by_code_transitive (String.◌∷◌ c s) (String.◌∷◌ d t) (String.◌∷◌ e u) h g =
    ground (arith, by_code_transitive s t u)

by_code_total : (s t : String) → str_eq t s ≡ false → by_code s t ≡ false → by_code t s ≡ true
unfolding by_code
by_code_total String.[] String.[] apart h = absurd (let q : true ≡ false = apart in cc)
by_code_total String.[] (String.◌∷◌ d t) apart h = absurd cc
by_code_total (String.◌∷◌ c s) String.[] apart h = refl
by_code_total (String.◌∷◌ c s) (String.◌∷◌ d t) apart h = elim (Bool-cases (code c == code d)) [
  | inl same ↦
      let chars : d ≡ c = sym (Char-path c d (eqb→eq (code c) (code d) same)) in
      elim (Bool-cases (str_eq t s)) [
        | inl alike ↦
            let e : String.◌∷◌ d t ≡ String.◌∷◌ c s =
              ap (λ k. String.◌∷◌ k t) chars ∙ ap (String.◌∷◌ c) ((eq_iff t s).0 alike) in
            absurd (
              let q : true ≡ false = sym ((eq_iff (String.◌∷◌ d t) (String.◌∷◌ c s)).1 e) ∙ apart in
              cc)
        | inr other ↦ ground (arith, by_code_total s t other)
      ]
  | inr differ ↦ ground arith
]

by_code-IsOrder : IsOrder by_code
by_code-IsOrder = record {
  irreflexive = by_code_irreflexive;
  transitive = by_code_transitive;
  total = by_code_total;
}

abbrev plain : Base64
plain = record { encode = λ s. s; decode = some }

abbrev rows : List (String × ℕ)
rows = ("b", 2) ∷ ("c", 3) ∷ ("a", 1) ∷ []

rows_test : ordered (λ (r : String × ℕ). r.0) by_code rows ≡ ("a", 1) ∷ ("b", 2) ∷ ("c", 3) ∷ []
unfolding ordered by_code
rows_test = refl

pages_cover_example :
    pages_from (λ (r : String × ℕ). r.0) by_code plain (pos 2) rows 3 none
    ≡ some (ordered (λ (r : String × ℕ). r.0) by_code rows)
unfolding ordered by_code
pages_cover_example =
    pages_cover (λ (r : String × ℕ). r.0) by_code by_code-IsOrder plain (λ s. refl) (pos 2) rows 2
      ((refl, (refl, tt)), ((refl, tt), (tt, tt))) (omega arith)

effective_limit_bounds_example :
    (1 ≤ effective_limit (pos 1000)) × (effective_limit (pos 1000) ≤ 200)
effective_limit_bounds_example = effective_limit_bounds (pos 1000)

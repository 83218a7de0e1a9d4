-- ===== src/ListQuery/Placeholders.antt =====
-- That each placeholder of the query that lists jobs stands for its own value
-- (crates/common/src/db/jobs.rs).
use Prim.Native.String.{◌++◌}
use invokr.Base.{
  ℕ, ◌+◌, ◌≡◌, refl, sym, ap, ◌∙◌, String, Option, none, some, List, [], ◌∷◌, ◌++◌ as append, map,
  length, length-append, arith,
}
use invokr.Base.Text.{show_nat}
use invokr.Store.Enums.{job_status_text, trigger_type_text, endpoint_type_text}
use invokr.Filters.{JobFilters}
use invokr.ListQuery.{
  BindValue, scalar, array, Building, push, push_scalar, push_any, cursor_condition,
  endpoint_condition, escape_like, build,
}

-- A condition by the number of its placeholder, and the value.
abbrev pub Part : Type 0
Part = (ℕ → String) × BindValue

-- Conditions with placeholders numbered in order.
abbrev pub numbered : ℕ → List Part → List String
numbered n [] = []
numbered n (p ∷ ps) = p.0 n ∷ numbered (n + 1) ps

abbrev pub scalar_part : {A : Type 0} → (ℕ → String) → (A → String) → Option A → List Part
scalar_part condition text none = []
scalar_part condition text (some a) = (condition, scalar (text a)) ∷ []

abbrev pub any_part : {A : Type 0} → String → (A → String) → List A → List Part
any_part column text [] = []
any_part column text (a ∷ t) =
    ((λ n. column ++ " = ANY($" ++ show_nat n ++ ")"), array (map text (a ∷ t))) ∷ []

-- The parts that the filters ask for.
abbrev pub parts : (ℕ → String) → String → Option String → JobFilters → List Part
parts rfc3339 t cursor filters =
    let q1 = scalar_part (cursor_condition t) (λ c. c) cursor in
    let q2 = append q1 (any_part "status" job_status_text filters.status) in
    let q3 = append q2 (any_part "trigger_type" trigger_type_text filters.trigger) in
    let q4 = append q3 (any_part "endpoint_type" endpoint_type_text filters.endpoint_type) in
    let q5 = append q4 (scalar_part endpoint_condition escape_like filters.endpoint) in
    let q6 = append q5 (
      scalar_part (λ n. "created_at >= $" ++ show_nat n ++ "::timestamptz") rfc3339
        filters.created_after) in
    let q7 = append q6 (
      scalar_part (λ n. "created_at <= $" ++ show_nat n ++ "::timestamptz") rfc3339
        filters.created_before) in
    append q7 (scalar_part (λ n. "job_id = $" ++ show_nat n) (λ id. id) filters.job_id)

-- A building made of parts.
abbrev pub made_of : List Part → Building
made_of ps = record {
  conditions = numbered 1 ps;
  binds = map (λ (p : Part). p.1) ps;
  n = length ps + 1;
}

numbered-append :
    (n : ℕ) (ps : List Part) (p : Part)
    → numbered n (append ps (p ∷ [])) ≡ append (numbered n ps) (p.0 (n + length ps) ∷ [])
numbered-append n [] p = ap (λ k. p.0 k ∷ []) (omega arith)
numbered-append n (q ∷ ps) p = ap (◌∷◌ (q.0 n)) (
    numbered-append (n + 1) ps p
    ∙ ap (λ k. append (numbered (n + 1) ps) (p.0 k ∷ [])) (omega arith))

map-append :
    (ps : List Part) (p : Part)
    → map (λ (q : Part). q.1) (append ps (p ∷ [])) ≡ append (map (λ (q : Part). q.1) ps) (p.1 ∷ [])
map-append [] p = refl
map-append (q ∷ ps) p = ap (◌∷◌ q.1) (map-append ps p)

append-nil : {A : Type 0} (t : List A) → append t [] ≡ t
append-nil [] = refl
append-nil (a ∷ t) = ap (◌∷◌ a) (append-nil t)

push-made_of :
    (condition : ℕ → String) (value : BindValue) (ps : List Part)
    → push condition value (made_of ps) ≡ made_of (append ps ((condition, value) ∷ []))
push-made_of condition value ps =
    let place : 1 + length ps ≡ length ps + 1 = omega arith in
    let size : length (append ps ((condition, value) ∷ [])) + 1 ≡ length ps + 1 + 1 =
      omega (arith, length-append ps ((condition, value) ∷ [])) in
    rw (numbered-append 1 ps (condition, value), map-append ps (condition, value), size, place) refl

push_scalar-made_of :
    {A : Type 0} (condition : ℕ → String) (text : A → String) (o : Option A) (ps : List Part)
    → push_scalar condition text o (made_of ps) ≡ made_of (append ps (scalar_part condition text o))
push_scalar-made_of condition text none ps = ap made_of (sym (append-nil ps))
push_scalar-made_of condition text (some a) ps = push-made_of condition (scalar (text a)) ps

push_any-made_of :
    {A : Type 0} (column : String) (text : A → String) (t : List A) (ps : List Part)
    → push_any column text t (made_of ps) ≡ made_of (append ps (any_part column text t))
push_any-made_of column text [] ps = ap made_of (sym (append-nil ps))
push_any-made_of column text (a ∷ t) ps = push-made_of _ _ ps

-- The query has one condition for each filter that is given, the k-th with the placeholder k, which is
-- bound to the k-th value, and the limit has the placeholder after them.
pub build-made_of :
    (rfc3339 : ℕ → String) (t : String) (cursor : Option String) (filters : JobFilters)
    → build rfc3339 t cursor filters ≡ made_of (parts rfc3339 t cursor filters)
unfolding build
build-made_of rfc3339 t cursor filters =
    rw
      (
        push_scalar-made_of (cursor_condition t) (λ c. c) cursor [],
        push_any-made_of "status" job_status_text filters.status _,
        push_any-made_of "trigger_type" trigger_type_text filters.trigger _,
        push_any-made_of "endpoint_type" endpoint_type_text filters.endpoint_type _,
        push_scalar-made_of endpoint_condition escape_like filters.endpoint _,
        push_scalar-made_of (λ n. "created_at >= $" ++ show_nat n ++ "::timestamptz") rfc3339
            filters.created_after _,
        push_scalar-made_of (λ n. "created_at <= $" ++ show_nat n ++ "::timestamptz") rfc3339
            filters.created_before _,
        push_scalar-made_of (λ n. "job_id = $" ++ show_nat n) (λ id. id) filters.job_id _,
      )
      refl

-- ===== src/Named/Lookup.antt =====
-- What `lookup` finds in a table of named values.
use invokr.Base.{
  ◌≡◌, sym, ap, ◌∙◌, refl, inl, inr, ℕ, String, Bool, true, false, Option, none, some, List, [],
  ◌∷◌, str_eq, Bool-cases, if◌then◌else◌,
}
use invokr.Base.Map.{lookup}
use invokr.Named.{set_value, holds}

-- A step of `lookup`.
pub lookup-step :
    (name : String) (row : String × List ℕ) (t : List (String × List ℕ)) (b : Bool)
    → str_eq row.0 name ≡ b
    → lookup name (row ∷ t) ≡ (if b then some row.1 else lookup name t)
unfolding lookup
lookup-step name row t true h = ap (λ b. elim b [ true ↦ some row.1 | false ↦ lookup name t ]) h
lookup-step name row t false h = ap (λ b. elim b [ true ↦ some row.1 | false ↦ lookup name t ]) h

pub lookup-set_value :
    (name : String) (v old : List ℕ) (t : List (String × List ℕ))
    → lookup name t ≡ some old
    → lookup name (set_value name v t) ≡ some v
unfolding lookup
lookup-set_value name v old [] h = absurd cc
lookup-set_value name v old (row ∷ t) h = elim (Bool-cases (str_eq row.0 name)) [
  | inl hit ↦ rw hit (lookup-step name (row.0, v) (set_value name v t) true hit)
  | inr miss ↦ rw miss (
      lookup-step name row (set_value name v t) false miss
      ∙ lookup-set_value name v old t (sym (lookup-step name row t false miss) ∙ h))
]

pub lookup-holds :
    (name : String) (t : List (String × List ℕ)) → lookup name t ≡ none → holds name t ≡ false
unfolding lookup
lookup-holds name [] h = refl
lookup-holds name (row ∷ t) h = elim (Bool-cases (str_eq row.0 name)) [
  | inl hit ↦
      let wrong : ◌≡◌ {A = Option (List ℕ)} (some row.1) none =
        sym (lookup-step name row t true hit) ∙ h in
      absurd cc
  | inr miss ↦ rw miss (lookup-holds name t (sym (lookup-step name row t false miss) ∙ h))
]

pub holds-there :
    (name : String) (old : List ℕ) (t : List (String × List ℕ))
    → lookup name t ≡ some old
    → holds name t ≡ true
unfolding lookup
holds-there name old [] h = absurd cc
holds-there name old (row ∷ t) h = elim (Bool-cases (str_eq row.0 name)) [
  | inl hit ↦ rw hit refl
  | inr miss ↦ rw miss (holds-there name old t (sym (lookup-step name row t false miss) ∙ h))
]

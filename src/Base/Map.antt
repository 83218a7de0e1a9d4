-- ===== src/Base/Map.antt =====
-- Association lists under text keys, for the program's hash maps.
use invokr.Base.{
  ◌≡◌, String, true, false, List, [], ◌∷◌, Option, none, some, arith, str_eq, eq_iff, if◌then◌else◌,
}

-- The value under a name: that of the first entry of this name.
module _ {ℓ} {V : Type ℓ} where
  unfoldable pub lookup : (name : String) → (entries : List (String × V)) → Option V
  lookup name [] = none
  lookup name (entry ∷ rest) = elim (str_eq entry.0 name) [
    | true ↦ some entry.1
    | false ↦ lookup name rest
  ]

  -- An entry of the name is replaced where it stands; a new one comes last.
  unfoldable pub insert :
      (name : String) → (value : V) → (entries : List (String × V)) → List (String × V)
  insert name value [] = (name, value) ∷ []
  insert name value (entry ∷ rest) = elim (str_eq entry.0 name) [
    | true ↦ (name, value) ∷ rest
    | false ↦ entry ∷ insert name value rest
  ]

  unfoldable pub remove : (name : String) → (entries : List (String × V)) → List (String × V)
  remove name [] = []
  remove name (entry ∷ rest) = elim (str_eq entry.0 name) [
    | true ↦ remove name rest
    | false ↦ entry ∷ remove name rest
  ]

  -- What an insert changes: its own name's value, and no other's.
  pub lookup-insert :
      (name other : String) (value : V) (entries : List (String × V))
      → lookup other (insert name value entries)
        ≡ (if str_eq name other then some value else lookup other entries)
  unfolding lookup insert
  lookup-insert name other value [] = ground arith
  lookup-insert name other value ((first, old) ∷ rest) = ground (
    arith,
    lookup-insert name other value rest,
    eq_iff first name,
    eq_iff first other,
    eq_iff name other,
  )

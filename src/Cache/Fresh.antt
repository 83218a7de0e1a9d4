-- ===== src/Cache/Fresh.antt =====
-- What the worker's caches answer.
use invokr.Base.{
  ℕ, ◌-◌, ◌≡◌, refl, ap, sym, ◌∙◌, inl, inr, String, Option, none, some, Bool-cases, str_eq, ltb,
  if◌then◌else◌,
}
use invokr.Base.Map.{lookup-insert}
use invokr.Cache.{Cache, get, set, found}

abbrev answered : {V : Type 0} → ℕ → ℕ → Option (V × ℕ) → Option V
answered ttl now none = none
answered ttl now (some (v, stored)) = if ltb (now - stored) ttl then some v else none

found-answered :
    {V : Type 0} (now : ℕ) (name : String) (c : Cache V) (o : Option (V × ℕ))
    → (found now name c o).0 ≡ answered c.ttl now o
found-answered now name c none = refl
found-answered now name c (some (v, stored)) = elim (Bool-cases (ltb (now - stored) c.ttl)) [
  | inl fresh ↦ rw (fresh, found) refl
  | inr stale ↦ rw (stale, found) refl
]

-- After a value is stored under a name, the cache answers that name with it until the time to live
-- has passed, with nothing from then on, and every other name as before.
get-set :
    {V : Type 0} (stored now : ℕ) (name other : String) (v : V) (c : Cache V)
    → (get now other (set stored name v c)).0 ≡ (
        if str_eq name other
        then (if ltb (now - stored) c.ttl then some v else none)
        else (get now other c).0)
unfolding get set
get-set stored now name other v c =
    found-answered now other (set stored name v c) _
    ∙ ap (answered c.ttl now) (lookup-insert name other (v, stored) c.entries)
    ∙ elim (Bool-cases (str_eq name other)) [
      | inl same ↦ rw same refl
      | inr apart ↦ rw apart (sym (found-answered now other c _))
    ]

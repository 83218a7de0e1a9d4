-- ===== src/Tenant/Registry/Recent.antt =====
-- How old the schemas are that a worker polls (crates/common/src/tenant.rs).
use mathlib.Core.List.{Memᴰ}
use mathlib.Core.Path.{subst}
use invokr.Base.{
  ℕ, ◌-◌, ◌<◌, ◌≡◌, refl, sym, ◌∙◌, ◌⊎◌, inl, inr, String, true, false, Option, none, some,
  Option-cases, Bool-cases, List, [], ◌∷◌, arith,
}
use invokr.Base.Result.{Result, ok}
use invokr.Store.Conn.{DbError}
use invokr.Tenant.Registry.{
  Call, SchemaRegistry, active_schemas, is_fresh, is_empty, refresh, get_active_schemas, after,
}

-- What is cached was read by one of the calls.
abbrev Kept : List Call → SchemaRegistry → Type 0
Kept past r =
    (r.schemas ≡ [])
    ⊎ ((q : Call) × Memᴰ q past
        × (r.schemas ≡ active_schemas q.workspaces)
        × (r.fetched_at ≡ q.fetched))

-- The answer of the statement, or one that it gave less than the time to live before.
abbrev pub IsRecent : ℕ → List Call → Call → List String → Type 0
IsRecent ttl past p xs =
    (xs ≡ active_schemas p.workspaces)
    ⊎ ((q : Call) × Memᴰ q past × (xs ≡ active_schemas q.workspaces) × (p.now - q.fetched < ttl))

older : (p : Call) (past : List Call) (r : SchemaRegistry) → Kept past r → Kept (p ∷ past) r
older p past r (inl none_yet) = inl none_yet
older p past r (inr (q, m, same, at)) = inr (q, Memᴰ.tail m, same, at)

refresh-Kept :
    (p : Call) (past : List Call) (r : SchemaRegistry) (f : Option String)
    → Kept past r
    → Kept (p ∷ past) (refresh p r f).1
refresh-Kept p past r none kept = inr (p, Memᴰ.head refl, refl, refl)
refresh-Kept p past r (some text) kept = older p past r kept

get_active_schemas-Kept :
    (p : Call) (past : List Call) (r : SchemaRegistry)
    → Kept past r
    → Kept (p ∷ past) (get_active_schemas p r).1
unfolding get_active_schemas
get_active_schemas-Kept p past r kept = elim (Bool-cases (is_fresh p.now r)) [
  | inl fresh ↦ rw fresh (older p past r kept)
  | inr stale ↦ rw stale (refresh-Kept p past r p.fails kept)
]

get_active_schemas-ttl : (p : Call) (r : SchemaRegistry) → (get_active_schemas p r).1.ttl ≡ r.ttl
unfolding get_active_schemas
get_active_schemas-ttl p r = elim (Bool-cases (is_fresh p.now r)) [
  | inl fresh ↦ rw fresh refl
  | inr stale ↦ elim (Option-cases p.fails) [
    | inl calm ↦ rw (stale, calm) refl
    | inr (text, faulty) ↦ rw (stale, faulty) refl
  ]
]

after-Kept :
    (past : List Call) (r : SchemaRegistry)
    → r.schemas ≡ []
    → Kept past (after past r) × ((after past r).ttl ≡ r.ttl)
after-Kept [] r empty = (inl empty, refl)
after-Kept (p ∷ past) r empty =
    let before = after-Kept past r empty in
    (
      get_active_schemas-Kept p past (after past r) before.0,
      get_active_schemas-ttl p (after past r) ∙ before.1,
    )

refresh-ok :
    (p : Call) (r : SchemaRegistry) (f : Option String) (xs : List String)
    → (refresh p r f).0 ≡ ok xs
    → xs ≡ active_schemas p.workspaces
refresh-ok p r none xs h = cc
refresh-ok p r (some text) xs h = absurd cc

full : (now : ℕ) (r : SchemaRegistry) → is_fresh now r ≡ true → r.schemas ≡ [] → ⊥
full now r fresh empty =
    let full : is_empty r.schemas ≡ false = ground arith in
    let hollow : is_empty r.schemas ≡ true = rw empty refl in cc

answer-IsRecent :
    (p : Call) (past : List Call) (r : SchemaRegistry) (xs : List String)
    → Kept past r
    → (get_active_schemas p r).0 ≡ ok xs
    → IsRecent r.ttl past p xs
unfolding get_active_schemas
answer-IsRecent p past r xs kept h = elim (Bool-cases (is_fresh p.now r)) [
  | inl fresh ↦
      let hit : (get_active_schemas p r).0 ≡ ok r.schemas = rw fresh refl in
      let answered : ◌≡◌ {A = Result DbError (List String)} (ok r.schemas) (ok xs) = sym hit ∙ h in
      let got : r.schemas ≡ xs = cc in
      let young : p.now - r.fetched_at < r.ttl = ground arith in
      elim kept [
        | inl none_yet ↦ absurd (full p.now r fresh none_yet)
        | inr (q, m, same, at) ↦ inr (q, m, sym got ∙ same, rw (← at) young)
      ]
  | inr stale ↦
      let read : (get_active_schemas p r).0 ≡ (refresh p r p.fails).0 = rw stale refl in
      inl (refresh-ok p r p.fails xs (sym read ∙ h))
]

-- Whatever calls a new registry has met, with whatever faults, a call that answers gives the
-- schemas that were active when it asked, or when an earlier call had asked whose answer came less
-- than the time to live before.
pub get_active_schemas-IsRecent :
    (past : List Call) (p : Call) (r : SchemaRegistry) (xs : List String)
    → r.schemas ≡ []
    → (get_active_schemas p (after past r)).0 ≡ ok xs
    → IsRecent r.ttl past p xs
get_active_schemas-IsRecent past p r xs empty h =
    let kept = after-Kept past r empty in
    subst (λ t. IsRecent t past p xs) kept.1 (answer-IsRecent p past (after past r) xs kept.0 h)

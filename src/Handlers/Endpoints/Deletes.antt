-- ===== src/Handlers/Endpoints/Deletes.antt =====
-- How the deletion of an endpoint is answered (crates/api/src/handlers/endpoints.rs).
use Prim.Native.String.{◌++◌}
use invokr.Base.{
  ◌≡◌, refl, ap, inl, inr, String, Bool, true, false, not, List, [], ◌∷◌, find?, is_some, keep,
  if◌then◌else◌, Bool-cases,
}
use invokr.Base.Result.{Result, ok, err}
use invokr.Store.{Store}
use invokr.Store.Conn.{query}
use invokr.Errors.{AppError, conflict, endpoint_not_found, internal_error}
use invokr.Endpoints.{named, for_endpoint, is_active_for}
use invokr.Endpoints as Db
use invokr.Handlers.Endpoints as Endpoints

pub keep-all :
    {A : Type 0} (p : A → Bool) (t : List A)
    → is_some (find? p t) ≡ false
    → keep (λ a. not (p a)) t ≡ t
keep-all p [] h = refl
keep-all p (a ∷ t) h = elim (Bool-cases (p a)) [
  | inl hit ↦ absurd (let q : true ≡ false = rw hit at h in cc)
  | inr miss ↦ rw miss (ap (◌∷◌ a) (keep-all p t (rw miss at h)))
]

-- What a deletion comes to, by the jobs of the endpoint.
abbrev pub deletion : String → Store → Result AppError (Unit {0}) × Store
deletion name s =
    if is_some (find? (is_active_for name) s.jobs)
    then (err (conflict ("Endpoint '" ++ name ++ "' has active jobs")), s)
    else if not (is_some (find? (named name) s.endpoints))
    then (err (endpoint_not_found name), s)
    else if is_some (find? (for_endpoint name) s.jobs)
    then (err (internal_error "Database error"), s)
    else (ok tt, record s { endpoints = keep (λ e. not (named name e)) s.endpoints })

-- With no fault and no other request between, the deletion of an endpoint with an ACTIVE job is a
-- conflict, that of a missing one is NotFound, that of one with retired jobs only is an internal
-- error, all of which change nothing; any other endpoint is deleted, it alone.
pub delete_cases : (name : String) (s : Store) → Endpoints.delete name [] [] s s ≡ deletion name s
unfolding Endpoints.delete Db.delete Db.has_active_jobs query
delete_cases name s = elim (Bool-cases (is_some (find? (is_active_for name) s.jobs))) [
  | inl busy ↦ rw busy refl
  | inr idle ↦ elim (Bool-cases (is_some (find? (named name) s.endpoints))) [
    | inr missing ↦
        rw (idle, missing)
          (ap (λ t. (err (endpoint_not_found name), record s { endpoints = t }))
            (keep-all (named name) s.endpoints missing))
    | inl there ↦ elim (Bool-cases (is_some (find? (for_endpoint name) s.jobs))) [
      | inl used ↦ rw (idle, there, used) refl
      | inr free ↦ rw (idle, there, free) refl
    ]
  ]
]

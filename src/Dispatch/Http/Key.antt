-- ===== src/Dispatch/Http/Key.antt =====
-- The idempotency key of a request of crates/worker/src/dispatcher/http.rs, and how its answer is
-- judged.
use invokr.Base.{
  ℕ, ◌≡◌, refl, ◌↔◌, ◌⊎◌, inl, inr, String, true, false, Option, none, some, List, [], ◌∷◌,
  ◌++◌ as append, Bool-cases,
}
use invokr.Json.{Json}
use invokr.Dispatch.{DispatchResult, success}
use invokr.Dispatch.Http.{
  Request, Reply, response, timeout, refused, broken, headers, request, has_header, key_header,
  user_headers, eq_ignore_case, dispatch, outcome, expected_statuses, is_among,
}

has_header-append :
    (name : String) (hs : List (String × String)) (k v : String)
    → eq_ignore_case k name ≡ true
    → has_header name (append hs ((k, v) ∷ [])) ≡ true
has_header-append name [] k v h = rw h refl
has_header-append name ((j, w) ∷ hs) k v h = elim (Bool-cases (eq_ignore_case j name)) [
  | inl hit ↦ rw hit refl
  | inr miss ↦ rw miss (has_header-append name hs k v h)
]

key_header-itself : eq_ignore_case key_header key_header ≡ true
unfolding eq_ignore_case
key_header-itself = refl

-- Every request carries the idempotency header: the spec's own headers are all kept in their order,
-- and the execution's key is appended to them exactly if none of them is that header in any case.
request-key :
    (spec : Json) (key : String)
    → (has_header key_header (request spec key).headers ≡ true)
      × (((has_header key_header (user_headers spec) ≡ true)
            × ((request spec key).headers ≡ user_headers spec))
          ⊎ ((has_header key_header (user_headers spec) ≡ false)
              × ((request spec key).headers ≡ append (user_headers spec) ((key_header, key) ∷ []))))
unfolding request headers
request-key spec key = elim (Bool-cases (has_header key_header (user_headers spec))) [
  | inl there ↦ rw there (there, inl (refl, refl))
  | inr absent ↦ rw absent (
    has_header-append key_header (user_headers spec) key_header key key_header-itself,
    inr (refl, refl),
  )
]

abbrev pub IsSuccess : DispatchResult → Type 0
IsSuccess r = (output : Json) × (r ≡ success output)

abbrev pub status_of : Reply → Option ℕ
status_of (response status body) = some status
status_of _ = none

abbrev pub IsExpected : List ℕ → Option ℕ → Type 0
IsExpected expected none = ⊥
IsExpected expected (some n) = is_among n expected ≡ true

outcome_iff :
    (expected : List ℕ) (r : Reply)
    → IsSuccess (outcome expected r) ↔ IsExpected expected (status_of r)
unfolding outcome
outcome_iff expected (response status body) = elim (Bool-cases (is_among status expected)) [
  | inl hit ↦ rw hit (λ _. refl, λ _. (_, refl))
  | inr miss ↦ rw miss (λ p. absurd (let q = p.1 in cc), λ p. cc)
]
outcome_iff expected (timeout text) = (λ p. absurd (let q = p.1 in cc), λ p. absurd p)
outcome_iff expected (refused text) = (λ p. absurd (let q = p.1 in cc), λ p. absurd p)
outcome_iff expected (broken text) = (λ p. absurd (let q = p.1 in cc), λ p. absurd p)

-- A delivery succeeds exactly if the endpoint answers at all, and with a status that the spec
-- expects.
dispatch_iff :
    (client : Request → Reply) (spec : Json) (key : String)
    → IsSuccess (dispatch client spec key)
      ↔ IsExpected (expected_statuses spec) (status_of (client (request spec key)))
unfolding dispatch
dispatch_iff client spec key = outcome_iff (expected_statuses spec) (client (request spec key))

-- ===== src/Executions/Newest.antt =====
-- `list_for_job` of crates/common/src/db/executions.rs, and that its order agrees with that of
-- `get_for_job`.
use invokr.Base.{
  ℕ, ◌≤◌, ◌≡◌, refl, sym, ap, ◌∙◌, String, Bool, false, ◌&&◌, Option, none, some, List, [], ◌∷◌,
  All, All-weaken, find?, keep, take, ltb, arith, if◌then◌else◌, Bool-cases, Option-cases, inl, inr,
}
use invokr.Base.Result.{Result, ok}
use invokr.Store.{Execution}
use invokr.Store.Conn.{Conn, DbError, query}
use invokr.Executions.{of_job, has_id, newest}

abbrev pub insert : Execution → List Execution → List Execution
insert e [] = e ∷ []
insert e (x ∷ xs) =
    let rest = insert e xs in if ltb e.created_at x.created_at then x ∷ rest else e ∷ x ∷ xs

-- `ORDER BY created_at DESC`; rows of one time PostgreSQL may answer in any order.
abbrev pub newest_first : List Execution → List Execution
newest_first [] = []
newest_first (e ∷ es) = insert e (newest_first es)

-- `created_at < (SELECT created_at …)`, which no row satisfies where there is no such execution.
abbrev pub older_than : Option Execution → Execution → Bool
older_than none e = false
older_than (some x) e = ltb e.created_at x.created_at

abbrev pub page_of : String → Option String → List Execution → List Execution
page_of job_id none t = keep (of_job job_id) t
page_of job_id (some cursor) t =
    keep (λ e. of_job job_id e && older_than (find? (has_id cursor) t) e) t

unfoldable pub list_for_job :
    String → Option String → ℕ → Conn → Result DbError (List Execution) × Conn
list_for_job job_id cursor limit =
    query (λ s. ok (take limit (newest_first (page_of job_id cursor s.executions)), s))

abbrev Desc : List Execution → Type 0
Desc [] = Unit
Desc (x ∷ xs) = All (λ y. y.created_at ≤ x.created_at) xs × Desc xs

insert-All :
    (n : ℕ) (e : Execution) (xs : List Execution)
    → e.created_at ≤ n
    → All (λ y. y.created_at ≤ n) xs
    → All (λ y. y.created_at ≤ n) (insert e xs)
insert-All n e [] h all = (h, tt)
insert-All n e (x ∷ xs) h all = elim (Bool-cases (ltb e.created_at x.created_at)) [
  | inl older ↦ rw older (all.0, insert-All n e xs h all.1)
  | inr newer ↦ rw newer (h, all)
]

insert-Desc : (e : Execution) (xs : List Execution) → Desc xs → Desc (insert e xs)
insert-Desc e [] d = (tt, tt)
insert-Desc e (x ∷ xs) d = elim (Bool-cases (ltb e.created_at x.created_at)) [
  | inl older ↦ rw older (insert-All x.created_at e xs (ground arith) d.0, insert-Desc e xs d.1)
  | inr newer ↦
      let h : x.created_at ≤ e.created_at = ground arith in
      rw newer (
        (
          h,
          All-weaken (λ y. y.created_at ≤ x.created_at) (λ y. y.created_at ≤ e.created_at) xs
              (λ y k. omega (arith, k, h)) d.0,
        ),
        d,
      )
]

newest_first-Desc : (xs : List Execution) → Desc (newest_first xs)
newest_first-Desc [] = tt
newest_first-Desc (x ∷ xs) = insert-Desc x (newest_first xs) (newest_first-Desc xs)

module _ (p : Execution → Bool) where
  find-All :
      (n : ℕ) (xs : List Execution) (r : Execution)
      → All (λ y. y.created_at ≤ n) xs
      → find? p xs ≡ some r
      → r.created_at ≤ n
  find-All n [] r all h = absurd cc
  find-All n (x ∷ xs) r all h = elim (Bool-cases (p x)) [
    | inl hit ↦
        let first : find? p (x ∷ xs) ≡ some x = rw hit refl in
        let found : ◌≡◌ {A = Option Execution} (some x) (some r) = sym first ∙ h in
        let same : x ≡ r = cc in rw (sym same) all.0
    | inr miss ↦
        let skipped : find? p (x ∷ xs) ≡ find? p xs = rw miss refl in
        find-All n xs r all.1 (sym skipped ∙ h)
  ]

  -- What `newest` makes of a row and the newest of the others.
  abbrev later : Execution → Option Execution → Option Execution
  later e rest =
      if p e
      then some (elim rest [ none ↦ e | some r ↦ if ltb e.created_at r.created_at then r else e ])
      else rest

  find-insert :
      (e : Execution) (xs : List Execution) → Desc xs → find? p (insert e xs) ≡ later e (find? p xs)
  find-insert e [] d = refl
  find-insert e (x ∷ xs) d = elim (Bool-cases (ltb e.created_at x.created_at)) [
    | inl older ↦ elim (Bool-cases (p x)) [
      | inl hit ↦ elim (Bool-cases (p e)) [
        | inl mine ↦ rw (older, hit, mine) (rw older refl)
        | inr other ↦ rw (older, hit, other) refl
      ]
      | inr miss ↦ rw (older, miss) (find-insert e xs d.1)
    ]
    | inr newer ↦ elim (Bool-cases (p e)) [
      | inl mine ↦ elim (Option-cases (find? p (x ∷ xs))) [
        | inl gone ↦ rw (newer, mine, gone) refl
        | inr (r, there) ↦
            let here : x.created_at ≤ e.created_at = ground arith in
            let bound : r.created_at ≤ e.created_at =
              omega (arith, here, find-All x.created_at (x ∷ xs) r (omega arith, d.0) there) in
            let late : ltb e.created_at r.created_at ≡ false = ground arith in
            rw (newer, mine, there, late) refl
      ]
      | inr other ↦ rw (newer, other) refl
    ]
  ]

  -- The first row of a kind in the order of `list_for_job` is the one that a statement with
  -- `ORDER BY created_at DESC LIMIT 1` takes.
  pub find-newest_first : (xs : List Execution) → find? p (newest_first xs) ≡ newest p xs
  find-newest_first [] = refl
  find-newest_first (x ∷ xs) =
      find-insert x (newest_first xs) (newest_first-Desc xs) ∙ ap (later x) (find-newest_first xs)

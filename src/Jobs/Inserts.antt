-- ===== src/Jobs/Inserts.antt =====
-- What the inserts of crates/common/src/db/jobs.rs have done when they succeed.
use invokr.Base.{◌≡◌, refl, ap, ◌∙◌, inl, inr, true, false, List, ◌∷◌, find?, is_some, Bool-cases}
use invokr.Base.Result.{Result, ok, err, guarded-ok}
use invokr.Store.{Store, Job, Execution}
use invokr.Store.Conn.{Conn, DbError, query}
use invokr.Store.Does.{Does, query-Does, bind-Does}
use invokr.Executions.{takes_id, insert_row}
use invokr.Endpoints.{named}
use invokr.Jobs.{
  has_job_id, takes_key, insert_job, insert_execution, with_executions, returning, create_with,
  CreateJobResult,
}

-- The row is new to the primary key and to the unique index, and its endpoint is there.
abbrev pub Inserted : Job → Store → Store → Type 0
Inserted j s x =
    (is_some (find? (has_job_id j.job_id) s.jobs) ≡ false)
    × (is_some (find? (takes_key j) s.jobs) ≡ false)
    × (is_some (find? (named j.endpoint) s.endpoints) ≡ true)
    × (x ≡ record s { jobs = j ∷ s.jobs })

pub insert_job-ok : (j : Job) (s x : Store) → insert_job j s ≡ ok x → Inserted j s x
unfolding insert_job
insert_job-ok j s x h =
    let a = guarded-ok _ _ _ h in
    let b = guarded-ok _ _ _ a.1 in
    elim (Bool-cases (is_some (find? (named j.endpoint) s.endpoints))) [
      | inl there ↦ (a.0, b.0, there, (let e = rw there at b.1 in cc))
      | inr missing ↦ absurd (let e = rw missing at b.1 in cc)
    ]

-- The row is new to the primary key, and its job is there.
abbrev pub InsertedExecution : Execution → Store → Store → Type 0
InsertedExecution e s x =
    (is_some (find? (has_job_id e.job_id) s.jobs) ≡ true)
    × (is_some (find? (takes_id e) s.executions) ≡ false)
    × (x ≡ record s { executions = e ∷ s.executions })

insert_row-ok :
    (e : Execution) (t u : List Execution)
    → insert_row e t ≡ ok u
    → (is_some (find? (takes_id e) t) ≡ false) × (u ≡ e ∷ t)
unfolding insert_row
insert_row-ok e t u h =
    let a = guarded-ok _ _ _ h in
    let same : ◌≡◌ {A = Result DbError (List Execution)} (ok (e ∷ t)) (ok u) =
      (guarded-ok _ _ _ a.1).1 in
    (a.0, cc)

with_executions-ok :
    (s x : Store) (r : Result DbError (List Execution))
    → with_executions s r ≡ ok x
    → (t : List Execution) × (r ≡ ok t) × (x ≡ record s { executions = t })
with_executions-ok s x (ok t) h = (t, refl, cc)
with_executions-ok s x (err e) h = absurd cc

pub insert_execution-ok :
    (e : Execution) (s x : Store) → insert_execution e s ≡ ok x → InsertedExecution e s x
unfolding insert_execution
insert_execution-ok e s x h = elim (Bool-cases (is_some (find? (has_job_id e.job_id) s.jobs))) [
  | inl there ↦
      let w = with_executions-ok s x (insert_row e s.executions) (rw there at h) in
      let r = insert_row-ok e s.executions w.0 w.1 in
      (there, r.0, w.2 ∙ ap (λ t. record s { executions = t }) r.1)
  | inr missing ↦ absurd (let g = rw missing at h in cc)
]

pub returning-ok :
    {A : Type 0} (a b : A) (x : Store) (r : Result DbError Store)
    → returning a r ≡ ok (b, x)
    → (b ≡ a) × (r ≡ ok x)
returning-ok a b x (ok s) h = (cc, cc)
returning-ok a b x (err e) h = absurd cc

pub insert_job-Does :
    {A : Type 0} (a : A) (j : Job) (c : Conn)
    → c.aborted ≡ false
    → Does (λ b x. (b ≡ a) × Inserted j c.store x) (query (λ s. returning a (insert_job j s)) c)
insert_job-Does a j c alive =
    query-Does (λ b x. (b ≡ a) × Inserted j c.store x) (λ s. returning a (insert_job j s)) c alive
      (λ b x h.
        let r = returning-ok a b x (insert_job j c.store) h in (r.0, insert_job-ok j c.store x r.1))

abbrev pub result_of : Job → Execution → CreateJobResult
result_of j e = record {
  job = j;
  execution_id = e.execution_id;
  execution_status = e.status;
  execution_created_at = e.created_at;
}

-- A job and its execution, inserted together.
abbrev pub InsertedBoth : Job → Execution → Store → CreateJobResult → Store → Type 0
InsertedBoth j e s r x =
    (r ≡ result_of j e) × ((y : Store) × Inserted j s y × InsertedExecution e y x)

pub create_with-Does :
    (j : Job) (e : Execution) (c : Conn)
    → c.aborted ≡ false
    → Does (InsertedBoth j e c.store) (create_with j e c)
create_with-Does j e c alive =
    bind-Does (λ b x. (b ≡ tt) × Inserted j c.store x) (InsertedBoth j e c.store) _ _
      (insert_job-Does tt j c alive)
      (λ _ c1 alive1 h1.
        bind-Does (λ _ x. InsertedExecution e c1.store x) (InsertedBoth j e c.store) _ _
          (query-Does (λ _ x. InsertedExecution e c1.store x)
            (λ s. returning tt (insert_execution e s)) c1 alive1
            (λ b x h.
              insert_execution-ok e c1.store x
                (returning-ok tt b x (insert_execution e c1.store) h).1))
          (λ _ c2 alive2 h2. inr (alive2, (result_of j e, refl, (refl, (c1.store, h1.1, h2))))))

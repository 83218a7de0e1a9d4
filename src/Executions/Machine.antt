-- ===== src/Executions/Machine.antt =====
-- The histories of the table `executions`, as the statements of
-- crates/common/src/db/executions.rs make them, and what holds after each.
use invokr.Base.{
  ℕ, ◌≡◌, refl, String, Bool, true, false, ◌&&◌, none, List, [], ◌∷◌, arith, All, is_some, inl, inr,
  find?, Bool-cases,
}
use invokr.Base.Int.{ℤ}
use invokr.Base.Rows.{
  update_where, All-update, All-update_key, All-Memᴰ, Unique, Lacks, Apart, Apart-update, All-find?,
  Unique-update,
}
use invokr.Base.Result.{Result, ok, err}
use invokr.Store.Conn.{DbError}
use invokr.Json.{Json}
use invokr.Store.{Execution}
use invokr.Executions.{
  is_cancellable, claimed, claim_row, runs, succeed, fail, retry, cancel_row, has_id, of_job,
  insert_row, takes_id, takes_key,
}
use invokr.Executions.Claim.{claim_row-ClaimOutcome}
use invokr.Executions.Valid.{
  IsValid, claimed-IsValid, succeed-IsValid, fail-IsValid, retry-IsValid, cancel_row-IsValid,
  new-IsValid,
}

-- What a program may do to the table, one statement at a time.
pub data Statement : Type 0 where
  insert : Execution → Statement
  claim : ℕ → (String → Bool) → String → Statement
  complete_success : ℕ → String → Json → Statement
  complete_retry : ℕ → String → ℤ → Statement
  complete_failed : ℕ → String → Statement
  cancel : ℕ → String → Statement
  cancel_pending_for_job : ℕ → String → Statement

abbrev pub inserted : List Execution → Result DbError (List Execution) → List Execution
inserted t (ok u) = u
inserted t (err e) = t

-- The table after a statement; a refused insert leaves it as it was.
unfoldable pub apply : Statement → List Execution → List Execution
apply (insert e) t = inserted t (insert_row e t)
apply (claim now locked w) t = (claim_row now locked w t).1
apply (complete_success now id output) t = update_where (runs id) (succeed now output) t
apply (complete_retry now id ms) t = update_where (runs id) (retry now ms) t
apply (complete_failed now id) t = update_where (runs id) (fail now) t
apply (cancel now id) t =
    update_where (λ e. has_id id e && is_cancellable e.status) (cancel_row now) t
apply (cancel_pending_for_job now job_id) t =
    update_where (λ e. of_job job_id e && is_cancellable e.status) (cancel_row now) t

-- The rows that the program inserts: `new_row` as pending or queued.
abbrev pub IsNew : Statement → Type 0
IsNew (insert e) =
    (e.attempt_count ≡ 0) × (is_cancellable e.status ≡ true) × (e.completed_at ≡ none)
IsNew _ = Unit {0}

pub record IsValidTable (t : List Execution) : Type 0 where
  pub rows : All IsValid t
  pub unique : Unique (λ e. e.execution_id) t
  pub keyed : Apart takes_key t

Lacks-find? :
    (e : Execution) (t : List Execution)
    → is_some (find? (takes_id e) t) ≡ false
    → Lacks (λ x. x.execution_id) e.execution_id t
Lacks-find? e [] h = tt
Lacks-find? e (x ∷ t) h = elim (Bool-cases (takes_id e x)) [
  | inl hit ↦ absurd (let q : true ≡ false = rw hit at h in cc)
  | inr miss ↦ (miss, Lacks-find? e t (rw miss at h))
]

insert-IsValidTable :
    (e : Execution) (t : List Execution)
    → IsNew (insert e)
    → IsValidTable t
    → IsValidTable (inserted t (insert_row e t))
unfolding insert_row
insert-IsValidTable e t n v = elim (Bool-cases (is_some (find? (takes_id e) t))) [
  | inl hit ↦ rw hit v
  | inr miss ↦ rw miss (elim (Bool-cases (is_some (find? (takes_key e) t))) [
    | inl hit ↦ rw hit v
    | inr free ↦ rw free (record {
      rows = (new-IsValid e n, v.rows);
      unique = (Lacks-find? e t miss, v.unique);
      keyed = (All-find? (takes_key e) t free, v.keyed);
    })
  ])
]

claim-IsValidTable :
    (now : ℕ) (locked : String → Bool) (w : String) (t : List Execution)
    → IsValidTable t
    → IsValidTable (claim_row now locked w t).1
claim-IsValidTable now locked w t v = elim (claim_row-ClaimOutcome now locked w t) [
  | inl (_, same, _) ↦ rw same v
  | inr (e, (m, due, _), _, changed) ↦ rw changed (record {
    rows =
        All-update_key (λ x. x.execution_id) IsValid (claimed now w) m v.unique
          (claimed-IsValid now w e (ground arith) (All-Memᴰ IsValid m v.rows)) v.rows;
    unique = Unique-update (λ x. x.execution_id) _ (claimed now w) t (λ _. refl) v.unique;
    keyed = Apart-update takes_key _ (claimed now w) t (λ a b. refl) (λ a b. refl) v.keyed;
  })
]

-- An update that leaves the ids, the jobs and the keys as they are.
update-IsValidTable :
    (p : Execution → Bool) (f : Execution → Execution) (t : List Execution)
    → ((e : Execution) → p e ≡ true → IsValid e → IsValid (f e))
    → ((e : Execution) → (f e).execution_id ≡ e.execution_id)
    → ((e d : Execution) → takes_key (f e) d ≡ takes_key e d)
    → ((e d : Execution) → takes_key e (f d) ≡ takes_key e d)
    → IsValidTable t
    → IsValidTable (update_where p f t)
update-IsValidTable p f t valid same left right v = record {
  rows = All-update IsValid p f t (λ e h hit. valid e hit h) v.rows;
  unique = Unique-update (λ x. x.execution_id) p f t same v.unique;
  keyed = Apart-update takes_key p f t left right v.keyed;
}

-- Every statement that the program makes keeps the table valid.
pub apply-IsValidTable :
    (s : Statement) (t : List Execution) → IsNew s → IsValidTable t → IsValidTable (apply s t)
unfolding apply
apply-IsValidTable (insert e) t n v = insert-IsValidTable e t n v
apply-IsValidTable (claim now locked w) t n v = claim-IsValidTable now locked w t v
apply-IsValidTable (complete_success now id output) t n v =
    update-IsValidTable (runs id) (succeed now output) t
      (λ e hit h. succeed-IsValid now output e (ground arith) h) (λ _. refl) (λ _ _. refl)
      (λ _ _. refl) v
apply-IsValidTable (complete_retry now id ms) t n v =
    update-IsValidTable (runs id) (retry now ms) t
      (λ e hit h. retry-IsValid now ms e (ground arith) h) (λ _. refl) (λ _ _. refl) (λ _ _. refl) v
apply-IsValidTable (complete_failed now id) t n v =
    update-IsValidTable (runs id) (fail now) t (λ e hit h. fail-IsValid now e (ground arith) h)
      (λ _. refl) (λ _ _. refl) (λ _ _. refl) v
apply-IsValidTable (cancel now id) t n v =
    update-IsValidTable (λ e. has_id id e && is_cancellable e.status) (cancel_row now) t
      (λ e hit h. cancel_row-IsValid now e (ground arith) h) (λ _. refl) (λ _ _. refl) (λ _ _. refl)
      v
apply-IsValidTable (cancel_pending_for_job now job_id) t n v =
    update-IsValidTable (λ e. of_job job_id e && is_cancellable e.status) (cancel_row now) t
      (λ e hit h. cancel_row-IsValid now e (ground arith) h) (λ _. refl) (λ _ _. refl) (λ _ _. refl)
      v

-- A history: the statements of all workers, requests and ticks, in the order of their commits.
unfoldable pub run : List Statement → List Execution → List Execution
run [] t = t
run (s ∷ ss) t = run ss (apply s t)

pub run-IsValidTable :
    (ss : List Statement) (t : List Execution)
    → All IsNew ss
    → IsValidTable t
    → IsValidTable (run ss t)
unfolding run
run-IsValidTable [] t n v = v
run-IsValidTable (s ∷ ss) t n v = run-IsValidTable ss (apply s t) n.1 (apply-IsValidTable s t n.0 v)

-- After any history from the empty table every row is valid, the ids are distinct, and no two rows
-- of one job have the same idempotency key. A row is
-- valid if: it has had at most `max_attempts` attempts, or one if `max_attempts` is below one; it
-- has had none while PENDING or QUEUED; it is RETRYING only with an attempt left and with no
-- worker; while RUNNING it has a worker, a start and an attempt; and it has an end exactly in the
-- states SUCCESS, FAILED and CANCELLED.
pub run_valid : (ss : List Statement) → All IsNew ss → IsValidTable (run ss [])
run_valid ss n = run-IsValidTable ss [] n (record { rows = tt; unique = tt; keyed = tt })

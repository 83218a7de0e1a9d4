-- ===== src/Executions/Final.antt =====
-- That an execution which has ended stays as it is.
use mathlib.Core.List.{Memᴰ}
use invokr.Base.{
  ◌≡◌, true, false, ◌&&◌, List, [], ◌∷◌, arith, All, is_some, inl, inr, find?, Bool-cases, eq_iff,
  ap,
}
use invokr.Base.Rows.{Unique, Unique-eq, Memᴰ-update}
use invokr.Store.{Execution}
use invokr.Executions.{
  is_claimable, is_cancellable, claimed, runs, succeed, fail, retry, cancel_row, has_id, of_job,
  insert_row, takes_id, takes_key,
}
use invokr.Executions.Claim.{claim_row-ClaimOutcome}
use invokr.Executions.Valid.{is_ended}
use invokr.Executions.Machine.{
  Statement, insert, claim, complete_success, complete_retry, complete_failed, cancel,
  cancel_pending_for_job, IsNew, IsValidTable, apply, apply-IsValidTable, run, inserted,
}

-- An id that a row of another state has is not that of the row picked up.
other_id :
    (e d : Execution) (t : List Execution)
    → Unique (λ x. x.execution_id) t
    → Memᴰ e t
    → Memᴰ d t
    → is_claimable d.status ≡ true
    → is_ended e.status ≡ true
    → has_id d.execution_id e ≡ false
other_id e d t u m n c x = elim (Bool-cases (has_id d.execution_id e)) [
  | inr miss ↦ miss
  | inl hit ↦
      let same : e ≡ d =
        Unique-eq (λ r. r.execution_id) u m n ((eq_iff e.execution_id d.execution_id).0 hit) in
      ground (arith, ap (λ r. is_ended r.status) same)
]

insert-Memᴰ :
    (d e : Execution) (t : List Execution) → Memᴰ e t → Memᴰ e (inserted t (insert_row d t))
unfolding insert_row
insert-Memᴰ d e t m = elim (Bool-cases (is_some (find? (takes_id d) t))) [
  | inl hit ↦ rw hit m
  | inr miss ↦ rw miss (elim (Bool-cases (is_some (find? (takes_key d) t))) [
    | inl hit ↦ rw hit m
    | inr free ↦ rw free (Memᴰ.tail m)
  ])
]

-- A row that has ended is left as it is by every statement.
pub apply-ended :
    (s : Statement) {e : Execution} {t : List Execution}
    → Unique (λ x. x.execution_id) t
    → Memᴰ e t
    → is_ended e.status ≡ true
    → Memᴰ e (apply s t)
unfolding apply
apply-ended (insert d) {e} {t} u m x = insert-Memᴰ d e t m
apply-ended (claim now locked w) {e} {t} u m x = elim (claim_row-ClaimOutcome now locked w t) [
  | inl (_, same, _) ↦ rw same m
  | inr (d, (n, due, _), _, changed) ↦ rw changed (
      Memᴰ-update (has_id d.execution_id) (claimed now w) m (other_id e d t u m n (ground arith) x))
]
apply-ended (complete_success now id output) u m x =
    Memᴰ-update (runs id) (succeed now output) m (ground arith)
apply-ended (complete_retry now id ms) u m x = Memᴰ-update (runs id) (retry now ms) m (ground arith)
apply-ended (complete_failed now id) u m x = Memᴰ-update (runs id) (fail now) m (ground arith)
apply-ended (cancel now id) u m x =
    Memᴰ-update (λ e. has_id id e && is_cancellable e.status) (cancel_row now) m (ground arith)
apply-ended (cancel_pending_for_job now job_id) u m x =
    Memᴰ-update (λ e. of_job job_id e && is_cancellable e.status) (cancel_row now) m (ground arith)

-- An execution that has ended (SUCCESS, FAILED or CANCELLED) is final: after any further history
-- of a table with distinct ids its row is still there, unchanged in every column.
pub run-ended :
    (ss : List Statement) {e : Execution} {t : List Execution}
    → All IsNew ss
    → IsValidTable t
    → Memᴰ e t
    → is_ended e.status ≡ true
    → Memᴰ e (run ss t)
unfolding run
run-ended [] n v m x = m
run-ended (s ∷ ss) {e} {t} n v m x =
    run-ended ss n.1 (apply-IsValidTable s t n.0 v) (apply-ended s v.unique m x) x

-- ===== src/Handlers/Executions/Waiting.antt =====
-- That only an execution that waits is cancelled (crates/api/src/handlers/executions.rs).
use invokr.Base.{
  ℕ, ◌≡◌, refl, ap, ◌⊎◌, inl, inr, String, Bool, ◌&&◌, Option, some, List, find?, Option-cases,
}
use invokr.Base.Rows.{update_where, update_where-none}
use invokr.Base.Result.{Result, ok, err}
use invokr.Store.{Store, Execution}
use invokr.Store.Conn.{begin, query, next_fault}
use invokr.Errors.{AppError}
use invokr.Executions.{has_id, is_cancellable}
use invokr.Executions as Db
use invokr.Handlers.{then_write, autocommitted}
use invokr.Handlers.Executions.{check_cancellable, cancel_row, cancel}

abbrev waits : String → Execution → Bool
waits id e = has_id id e && is_cancellable e.status

-- An error and the store as it was, or the one row that waits, cancelled.
abbrev pub CancelOutcome : ℕ → String → Store → Result AppError Execution × Store → Type 0
CancelOutcome now id s r =
    ((e : AppError) × (r.0 ≡ err e) × (r.1 ≡ s))
    ⊎ ((e : Execution) × (find? (waits id) s.executions ≡ some e)
        × (r.0 ≡ ok (Db.cancel_row now e))
        × (r.1
            ≡ record s { executions = update_where (waits id) (Db.cancel_row now) s.executions }))

cancel_row-CancelOutcome :
    (now : ℕ) (id : String) (faults : List (Option String)) (s : Store)
    → CancelOutcome now id s (autocommitted (cancel_row now id tt (begin s faults)))
unfolding Db.cancel query
cancel_row-CancelOutcome now id faults s = elim (Option-cases (next_fault faults)) [
  | inr (text, faulty) ↦ rw faulty (inl (_, refl, refl))
  | inl calm ↦ elim (Option-cases (find? (waits id) s.executions)) [
    | inl gone ↦
        rw (calm, gone)
          (inl (
            _,
            refl,
            ap (λ t. record s { executions = t })
                (update_where-none (waits id) (Db.cancel_row now) s.executions gone),
          ))
    | inr (e, there) ↦ rw (calm, there) (inr (e, refl, refl, refl))
  ]
]

-- A request to cancel an execution, whatever its reads have seen, answers with an error and changes
-- nothing, or answers with the row as cancelled, which was PENDING or QUEUED when the statement ran,
-- and changes no other row.
pub cancel_waiting :
    (now : ℕ) (id : String) (read_faults faults : List (Option String)) (seen s : Store)
    → CancelOutcome now id s (cancel now id read_faults faults seen s)
unfolding cancel
cancel_waiting now id read_faults faults seen s =
    run (check_cancellable id (begin seen read_faults)).0
  where
    run :
        (r : Result AppError (Unit {0}))
        → CancelOutcome now id s (then_write r (cancel_row now id) faults s)
    run (err e) = inl (e, refl, refl)
    run (ok u) = cancel_row-CancelOutcome now id faults s

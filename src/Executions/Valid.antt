-- ===== src/Executions/Valid.antt =====
-- What holds of every row of `executions`, and that each statement's `SET` keeps it.
use invokr.Base.{ℕ, ◌≤◌, ◌<◌, ◌≡◌, max, String, Bool, true, false, none, arith, is_some}
use invokr.Base.Int.{ℤ, pos, pos_part, ltb_ℤ}
use invokr.Json.{Json}
use invokr.Store.{Execution, ExecutionStatus, running, retrying, success, failed, cancelled}
use invokr.Executions.{
  is_claimable, is_cancellable, is_running, claimed, succeed, fail, retry, cancel_row,
}

abbrev pub is_ended : ExecutionStatus → Bool
is_ended success = true
is_ended failed = true
is_ended cancelled = true
is_ended _ = false

-- An execution has at most `max_attempts` attempts, and one if that is less than one.
abbrev pub allowance : ℤ → ℕ
allowance m = max 1 (pos_part m)

pub record IsValid (e : Execution) : Type 0 where
  pub bounded : e.attempt_count ≤ allowance e.max_attempts
  pub fresh : is_cancellable e.status ≡ true → e.attempt_count ≡ 0
  pub retriable : e.status ≡ retrying → ltb_ℤ (pos e.attempt_count) e.max_attempts ≡ true
  pub owned : e.status ≡ running → (is_some e.worker_id ≡ true) × (is_some e.started_at ≡ true)
  pub counted : e.status ≡ running → 0 < e.attempt_count
  pub unowned : e.status ≡ retrying → e.worker_id ≡ none
  pub ended : is_ended e.status ≡ true → is_some e.completed_at ≡ true
  pub unended : is_ended e.status ≡ false → e.completed_at ≡ none

pub claimed-IsValid :
    (now : ℕ) (w : String) (e : Execution)
    → is_claimable e.status ≡ true
    → IsValid e
    → IsValid (claimed now w e)
claimed-IsValid now w e h v = ground arith

pub succeed-IsValid :
    (now : ℕ) (output : Json) (e : Execution)
    → is_running e.status ≡ true
    → IsValid e
    → IsValid (succeed now output e)
succeed-IsValid now output e h v = ground arith

pub fail-IsValid :
    (now : ℕ) (e : Execution) → is_running e.status ≡ true → IsValid e → IsValid (fail now e)
fail-IsValid now e h v = ground arith

pub retry-IsValid :
    (now : ℕ) (ms : ℤ) (e : Execution)
    → is_running e.status ≡ true
    → IsValid e
    → IsValid (retry now ms e)
retry-IsValid now ms e h v = ground arith

pub cancel_row-IsValid :
    (now : ℕ) (e : Execution)
    → is_cancellable e.status ≡ true
    → IsValid e
    → IsValid (cancel_row now e)
cancel_row-IsValid now e h v = ground arith

pub new-IsValid :
    (e : Execution)
    → (e.attempt_count ≡ 0) × (is_cancellable e.status ≡ true) × (e.completed_at ≡ none)
    → IsValid e
new-IsValid e h = ground arith

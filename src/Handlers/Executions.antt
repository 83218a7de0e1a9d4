-- ===== src/Handlers/Executions.antt =====
-- The cancellation of one execution: `cancel` of crates/api/src/handlers/executions.rs.
pub mod Waiting
use Prim.Native.String.{◌++◌}
use invokr.Base.{ℕ, String, not, Option, List}
use invokr.Base.Result.{Result}
use invokr.Store.{Store, Execution}
use invokr.Store.Enums.{execution_status_text}
use invokr.Store.Conn.{begin}
use invokr.Errors.{AppError, execution_not_found, execution_not_cancellable}
use invokr.Executions as Executions
use invokr.Executions.{is_cancellable}
use invokr.Handlers.{Handler, statement, or_reject, refuse_if, then_write, ◌>>=◌, ◌>>◌}

-- The read, and the check of the status.
abbrev pub check_cancellable : String → Handler (Unit {0})
check_cancellable id = do
  row ← statement (Executions.get id)
  e ← or_reject row (execution_not_found id)
  refuse_if (not (is_cancellable e.status))
      (execution_not_cancellable ("Execution is in " ++ execution_status_text e.status ++ " state"))

-- The statement, which looks at the status again.
abbrev pub cancel_row : ℕ → String → Unit {0} → Handler Execution
cancel_row now id nothing = do
  row ← statement (Executions.cancel now id)
  or_reject row (execution_not_cancellable "Could not cancel")

unfoldable pub cancel :
    ℕ
    → String
    → List (Option String)
    → List (Option String)
    → Store
    → Store
    → Result AppError Execution × Store
cancel now id read_faults faults seen s =
    then_write (check_cancellable id (begin seen read_faults)).0 (cancel_row now id) faults s

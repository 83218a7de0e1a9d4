-- ===== src/Dispatch/Internal.antt =====
-- crates/worker/src/dispatcher/internal.rs: the tasks that run inside the worker, on the
-- transaction of the execution. `show` is the text of a database error.
use Prim.Native.String.{◌++◌}
use invokr.Base.{
  and_then, ℕ, String, true, false, Option, none, some, List, [], ◌∷◌, length, str_eq,
}
use invokr.Base.Int.{pos}
use invokr.Base.Result.{Result, ok, err}
use invokr.Json.{Json, str, int, arr, obj, Items, nil, cons, end, field, as_str}
use invokr.Json as Json
use invokr.Store.Conn.{Conn, DbError}
use invokr.Reaper.{reap_schema}
use invokr.Dispatch.{DispatchResult, success, failure, error_json}

unfoldable pub texts : List String → Items
texts [] = nil
texts (s ∷ ss) = cons (str s) (texts ss)

unfoldable pub reaped : (DbError → String) → String → Result DbError (List String) → DispatchResult
reaped show schema_name (ok retired) = success (
    obj (
      field "retired_count" (int (pos (length retired))) (
        field "retired_job_ids" (arr (texts retired))
          (field "schema" (str schema_name) (field "task" (str "reaper") end)))))
reaped show schema_name (err e) = failure (error_json "REAPER_SWEEP_FAILED" (show e))

abbrev pub sweep : (DbError → String) → ℕ → String → Conn → DispatchResult × Conn
sweep show now schema_name c =
    let (r, d) = reap_schema now schema_name c in (reaped show schema_name r, d)

abbrev pub perform : (DbError → String) → ℕ → String → Option String → Conn → DispatchResult × Conn
perform show now schema_name none c = (
  failure (
      error_json "INTERNAL_TASK_MISSING" "INTERNAL endpoint spec is missing required `task` field"),
  c,
)
perform show now schema_name (some task) c = elim (str_eq task "reaper") [
  | true ↦ sweep show now schema_name c
  | false ↦ (failure (error_json "INTERNAL_TASK_UNKNOWN" ("Unknown INTERNAL task: " ++ task)), c)
]

unfoldable pub dispatch : (DbError → String) → ℕ → String → Json → Conn → DispatchResult × Conn
dispatch show now schema_name spec =
    perform show now schema_name (and_then (Json.get "task" spec) as_str)

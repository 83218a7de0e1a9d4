-- ===== src/Executions.antt =====
-- crates/common/src/db/executions.rs: the statements on the table `executions`.
-- `now` is the time at which the transaction began, as PostgreSQL's `now()` is.
pub mod Claim
pub mod Valid
pub mod Machine
pub mod Final
pub mod Newest
use invokr.Base.{
  ℕ, ◌+◌, ◌-◌, ◌*◌, ◌/◌, String, Bool, true, false, not, ◌&&◌, Option, none, some, List, [], ◌∷◌,
  map, leb, ltb, str_eq, if◌then◌else◌, find?, keep, length, is_some,
}
use mathlib.Core.Option as Option
use invokr.Base.Int.{ℤ, pos, pos_part, neg_part, ltb_ℤ}
use invokr.Base.Rows.{update_where}
use invokr.Base.Result.{Result, ok, err}
use invokr.Json.{Json}
use invokr.Store.{
  Store, Execution, ExecutionStatus, pending, queued, running, retrying, success, failed, cancelled,
  EndpointType,
}
use invokr.Store.Conn.{Conn, DbError, unique_violation, query}

-- `status IN ('QUEUED', 'RETRYING', 'PENDING')`.
abbrev pub is_claimable : ExecutionStatus → Bool
is_claimable queued = true
is_claimable retrying = true
is_claimable pending = true
is_claimable _ = false

-- `status IN ('PENDING', 'QUEUED')`.
abbrev pub is_cancellable : ExecutionStatus → Bool
is_cancellable pending = true
is_cancellable queued = true
is_cancellable _ = false

abbrev pub is_running : ExecutionStatus → Bool
is_running running = true
is_running _ = false

-- The rows that the pickup query may take: due, and not locked by another transaction.
abbrev pub is_due : ℕ → (String → Bool) → Execution → Bool
is_due now locked e = is_claimable e.status && leb e.run_at now && not (locked e.execution_id)

abbrev first_of_two : Execution → Option Execution → Execution
first_of_two e none = e
first_of_two e (some r) = if leb e.run_at r.run_at then e else r

-- `WHERE p ORDER BY run_at ASC LIMIT 1`; of rows with one `run_at` PostgreSQL may take any, the
-- model takes the first.
pub earliest : (Execution → Bool) → List Execution → Option Execution
earliest p [] = none
earliest p (e ∷ es) = if p e then some (first_of_two e (earliest p es)) else earliest p es

abbrev pub has_id : String → Execution → Bool
has_id id e = str_eq e.execution_id id

-- The `SET` of the pickup query.
abbrev pub claimed : ℕ → String → Execution → Execution
claimed now worker_id e = record e {
  status = running;
  worker_id = some worker_id;
  started_at = some now;
  attempt_count = e.attempt_count + 1;
}

-- `FOR UPDATE SKIP LOCKED`: `locked` are the rows that other transactions hold.
unfoldable pub claim_row :
    ℕ → (String → Bool) → String → List Execution → Option Execution × List Execution
unfolding earliest
claim_row now locked worker_id t = elim (earliest (is_due now locked) t) [
  | none ↦ (none, t)
  | some e ↦ (
    some (claimed now worker_id e),
    update_where (has_id e.execution_id) (claimed now worker_id) t,
  )
]

-- `(EXTRACT(EPOCH FROM (now() - started_at)) * 1000)::BIGINT`, rounded to the nearest.
abbrev pub elapsed_ms : ℕ → Option ℕ → Option ℕ
elapsed_ms now none = none
elapsed_ms now (some started) = some ((now - started + 500) / 1000)

-- `WHERE execution_id = $1 AND status = 'RUNNING'`.
abbrev pub runs : String → Execution → Bool
runs id e = has_id id e && is_running e.status

abbrev pub succeed : ℕ → Json → Execution → Execution
succeed now output e = record e {
  status = success;
  output = some output;
  completed_at = some now;
  duration_ms = elapsed_ms now e.started_at;
}

abbrev pub fail : ℕ → Execution → Execution
fail now e = record e {
  status = failed;
  completed_at = some now;
  duration_ms = elapsed_ms now e.started_at;
  worker_id = none;
}

-- `now() + backoff_ms * interval '1 millisecond'`.
abbrev pub after_ms : ℕ → ℤ → ℕ
after_ms now ms = now + pos_part ms * 1000 - neg_part ms * 1000

-- `attempt_count >= max_attempts`.
abbrev pub is_exhausted : Execution → Bool
is_exhausted e = not (ltb_ℤ (pos e.attempt_count) e.max_attempts)

-- The `CASE`s of `complete_retry`.
abbrev pub retry : ℕ → ℤ → Execution → Execution
retry now backoff_ms e = record e {
  status = if is_exhausted e then failed else retrying;
  run_at = if is_exhausted e then e.run_at else after_ms now backoff_ms;
  worker_id = none;
  completed_at = if is_exhausted e then some now else none;
  duration_ms = if is_exhausted e then elapsed_ms now e.started_at else none;
}

abbrev pub cancel_row : ℕ → Execution → Execution
cancel_row now e = record e { status = cancelled; completed_at = some now }

abbrev pub set_executions : Store → List Execution → Store
set_executions s t = record s { executions = t }

abbrev pub on_executions :
    {A : Type 0} → (List Execution → A × List Execution) → Store → Result DbError (A × Store)
on_executions f s = let (a, t) = f s.executions in ok (a, set_executions s t)

unfoldable pub claim :
    ℕ → (String → Bool) → String → Conn → Result DbError (Option Execution) × Conn
unfolding claim_row query
claim now locked worker_id = query (on_executions (claim_row now locked worker_id))

unfoldable pub complete_success : ℕ → String → Json → Conn → Result DbError (Unit {0}) × Conn
unfolding query
complete_success now id output =
    query (on_executions (λ t. (tt, update_where (runs id) (succeed now output) t)))

unfoldable pub complete_retry : ℕ → String → ℤ → Conn → Result DbError (Unit {0}) × Conn
unfolding query
complete_retry now id backoff_ms =
    query (on_executions (λ t. (tt, update_where (runs id) (retry now backoff_ms) t)))

unfoldable pub complete_failed : ℕ → String → Conn → Result DbError (Unit {0}) × Conn
unfolding query
complete_failed now id = query (on_executions (λ t. (tt, update_where (runs id) (fail now) t)))

unfoldable pub get : String → Conn → Result DbError (Option Execution) × Conn
unfolding query
get id = query (on_executions (λ t. (find? (has_id id) t, t)))

-- The row as `RETURNING *` gives it.
unfoldable pub cancel : ℕ → String → Conn → Result DbError (Option Execution) × Conn
unfolding query
cancel now id = query (
    on_executions (λ t. (
      Option.map (cancel_row now) (find? (λ e. has_id id e && is_cancellable e.status) t),
      update_where (λ e. has_id id e && is_cancellable e.status) (cancel_row now) t,
    )))

abbrev pub of_job : String → Execution → Bool
of_job job_id e = str_eq e.job_id job_id

unfoldable pub cancel_pending_for_job : ℕ → String → Conn → Result DbError ℕ × Conn
unfolding query
cancel_pending_for_job now job_id = query (
    on_executions (λ t. (
      length (keep (λ e. of_job job_id e && is_cancellable e.status) t),
      update_where (λ e. of_job job_id e && is_cancellable e.status) (cancel_row now) t,
    )))

abbrev same_key : Option String → Option String → Bool
same_key (some k) (some j) = str_eq k j
same_key _ _ = false

-- The primary key, and the unique index on `(job_id, idempotency_key)`.
abbrev pub takes_id : Execution → Execution → Bool
takes_id e x = str_eq x.execution_id e.execution_id

abbrev pub takes_key : Execution → Execution → Bool
takes_key e x = str_eq x.job_id e.job_id && same_key x.idempotency_key e.idempotency_key

-- A row as the inserts of this program make it: no attempt, no worker, no end.
abbrev pub new_row :
    String
    → String
    → String
    → EndpointType
    → Option String
    → ExecutionStatus
    → Option Json
    → ℕ
    → ℤ
    → ℕ
    → Execution
new_row id job_id endpoint endpoint_type key status input run_at max_attempts now = record {
  execution_id = id;
  job_id = job_id;
  endpoint = endpoint;
  endpoint_type = endpoint_type;
  idempotency_key = key;
  status = status;
  input = input;
  output = none;
  attempt_count = 0;
  max_attempts = max_attempts;
  worker_id = none;
  run_at = run_at;
  started_at = none;
  completed_at = none;
  duration_ms = none;
  created_at = now;
}

-- `INSERT INTO executions`, which a unique index may refuse.
unfoldable pub insert_row : Execution → List Execution → Result DbError (List Execution)
insert_row e t =
    if is_some (find? (takes_id e) t)
    then err (unique_violation "pk_executions")
    else if is_some (find? (takes_key e) t)
    then err (unique_violation "idx_executions_cron_dedup")
    else ok (e ∷ t)

-- `WHERE p ORDER BY created_at DESC LIMIT 1`; of rows of one time PostgreSQL may take any.
abbrev pub newest : (Execution → Bool) → List Execution → Option Execution
newest p [] = none
newest p (e ∷ es) =
    let rest = newest p es in
    if p e
    then some (elim rest [ none ↦ e | some r ↦ if ltb e.created_at r.created_at then r else e ])
    else rest

unfoldable pub get_for_job : String → Conn → Result DbError (Option Execution) × Conn
get_for_job job_id = query (λ s. ok (newest (of_job job_id) s.executions, s))

-- ===== src/Pipeline/Ending.antt =====
-- How the pipeline of crates/worker/src/pipeline.rs ends an execution, on every path.
use invokr.Base.{
  ℕ, and_then, ◌≡◌, inl, inr, String, true, Option, none, some, List, arith, Bool-cases,
  Option-cases, str_eq, find?,
}
use invokr.Base.Int.{ℤ}
use invokr.Base.Rows.{update_where}
use invokr.Base.Result.{Result, ok, err}
use invokr.Json.{Json, get, as_str}
use invokr.Store.{
  Execution, Endpoint, EndpointType, http, kafka, redis_stream, internal, Attempt, ExecutionLog,
  AttemptStatus, Level, Message,
}
use invokr.Store.Conn.{Conn, DbError, query}
use invokr.Endpoints as Endpoints
use invokr.Endpoints.{RetryPolicy, get_retry_policy}
use invokr.Executions.{
  on_executions, runs, succeed, fail, retry, complete_success, complete_failed, complete_retry,
}
use invokr.Backoff.{compute_backoff}
use invokr.Dispatch.{DispatchResult, success, failure}
use invokr.Dispatch.Internal as Internal
use invokr.Pipeline.Load.{Env, World}
use invokr.Pipeline.Table.{
  TableIs, query-TableIs, Moves, load_config-TableIs, load_secrets-TableIs, reap_schema-TableIs,
}
use invokr.Pipeline.{
  Task, add_attempt, add_log, ignore, insert_attempt, insert_log, record_attempt, log_execution,
  mark_failed, unresolved, inject_body, dispatch_as, may_retry, wait, finish, deliver, with_secrets,
  with_config, config_of, with_endpoint, process_execution,
}

-- What an execution's row ends in.
pub data Ending : Type 0 where
  succeeded : Json → Ending
  retried : ℤ → Ending
  gave_up : Ending

abbrev pub ended_row : ℕ → Ending → Execution → Execution
ended_row now (succeeded output) = succeed now output
ended_row now (retried ms) = retry now ms
ended_row now gave_up = fail now

-- A retry is asked for only with an attempt left.
abbrev pub IsAllowed : Task → Ending → Type 0
IsAllowed t (retried ms) = may_retry t ≡ true
IsAllowed t _ = Unit {0}

abbrev pub after_ending : Env → Task → Ending → List Execution → List Execution
after_ending env t o = update_where (runs t.execution_id) (ended_row env.now o)

-- A panic, or the row is ended once and for all in one of the three ways.
abbrev pub EndsIn : Env → Task → List Execution → Option World → Type 0
EndsIn env t u none = Unit {0}
EndsIn env t u (some w) = (o : Ending) × IsAllowed t o × TableIs (after_ending env t o u) w.conn

add_attempt-Moves : (a : Attempt) → Moves (λ r. r) (add_attempt a)
add_attempt-Moves a s r x e = ground arith

add_log-Moves : (l : ExecutionLog) → Moves (λ r. r) (add_log l)
add_log-Moves l s r x e = ground arith

module _ (env : Env) (t : Task) (u : List Execution) where
  record_attempt-TableIs :
      (s : AttemptStatus) (output reason : Option Json) (w : World)
      → TableIs u w.conn
      → TableIs u (record_attempt env t s output reason w).conn
  unfolding record_attempt insert_attempt
  record_attempt-TableIs s output reason w =
      query-TableIs (λ r. r) (add_attempt _) u w.conn (add_attempt-Moves _)

  log_execution-TableIs :
      (l : Level) (m : Message) (w : World)
      → TableIs u w.conn
      → TableIs u (log_execution t l m w).conn
  unfolding log_execution insert_log
  log_execution-TableIs l m w = query-TableIs (λ r. r) (add_log _) u w.conn (add_log-Moves _)

  ending-TableIs :
      (o : Ending) (w : World)
      → TableIs u w.conn
      → TableIs
          (after_ending env t o u)
          (query (on_executions (λ r. (tt, after_ending env t o r))) w.conn).1
  ending-TableIs o w =
      query-TableIs (after_ending env t o) (on_executions (λ r. (tt, after_ending env t o r))) u
        w.conn (λ s r a e. cc)

  mark_failed-TableIs :
      (w : World)
      → TableIs u w.conn
      → TableIs (after_ending env t gave_up u) (mark_failed env t w).conn
  unfolding complete_failed
  mark_failed-TableIs w = ending-TableIs gave_up w

  success-TableIs :
      (output : Json) (w : World)
      → TableIs u w.conn
      → TableIs
          (after_ending env t (succeeded output) u)
          (ignore (complete_success env.now t.execution_id output) w).conn
  unfolding complete_success
  success-TableIs output w = ending-TableIs (succeeded output) w

  retry-TableIs :
      (ms : ℤ) (w : World)
      → TableIs u w.conn
      → TableIs
          (after_ending env t (retried ms) u)
          (ignore (complete_retry env.now t.execution_id ms) w).conn
  unfolding complete_retry
  retry-TableIs ms w = ending-TableIs (retried ms) w

-- The rest of each path, from the statement that ends the row.
module _ (env : Env) (t : Task) (u : List Execution) where
  logged :
      (o : Ending) (l : Level) (m : Message) (w : World)
      → IsAllowed t o
      → TableIs (after_ending env t o u) w.conn
      → EndsIn env t u (some (log_execution t l m w))
  logged o l m w allowed is =
      (o, allowed, log_execution-TableIs env t (after_ending env t o u) l m w is)

  unresolved-EndsIn :
      (text : String) (m : Message) (w : World)
      → TableIs u w.conn
      → EndsIn env t u (some (unresolved env t text m w))
  unfolding unresolved
  unresolved-EndsIn text m w is = logged gave_up Level.error m _ tt (
      record_attempt-TableIs env t (after_ending env t gave_up u) AttemptStatus.failed none _ _
        (mark_failed-TableIs env t u w is))

  wait-EndsIn :
      (e : Json) (w : World) (ms : Option ℤ)
      → may_retry t ≡ true
      → TableIs u w.conn
      → EndsIn env t u (wait env t e w ms)
  wait-EndsIn e w none allowed is = tt
  wait-EndsIn e w (some ms) allowed is =
      logged (retried ms) Level.warn _ _ allowed (retry-TableIs env t u ms w is)

  finish-EndsIn :
      (policy : RetryPolicy) (r : DispatchResult × World)
      → TableIs u r.1.conn
      → EndsIn env t u (finish env t policy r)
  unfolding finish
  finish-EndsIn policy (success output, w) is = logged (succeeded output) Level.info _ _ tt (
      success-TableIs env t u output
        (record_attempt env t AttemptStatus.succeeded (some output) none w)
        (record_attempt-TableIs env t u AttemptStatus.succeeded (some output) none w is))
  finish-EndsIn policy (failure e, w) is =
      let noted : TableIs u (record_attempt env t AttemptStatus.failed none (some e) w).conn =
        record_attempt-TableIs env t u AttemptStatus.failed none (some e) w is in
      elim (Bool-cases (may_retry t)) [
        | inl again ↦
            rw again (wait-EndsIn e _ (compute_backoff env.rand policy t.attempt_count) again noted)
        | inr last ↦ rw last (
            logged gave_up Level.error _ _ tt (
              mark_failed-TableIs env t u
                (record_attempt env t AttemptStatus.failed none (some e) w) noted))
      ]

  perform-TableIs :
      (task : Option String) (c : Conn)
      → TableIs u c
      → TableIs u (Internal.perform env.show env.now t.schema_name task c).1
  perform-TableIs none c is = is
  perform-TableIs (some task) c is = elim (Bool-cases (str_eq task "reaper")) [
    | inl reaper ↦ rw (reaper, Internal.perform) (reap_schema-TableIs u env.now t.schema_name c is)
    | inr another ↦ rw (another, Internal.perform) is
  ]

  dispatch_as-TableIs :
      (type : EndpointType) (spec : Json) (w : World)
      → TableIs u w.conn
      → TableIs u (dispatch_as type env t spec w).1.conn
  unfolding dispatch_as Internal.dispatch
  dispatch_as-TableIs http spec w is = is
  dispatch_as-TableIs kafka spec w is = is
  dispatch_as-TableIs redis_stream spec w is = is
  dispatch_as-TableIs internal spec w is =
      perform-TableIs (and_then (get "task" spec) as_str) w.conn is

  deliver-EndsIn :
      (ep : Endpoint) (w : World) (r : Result String Json)
      → TableIs u w.conn
      → EndsIn env t u (deliver env t ep w r)
  deliver-EndsIn ep w (err e) is = unresolved-EndsIn e _ w is
  deliver-EndsIn ep w (ok spec) is = finish-EndsIn (get_retry_policy ep) _ (
      dispatch_as-TableIs t.endpoint_type (inject_body spec t.input) _
        (log_execution-TableIs env t u Level.info _ w is))

  with_secrets-EndsIn :
      (ep : Endpoint) (config : List (String × Json))
      (r : Result String (List (String × String)) × World)
      → TableIs u r.1.conn
      → EndsIn env t u (with_secrets env t ep config r)
  with_secrets-EndsIn ep config (err e, w) is = unresolved-EndsIn e _ w is
  with_secrets-EndsIn ep config (ok secrets, w) is = deliver-EndsIn ep w _ is

  with_config-EndsIn :
      (ep : Endpoint) (r : Result String (List (String × Json)) × World)
      → TableIs u r.1.conn
      → EndsIn env t u (with_config env t ep r)
  with_config-EndsIn ep (err e, w) is = unresolved-EndsIn e _ w is
  with_config-EndsIn ep (ok config, w) is =
      with_secrets-EndsIn ep config _ (load_secrets-TableIs u env ep.spec w is)

  config_of-TableIs :
      (ep : Endpoint) (w : World) → TableIs u w.conn → TableIs u (config_of env ep w).1.conn
  config_of-TableIs ep w is = elim (Option-cases ep.config_ref) [
    | inl nothing ↦ rw nothing is
    | inr (name, found) ↦ rw found (load_config-TableIs u env name w is)
  ]

  with_endpoint-EndsIn :
      (r : Result DbError (Option Endpoint) × World)
      → TableIs u r.1.conn
      → EndsIn env t u (with_endpoint env t r)
  with_endpoint-EndsIn (err e, w) is = (gave_up, tt, mark_failed-TableIs env t u w is)
  with_endpoint-EndsIn (ok none, w) is =
      logged gave_up Level.error _ _ tt (mark_failed-TableIs env t u w is)
  with_endpoint-EndsIn (ok (some ep), w) is =
      with_config-EndsIn ep (config_of env ep w) (config_of-TableIs ep w is)

  -- On every path of the pipeline (a missing endpoint, a database error, a config, secret or
  -- template that cannot be resolved, a delivery that succeeds or fails, a sweep) either the
  -- process panics, or the transaction is lost, or the table is left with exactly one change: the
  -- execution's RUNNING row has ended as SUCCESS, as FAILED, or for a retry, and the latter only
  -- if an attempt is left.
  pub process_execution-EndsIn :
      (w : World) → TableIs u w.conn → EndsIn env t u (process_execution env t w)
  unfolding process_execution Endpoints.get
  process_execution-EndsIn w is = with_endpoint-EndsIn _ (
      query-TableIs (λ r. r) (λ s. ok (find? (Endpoints.named t.endpoint) s.endpoints, s)) u w.conn
        (λ s r a e. cc) is)

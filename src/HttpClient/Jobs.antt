-- ===== src/HttpClient/Jobs.antt =====
-- crates/worker/src/client.rs: the calls of `InvokrHttpClient` on jobs, executions and workspaces.
use Prim.Native.String.{◌++◌}
use invokr.Base.{ℕ, zero, suc, String, Bool, Option, none, some, ◌==◌, if◌then◌else◌, ◌||◌}
use invokr.Base.Int.{ℤ, pos, negsuc}
use invokr.Json.{Json, Fields, null, str, int, obj, field, end, insert_field, as_str}
use invokr.Json as Values
use invokr.Store.{Execution}
use invokr.Library.{JobTrigger, immediate, delayed, cron}
use invokr.HttpClient.{
  InvokrHttpClient, get, post, Response, refused, not_json, missing, not_a_row, workspace_request,
  bare, authed, or_null, is_success, Call, ◌>>=◌, return, bail, or_fail, Send, sent, check, checked,
}

-- `insert`, where there is something to insert.
abbrev pub insert_some : String → Option Json → Fields → Fields
insert_some k (some v) fs = insert_field k v fs
insert_some k none fs = fs

-- A time in JSON is the text that `chrono` gives it.
abbrev pub json_of_time : (ℕ → String) → Option ℕ → Json
json_of_time show_time (some t) = str (show_time t)
json_of_time show_time none = null

abbrev pub trigger_str : JobTrigger → String
trigger_str immediate = "IMMEDIATE"
trigger_str (delayed run_at) = "DELAYED"
trigger_str (cron expression timezone starts_at ends_at first) = "CRON"

-- The first run of a CRON job is not sent.
abbrev pub insert_extra : (ℕ → String) → JobTrigger → Fields → Fields
insert_extra show_time immediate body = body
insert_extra show_time (delayed run_at) body = insert_field "run_at" (str (show_time run_at)) body
insert_extra show_time (cron expression timezone starts_at ends_at first) body =
    insert_field "cron" (str expression) (
      insert_field "timezone" (str timezone) (
        insert_field "starts_at" (json_of_time show_time starts_at)
          (insert_field "ends_at" (json_of_time show_time ends_at) body)))

abbrev pub sent_attempts : ℤ → Option Json
sent_attempts (pos zero) = none
sent_attempts (pos (suc n)) = some (int (pos (suc n)))
sent_attempts (negsuc n) = none

abbrev pub sent_key : Option String → Option Json
sent_key none = none
sent_key (some key) = some (str key)

unfoldable pub job_body : (ℕ → String) → String → Json → ℤ → JobTrigger → Option String → Fields
job_body show_time endpoint input max_attempts trigger idempotency_key =
    let body =
      field "endpoint" (str endpoint)
        (field "input" input (field "trigger" (str (trigger_str trigger)) end)) in
    insert_extra show_time trigger (
      insert_some "idempotency_key" (sent_key idempotency_key)
        (insert_some "max_attempts" (sent_attempts max_attempts) body))

-- `json["data"]["job_id"]`, or the id of the execution in the answer.
abbrev pub member : String → Json → Json
member k v = or_null (Values.get k v)

abbrev pub id_of : JobTrigger → Json → Option String
id_of (cron expression timezone starts_at ends_at first) answer =
    as_str (member "job_id" (member "data" answer))
id_of _ answer = as_str (member "execution_id" (member "execution" (member "data" answer)))

abbrev pub id_field : JobTrigger → String
id_field (cron expression timezone starts_at ends_at first) = "data.job_id"
id_field _ = "data.execution.execution_id"

unfoldable pub create_job :
    {S : Type 0}
    → InvokrHttpClient
    → Send S
    → (ℕ → String)
    → String
    → String
    → Json
    → ℤ
    → JobTrigger
    → Option String
    → Call S String
create_job client send show_time schema_name endpoint input max_attempts trigger key = do
  resp ← checked send "create_job" (
      workspace_request client schema_name post "/jobs"
        (some (obj (job_body show_time endpoint input max_attempts trigger key))))
  answer ← or_fail resp.json not_json
  or_fail (id_of trigger answer) (missing (id_field trigger))

abbrev pub is_conflict_or_success : ℕ → Bool
is_conflict_or_success status = is_success status || status == 409

abbrev pub provisioned : {S : Type 0} → Response → Call S (Unit {0})
provisioned resp =
    if is_conflict_or_success resp.status
    then return tt
    else bail (refused "provision_workspace" resp.status resp.text)

unfoldable pub provision_workspace :
    {S : Type 0} → InvokrHttpClient → Send S → String → Call S (Unit {0})
provision_workspace client send schema_name = do
  resp ← sent send (
      authed client (
        bare client post ("/orgs/" ++ client.org_id ++ "/workspaces")
          (some (obj (field "name" (str schema_name) (field "slug" (str schema_name) end))))))
  provisioned resp

unfoldable pub cancel_job :
    {S : Type 0} → InvokrHttpClient → Send S → String → String → Call S (Unit {0})
cancel_job client send schema_name job_id = do
  answer ←
      checked send "cancel_job"
        (workspace_request client schema_name post ("/jobs/" ++ job_id ++ "/cancel") none)
  return tt

-- `read` is how serde reads a row of `executions`.
abbrev pub found : {S : Type 0} → (Json → Option Execution) → Response → Call S (Option Execution)
found read resp = if resp.status == 404 then return none else (do
  answer ← check "get_execution" resp
  json ← or_fail answer.json not_json
  row ← or_fail (read (member "data" json)) not_a_row
  return (some row))

unfoldable pub get_execution :
    {S : Type 0}
    → InvokrHttpClient
    → Send S
    → (Json → Option Execution)
    → String
    → String
    → Call S (Option Execution)
get_execution client send read schema_name execution_id = do
  resp ← sent send (workspace_request client schema_name get ("/executions/" ++ execution_id) none)
  found read resp

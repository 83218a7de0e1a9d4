-- ===== src/Library.antt =====
-- crates/worker/src/client.rs: `InvokrLibraryClient`, with which a program embeds the scheduler. Its
-- calls run on a connection with no transaction: each statement commits by itself.
pub mod Jobs
pub mod Upserts
use invokr.Base.{ℕ, String, Option, none, some, List, get_or, if◌then◌else◌}
use invokr.Base.Int.{ℤ}
use invokr.Base.Result.{Result, ok, err}
use invokr.Json.{Json}
use invokr.Store.{Store, Job, Endpoint, EndpointType, Execution}
use invokr.Store.Conn.{Conn, DbError, begin, M}
use invokr.Crypto.{Cipher, encrypt}
use invokr.Tenant.{validate_table_prefix}
use invokr.Pipeline.Load.{get_secret}
use invokr.Secrets as Secrets
use invokr.Endpoints as Endpoints
use invokr.Executions as Executions
use invokr.Jobs as DbJobs
use invokr.Jobs.{is_cron}
use invokr.Jobs.Cron.{unregister_pg_cron}

pub data JobTrigger : Type 0 where
  immediate : JobTrigger
  delayed : ℕ → JobTrigger
  cron : String → String → Option ℕ → Option ℕ → ℕ → JobTrigger

-- What `anyhow::Error` holds.
pub data ClientError : Type 0 where
  endpoint_not_found : String → String → ClientError
  job_not_found : String → ClientError
  crypto_error : String → ClientError
  bad_prefix : String → ClientError
  db_error : DbError → ClientError

-- A call, with `?` after each step.
abbrev pub Call : Type 0 → Type 0
Call A = Conn → Result ClientError A × Conn

abbrev pub follow :
    {A B : Type 0} → (A → Call B) → Result ClientError A × Conn → Result ClientError B × Conn
follow next (ok a, c) = next a c
follow next (err e, c) = (err e, c)

infixl 5 ◌>>=◌
abbrev pub ◌>>=◌ : {A B : Type 0} → Call A → (A → Call B) → Call B
(step >>= next) c = follow next (step c)

abbrev pub answered : {A : Type 0} → Result DbError A × Conn → Result ClientError A × Conn
answered (ok a, c) = (ok a, c)
answered (err e, c) = (err (db_error e), c)

abbrev pub statement : {A : Type 0} → M A → Call A
statement m c = answered (m c)

abbrev pub return : {A : Type 0} → A → Call A
return a c = (ok a, c)

abbrev pub or_reject : {A : Type 0} → Option A → ClientError → Call A
or_reject (some a) e c = (ok a, c)
or_reject none e c = (err e, c)

abbrev pub sealed : Result String (List ℕ) → Call (List ℕ)
sealed (ok v) c = (ok v, c)
sealed (err e) c = (err (crypto_error e), c)

-- What is committed after a call.
abbrev pub autocommitted : {A : Type 0} → Result ClientError A × Conn → Result ClientError A × Store
autocommitted r = (r.0, r.1.store)

-- The client itself, less its pool and its caches; `nonce` is what the next encryption draws.
pub record InvokrLibraryClient : Type 0 where
  pub table_prefix : String
  pub encryption_key : String
  pub cipher : Cipher
  pub nonce : List ℕ

abbrev pub new : String → String → Cipher → List ℕ → Result ClientError InvokrLibraryClient
new table_prefix encryption_key cipher nonce =
    if validate_table_prefix table_prefix
    then ok (record {
      table_prefix = table_prefix;
      encryption_key = encryption_key;
      cipher = cipher;
      nonce = nonce;
    })
    else err (bad_prefix table_prefix)

-- The time of a call, and the ids that PostgreSQL draws in it.
pub record Env : Type 0 where
  pub now : ℕ
  pub job_id : String
  pub execution_id : String
  pub schema_name : String

abbrev pub insert : Env → String → Json → ℤ → JobTrigger → Option String → Endpoint → Call String
insert env endpoint input max_attempts immediate key ep = do
  result ← statement (
      DbJobs.create_immediate env.now env.job_id env.execution_id endpoint ep.endpoint_type
        (get_or key "") (some input) max_attempts)
  return result.execution_id
insert env endpoint input max_attempts (delayed run_at) key ep = do
  result ← statement (
      DbJobs.create_delayed env.now env.job_id env.execution_id endpoint ep.endpoint_type
        (get_or key "") (some input) run_at max_attempts)
  return result.execution_id
insert env endpoint input max_attempts (cron expression timezone starts_at ends_at first) key ep =
    do
      job ← statement (
          DbJobs.create_cron env.now env.job_id endpoint ep.endpoint_type key (some input)
            expression timezone starts_at ends_at first)
      return job.job_id

abbrev pub create_body : Env → String → Json → ℤ → JobTrigger → Option String → Call String
create_body env endpoint input max_attempts trigger key = do
  row ← statement (Endpoints.get endpoint)
  ep ← or_reject row (endpoint_not_found endpoint env.schema_name)
  insert env endpoint input max_attempts trigger key ep

unfoldable pub create_job :
    Env
    → String
    → Json
    → ℤ
    → JobTrigger
    → Option String
    → List (Option String)
    → Store
    → Result ClientError String × Store
create_job env endpoint input max_attempts trigger key faults s =
    autocommitted (create_body env endpoint input max_attempts trigger key (begin s faults))

abbrev pub put_endpoint :
    ℕ → String → EndpointType → Json → Option Json → Option Endpoint → Call (Unit {0})
put_endpoint now name endpoint_type spec retry_policy none = do
  row ← statement (Endpoints.create now name endpoint_type none none spec retry_policy)
  return tt
put_endpoint now name endpoint_type spec retry_policy (some existing) = do
  row ← statement (Endpoints.update now name (some spec) none none retry_policy)
  return tt

abbrev pub register_body : ℕ → String → EndpointType → Json → Option Json → Call (Unit {0})
register_body now name endpoint_type spec retry_policy = do
  existing ← statement (Endpoints.get name)
  put_endpoint now name endpoint_type spec retry_policy existing

unfoldable pub register_endpoint :
    ℕ
    → String
    → EndpointType
    → Json
    → Option Json
    → List (Option String)
    → Store
    → Result ClientError (Unit {0}) × Store
register_endpoint now name endpoint_type spec retry_policy faults s =
    autocommitted (register_body now name endpoint_type spec retry_policy (begin s faults))

-- Whether a row has been deleted is not looked at.
abbrev pub ignore : {A : Type 0} → M A → Call (Unit {0})
ignore m = do answer ← statement m; return tt

unfoldable pub delete_endpoint :
    String → List (Option String) → Store → Result ClientError (Unit {0}) × Store
delete_endpoint name faults s = autocommitted (ignore (Endpoints.delete name) (begin s faults))

abbrev pub put_secret : String → List ℕ → Option (List ℕ) → Call (Unit {0})
put_secret name encrypted (some old) = ignore (Secrets.update name encrypted)
put_secret name encrypted none = ignore (Secrets.create name encrypted)

abbrev pub upsert_body : InvokrLibraryClient → String → String → Call (Unit {0})
upsert_body client name plaintext = do
  encrypted ← sealed (encrypt client.cipher client.nonce plaintext client.encryption_key)
  old ← statement (get_secret name)
  put_secret name encrypted old

unfoldable pub upsert_secret :
    InvokrLibraryClient
    → String
    → String
    → List (Option String)
    → Store
    → Result ClientError (Unit {0}) × Store
upsert_secret client name plaintext faults s =
    autocommitted (upsert_body client name plaintext (begin s faults))

unfoldable pub delete_secret :
    String → List (Option String) → Store → Result ClientError (Unit {0}) × Store
delete_secret name faults s = autocommitted (ignore (Secrets.delete name) (begin s faults))

abbrev pub cancel_waiting : ℕ → String → Job → Call (Unit {0})
cancel_waiting now job_id job =
    if is_cron job.trigger_type
    then return tt
    else ignore (Executions.cancel_pending_for_job now job_id)

abbrev pub unschedule : String → String → Job → Call (Unit {0})
unschedule schema_name job_id job =
    if is_cron job.trigger_type then ignore (unregister_pg_cron schema_name job_id) else return tt

abbrev pub cancel_found : ℕ → String → String → Job → Call (Unit {0})
cancel_found now schema_name job_id job = do
  waiting ← cancel_waiting now job_id job
  row ← statement (DbJobs.cancel now job_id)
  unschedule schema_name job_id job

abbrev pub cancel_body : ℕ → String → String → Call (Unit {0})
cancel_body now schema_name job_id = do
  row ← statement (DbJobs.get job_id)
  job ← or_reject row (job_not_found job_id)
  cancel_found now schema_name job_id job

unfoldable pub cancel_job :
    ℕ → String → String → List (Option String) → Store → Result ClientError (Unit {0}) × Store
cancel_job now schema_name job_id faults s =
    autocommitted (cancel_body now schema_name job_id (begin s faults))

unfoldable pub get_execution :
    String → List (Option String) → Store → Result ClientError (Option Execution)
get_execution id faults s = (statement (Executions.get id) (begin s faults)).0

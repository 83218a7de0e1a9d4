-- ===== src/Poller.antt =====
-- crates/worker/src/poller.rs: one round of the worker over the workspaces. Run holds the loop around
-- it.
pub mod Round
pub mod Commits
pub mod Progress
pub mod Run
use invokr.Base.{
  String, Bool, true, false, Option, none, some, List, [], ◌∷◌, get_or, if◌then◌else◌,
}
use invokr.Base.Result.{Result, ok, err}
use invokr.Json.{Json}
use invokr.Store.{Store, Execution, Job}
use invokr.Store.Conn.{DbError, begin, commit}
use invokr.Cache.{Cache}
use invokr.Executions as Executions
use invokr.Jobs as Jobs
use invokr.Pipeline.Load.{Env, World, exec}
use invokr.Pipeline.{Task, process_execution, ignore}

-- A workspace as a round meets it: its committed store, and what the server does to the round's
-- transaction. A commit that is answered with an error is taken not to have happened.
pub record Workspace : Type 0 where
  pub schema_name : String
  pub store : Store
  pub env : Env
  pub begins : Bool
  pub faults : List (Option String)
  pub commits : Bool

-- The caches of the worker's process, shared by all workspaces.
pub record Caches : Type 0 where
  pub configs : Cache Json
  pub secrets : Cache String

abbrev pub task_of : String → Execution → Job → Task
task_of schema_name e j = record {
  schema_name = schema_name;
  execution_id = e.execution_id;
  idempotency_key = get_or j.idempotency_key e.execution_id;
  job_id = e.job_id;
  endpoint = e.endpoint;
  endpoint_type = e.endpoint_type;
  input = e.input;
  attempt_count = e.attempt_count;
  max_attempts = e.max_attempts;
}

-- How a workspace ends its part of the round: no transaction could be opened, or it is dropped, and
-- the next workspace is tried (`continue`); the round is over; or the task has panicked.
pub data Turn : Type 0 where
  unopened : Turn
  dropped : World → Turn
  done : World → Turn
  panicked : Turn

abbrev pub finished : Option World → Turn
finished (some w) = done w
finished none = panicked

abbrev pub with_job : Workspace → Execution → Result DbError (Option Job) × World → Turn
with_job s e (ok (some j), w) = finished (process_execution s.env (task_of s.schema_name e j) w)
with_job s e (ok none, w) = dropped w
-- The mark of failure is made on the transaction that `continue` then drops.
with_job s e (err d, w) = dropped (ignore (Executions.complete_failed s.env.now e.execution_id) w)

abbrev pub with_claim : Workspace → Result DbError (Option Execution) × World → Turn
with_claim s (ok (some e), w) = with_job s e (exec (Jobs.get e.job_id) w)
with_claim s (ok none, w) = dropped w
with_claim s (err d, w) = dropped w

abbrev pub opened : Workspace → Caches → World
opened s c = record {
  conn = begin s.store s.faults;
  config_cache = c.configs;
  secret_cache = c.secrets;
}

unfoldable pub turn : Workspace → Caches → Turn
turn s c =
    if s.begins
    then with_claim s (exec (Executions.claim s.env.now s.env.locked s.env.worker_id) (opened s c))
    else unopened

-- What is committed in a workspace whose turn is over.
abbrev pub committed : Workspace → World → Workspace
committed s w = record s { store = if s.commits then commit s.store w.conn else s.store }

abbrev pub caches_of : World → Caches
caches_of w = record { configs = w.config_cache; secrets = w.secret_cache }

-- Whether an execution was found, with the workspaces and the caches after the round.
pub record Outcome : Type 0 where
  pub found : Bool
  pub workspaces : List Workspace
  pub caches : Caches

abbrev pub behind : Workspace → Outcome → Outcome
behind s r = record r { workspaces = s ∷ r.workspaces }

abbrev pub taken : Workspace → List Workspace → Caches → Outcome → Turn → Outcome
taken s ss c rest unopened = behind s rest
taken s ss c rest (dropped w) = behind s rest
taken s ss c rest (done w) = record {
  found = true;
  workspaces = committed s w ∷ ss;
  caches = caches_of w;
}
-- A panic ends the task with its transaction and without an answer, so the loop goes on as after
-- work; what the caches had taken in before it is left out here.
taken s ss c rest panicked = record { found = true; workspaces = s ∷ ss; caches = c }

unfoldable pub claim_and_process : List Workspace → Caches → Outcome
claim_and_process [] c = record { found = false; workspaces = []; caches = c }
claim_and_process (s ∷ ss) c = let rest = claim_and_process ss c in taken s ss c rest (turn s c)

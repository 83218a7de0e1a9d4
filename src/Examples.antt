-- ===== src/Examples.antt =====
-- A small workspace, on which the statements are tried.
pub mod Table
pub mod Worker
pub mod Parts
pub mod Requests
pub mod JobRequests
pub mod Listing
pub mod Embedded
pub mod Queries
pub mod Services
pub mod Tenancy
pub mod Turns
pub mod Workspaces
use invokr.Base.{str_eq, if◌then◌else◌, String, Bool, true, false, none, some, [], ◌∷◌}
use invokr.Base.Int.{pos}
use invokr.Base.Result.{ok, err}
use invokr.Json.{str, obj, end, field}
use invokr.Store.{Store, Execution, Job, Endpoint, running, queued, http, cron}
use invokr.Store.Conn.{Conn, begin}
use invokr.Executions.{new_row}
use invokr.Jobs.{new_job}
use invokr.Crypto.{Cipher}
use invokr.Dispatch.Http.{Request, Reply, response}
use invokr.Pipeline.Load.{Env, World}
use invokr.Pipeline.{Task}
use invokr.Poller.{Workspace, Caches}

abbrev pub nobody : String → Bool
nobody id = false

abbrev pub everybody : String → Bool
everybody id = true

abbrev pub row : Execution
row = new_row "e1" "j1" "hook" http (some "k") queued none 5 (pos 2) 5

abbrev pub running_row : Execution
running_row = record row {
  status = running;
  attempt_count = 1;
  worker_id = some "w";
  started_at = some 9;
}

abbrev pub hook : Endpoint
hook = record {
  name = "hook";
  endpoint_type = http;
  payload_spec_ref = none;
  config_ref = none;
  spec = obj (field "url" (str "http://x/{{input.a}}") end);
  retry_policy = none;
  created_at = 0;
  updated_at = 0;
}

abbrev pub nightly : Job
nightly = record (new_job "j1" "hook" http cron none none 1) {
  cron_expression = some "0 0 * * *";
  cron_ends_at = some 20;
}

abbrev pub store : Store
store = record {
  endpoints = hook ∷ [];
  configs = [];
  secrets = [];
  payload_specs = [];
  jobs = nightly ∷ [];
  executions = row ∷ [];
  attempts = [];
  logs = [];
  cron_jobs = record { jobname = "invokr_ws_j1"; schedule = "0 0 * * *"; job_id = "j1" } ∷ [];
}

abbrev pub live : Conn
live = begin store []

-- A cipher that knows one text only, and opens what it seals.
abbrev pub one_text : Cipher
one_text = record {
  encrypt = λ key nonce text. if str_eq text "abc" then ok (7 ∷ []) else err "unknown";
  decrypt = λ key nonce sealed. ok "abc";
}

abbrev pub answers_200 : Request → Reply
answers_200 r = response 200 "fine"

abbrev pub env : Env
env = record {
  now = 10;
  worker_id = "w";
  locked = nobody;
  started_at = 10;
  recorded_at = 2010;
  completed_at = 2010;
  instant = 0;
  encryption_key = "";
  cipher = one_text;
  http_client = answers_200;
  producer = record { create_error = λ c. none; send = λ c m. ok (pos 0, pos 1) };
  redis = record { open_error = λ u. none; connect_error = λ u. none; query = λ u a. ok "1-0" };
  has_kafka = true;
  has_redis_stream = true;
  rand = λ r. pos 0;
  show = λ e. "error";
}

abbrev pub caches : Caches
caches = record {
  configs = record { entries = []; ttl = 60 };
  secrets = record { entries = []; ttl = 60 };
}

abbrev pub workspace : Workspace
workspace = record {
  schema_name = "ws";
  store = store;
  env = env;
  begins = true;
  faults = [];
  commits = true;
}

abbrev pub world : World
world = record {
  conn = begin (record store { executions = running_row ∷ [] }) [];
  config_cache = caches.configs;
  secret_cache = caches.secrets;
}

abbrev pub task : Task
task = record {
  schema_name = "ws";
  execution_id = "e1";
  idempotency_key = "k";
  job_id = "j1";
  endpoint = "hook";
  endpoint_type = http;
  input = some (obj (field "a" (str "b") end));
  attempt_count = 1;
  max_attempts = pos 2;
}

-- ===== src/Endpoints.antt =====
-- The retry policy of an endpoint (crates/common/src/models/endpoint.rs) and the endpoint
-- statement that the worker and the job handlers use (crates/common/src/db/endpoints.rs).
pub mod Policy
use invokr.Base.{
  ℕ, ◌^◌, String, Bool, true, false, Option, none, some, str_eq, ltb, find?, get_or, or_else, keep,
  not, ◌&&◌, is_some, ◌∷◌, if◌then◌else◌,
}
use invokr.Base.Int.{ℤ, pos, negsuc}
use invokr.Base.Result.{Result, ok, err}
use invokr.Json.{Json, int, str, obj, end, field, get_field}
use invokr.Store.{Endpoint, Store, Job, JobStatus, active, retired, EndpointType}
use invokr.Store.Conn.{DbError, Conn, query, M, unique_violation, foreign_key_violation}
use invokr.Named.{ref_holds}
use invokr.Base.Rows.{update_where}

pub record RetryPolicy : Type 0 where
  pub max_attempts : ℤ
  pub backoff : String
  pub initial_delay_ms : ℤ
  pub max_delay_ms : ℤ

abbrev pub default_retry_policy : RetryPolicy
default_retry_policy = record {
  max_attempts = pos 1;
  backoff = "exponential";
  initial_delay_ms = pos 1000;
  max_delay_ms = pos 60000;
}

-- A JSON integer read as `i64`.
abbrev pub as_i64 : Json → Option ℤ
as_i64 (int (pos n)) = if ltb n (2 ^ 63) then some (pos n) else none
as_i64 (int (negsuc n)) = if ltb n (2 ^ 63) then some (negsuc n) else none
as_i64 _ = none

abbrev text_of : Json → Option String
text_of (str s) = some s
text_of _ = none

-- A field under `#[serde(default = …)]`: absent is the default, of another type is an error.
abbrev field_or : {A : Type 0} → (Json → Option A) → A → Option Json → Option A
field_or read default none = some default
field_or read default (some v) = read v

infixl 5 ◌>>=◌
abbrev ◌>>=◌ : {A B : Type 0} → Option A → (A → Option B) → Option B
none >>= f = none
some a >>= f = f a

-- `serde_json::from_value::<RetryPolicy>(v).ok()`. Policies are stored as objects.
unfoldable pub retry_policy_of_json : Json → Option RetryPolicy
retry_policy_of_json (obj fs) = do
  max_attempts ← field_or as_i64 (pos 1) (get_field "max_attempts" fs)
  backoff ← field_or text_of "exponential" (get_field "backoff" fs)
  initial ← field_or as_i64 (pos 1000) (get_field "initial_delay_ms" fs)
  top ← field_or as_i64 (pos 60000) (get_field "max_delay_ms" fs)
  some (record {
    max_attempts = max_attempts;
    backoff = backoff;
    initial_delay_ms = initial;
    max_delay_ms = top;
  })
retry_policy_of_json _ = none

-- `serde_json::to_value(rp)`, as the endpoint handlers store it.
unfoldable pub json_of_retry_policy : RetryPolicy → Json
json_of_retry_policy p = obj (
    field "backoff" (str p.backoff) (
      field "initial_delay_ms" (int p.initial_delay_ms) (
        field "max_attempts" (int p.max_attempts) (field "max_delay_ms" (int p.max_delay_ms) end))))

unfoldable pub get_retry_policy : Endpoint → RetryPolicy
get_retry_policy e = get_or (e.retry_policy >>= retry_policy_of_json) default_retry_policy

abbrev pub named : String → Endpoint → Bool
named name e = str_eq e.name name

unfoldable pub get : String → Conn → Result DbError (Option Endpoint) × Conn
unfolding query
get name = query (λ s. ok (find? (named name) s.endpoints, s))

-- A new row of `endpoints`; the foreign keys are to `payload_specs` and `configs`.
unfoldable pub create :
    ℕ → String → EndpointType → Option String → Option String → Json → Option Json → M Endpoint
create now name endpoint_type payload_spec_ref config_ref spec retry_policy =
    let e : Endpoint = record {
      name = name;
      endpoint_type = endpoint_type;
      payload_spec_ref = payload_spec_ref;
      config_ref = config_ref;
      spec = spec;
      retry_policy = retry_policy;
      created_at = now;
      updated_at = now;
    } in
    query (λ s.
      if is_some (find? (named name) s.endpoints)
      then err (unique_violation "pk_endpoints")
      else if not (ref_holds payload_spec_ref s.payload_specs)
      then err (foreign_key_violation "fk_endpoints_payload_spec")
      else if not (ref_holds config_ref s.configs)
      then err (foreign_key_violation "fk_endpoints_config")
      else ok (e, record s { endpoints = e ∷ s.endpoints }))

-- `COALESCE($2, …)` for each column.
abbrev pub revised :
    ℕ → Option Json → Option String → Option String → Option Json → Endpoint → Endpoint
revised now spec config_ref payload_spec_ref retry_policy e = record e {
  spec = get_or spec e.spec;
  config_ref = or_else config_ref e.config_ref;
  payload_spec_ref = or_else payload_spec_ref e.payload_spec_ref;
  retry_policy = or_else retry_policy e.retry_policy;
  updated_at = now;
}

-- The foreign keys of the columns that the update changes.
abbrev pub update_found :
    (Endpoint → Endpoint)
    → String
    → Option String
    → Option String
    → Store
    → Option Endpoint
    → Result DbError (Option Endpoint × Store)
update_found f name config_ref payload_spec_ref s none = ok (none, s)
update_found f name config_ref payload_spec_ref s (some e) =
    if not (ref_holds payload_spec_ref s.payload_specs)
    then err (foreign_key_violation "fk_endpoints_payload_spec")
    else if not (ref_holds config_ref s.configs)
    then err (foreign_key_violation "fk_endpoints_config")
    else ok (some (f e), record s { endpoints = update_where (named name) f s.endpoints })

unfoldable pub update :
    ℕ → String → Option Json → Option String → Option String → Option Json → M (Option Endpoint)
update now name spec config_ref payload_spec_ref retry_policy = query (λ s.
    update_found (revised now spec config_ref payload_spec_ref retry_policy) name config_ref
      payload_spec_ref s (find? (named name) s.endpoints))

abbrev pub is_active : JobStatus → Bool
is_active active = true
is_active retired = false

abbrev pub for_endpoint : String → Job → Bool
for_endpoint name j = str_eq j.endpoint name

abbrev pub is_active_for : String → Job → Bool
is_active_for name j = for_endpoint name j && is_active j.status

-- Whether a row has been deleted; the foreign key of `jobs` may refuse it.
unfoldable pub delete : String → M Bool
delete name = query (λ s.
    let there = is_some (find? (named name) s.endpoints) in
    if there && is_some (find? (for_endpoint name) s.jobs)
    then err (foreign_key_violation "fk_jobs_endpoint")
    else ok (there, record s { endpoints = keep (λ e. not (named name e)) s.endpoints }))

unfoldable pub has_active_jobs : String → M Bool
has_active_jobs name = query (λ s. ok (is_some (find? (is_active_for name) s.jobs), s))

-- ===== src/HttpClient/Modes/Endpoints.antt =====
-- The registration of an endpoint by the two clients (crates/worker/src/client.rs).
use mathlib.Core.Option as Option
use invokr.Base.{
  ℕ, ◌≡◌, refl, inl, inr, String, false, Option, none, some, Option-cases, [], ◌∷◌, find?,
}
use invokr.Base.Rows.{update_where}
use invokr.Base.Result.{ok, err}
use invokr.Json.{Json, null}
use invokr.Store.{Store, Endpoint, EndpointType}
use invokr.Store.Enums.{endpoint_type_text, endpoint_type_of_text_iff}
use invokr.Store.Conn.{query}
use invokr.Errors.{endpoint_not_found, status_and_code}
use invokr.Endpoints.{RetryPolicy, json_of_retry_policy, named, revised}
use invokr.Endpoints as Db
use invokr.Handlers.{is_internal}
use invokr.Handlers.Endpoints.{CreateEndpoint, UpdateEndpoint}
use invokr.Handlers.Endpoints as Endpoints
use invokr.Library as Library
use invokr.HttpClient.{InvokrHttpClient, Send, update_endpoint, create_endpoint, register_endpoint}
use invokr.HttpClient.Modes.{Answers, once, twice}

-- What an embedding program registers, and the API's reading of the bodies that carry it: `null` is
-- no spec in an update, and a retry policy has the four fields of `RetryPolicy`.
pub record Registration : Type 0 where
  pub name : String
  pub endpoint_type : EndpointType
  pub spec : Json
  pub retry_policy : Option RetryPolicy

abbrev pub given : Json → Option Json
given null = none
given v = some v

abbrev pub policy_json : Registration → Option Json
policy_json e = Option.map json_of_retry_policy e.retry_policy

abbrev pub update_of : Registration → UpdateEndpoint
update_of e = record {
  spec = given e.spec;
  config = none;
  payload_spec = none;
  retry_policy = e.retry_policy;
}

abbrev pub create_of : Registration → CreateEndpoint
create_of e = record {
  name = e.name;
  endpoint_type = endpoint_type_text e.endpoint_type;
  payload_spec = none;
  config = none;
  spec = e.spec;
  retry_policy = e.retry_policy;
}

-- A service that lets through and answers, with no fault, the requests on one endpoint.
pub record ServesEndpoint (client : InvokrHttpClient) (send : Send Store) (now : ℕ)
    (schema_name : String) (e : Registration) : Type 0 where
  pub updates :
      (s : Store)
      → Answers
          (Endpoints.update now e.name (update_of e) [] [] s s)
          (send (update_endpoint client schema_name e.name e.spec (policy_json e)) s)
  pub creates :
      (s : Store)
      → Answers (Endpoints.create now (create_of e) [] [] s s) (
          send (create_endpoint client schema_name e.name e.endpoint_type e.spec (policy_json e)) s)

abbrev row_of : ℕ → Registration → Endpoint
row_of now e = record {
  name = e.name;
  endpoint_type = e.endpoint_type;
  payload_spec_ref = none;
  config_ref = none;
  spec = e.spec;
  retry_policy = policy_json e;
  created_at = now;
  updated_at = now;
}

abbrev revision : ℕ → Registration → Endpoint → Endpoint
revision now e = revised now (some e.spec) none none (policy_json e)

missing :
    (now : ℕ) (e : Registration) (s : Store)
    → find? (named e.name) s.endpoints ≡ none
    → Endpoints.update now e.name (update_of e) [] [] s s ≡ (err (endpoint_not_found e.name), s)
unfolding Endpoints.update Db.update query
missing now e s absent = rw absent refl

updated :
    (now : ℕ) (e : Registration) (s : Store) (old : Endpoint)
    → find? (named e.name) s.endpoints ≡ some old
    → given e.spec ≡ some e.spec
    → Endpoints.update now e.name (update_of e) [] [] s s ≡ (
      ok (revision now e old),
      record s { endpoints = update_where (named e.name) (revision now e) s.endpoints },
    )
unfolding Endpoints.update Db.update query
updated now e s old there spec = rw (there, spec) refl

created :
    (now : ℕ) (e : Registration) (s : Store)
    → find? (named e.name) s.endpoints ≡ none
    → is_internal e.endpoint_type ≡ false
    → Endpoints.create now (create_of e) [] [] s s
      ≡ (ok (row_of now e), record s { endpoints = row_of now e ∷ s.endpoints })
unfolding Endpoints.create Db.create query
created now e s absent external =
    let text =
      (endpoint_type_of_text_iff (endpoint_type_text e.endpoint_type) e.endpoint_type).1 refl in
    rw (text, external, absent) refl

-- With no fault, an endpoint of a type that a user may choose, whose spec is not `null`, is registered
-- alike in both ways, new or not: both calls succeed, and leave the same store.
pub register_endpoint-served :
    (client : InvokrHttpClient) (send : Send Store) (now : ℕ) (schema_name : String)
    (e : Registration) (s : Store)
    → ServesEndpoint client send now schema_name e
    → is_internal e.endpoint_type ≡ false
    → given e.spec ≡ some e.spec
    → (x : Store) × (register_endpoint client send schema_name e.name e.endpoint_type e.spec
          (policy_json e)
          s
        ≡ (ok tt, x))
      × (Library.register_endpoint now e.name e.endpoint_type e.spec (policy_json e) [] s
          ≡ (ok tt, x))
unfolding register_endpoint Library.register_endpoint Db.get Db.create Db.update query
    status_and_code
register_endpoint-served client send now schema_name e s serves external spec =
    elim (Option-cases (find? (named e.name) s.endpoints)) [
      | inl fresh ↦
          let (r, answer, status) = rw (missing now e s fresh) at (serves.updates s) in
          let (r2, answer2, good) = rw (created now e s fresh external) at (serves.creates s) in
          (
            _,
            twice send _ _ 404 _ _ s s _ r r2 answer status refl refl answer2 good,
            rw (fresh, fresh) refl,
          )
      | inr (old, there) ↦
          let (r, answer, good) = rw (updated now e s old there spec) at (serves.updates s) in
          (_, once send _ _ 404 _ _ s _ r answer good, rw (there, there) refl)
    ]

-- ===== src/HttpClient.antt =====
-- crates/worker/src/client.rs: `InvokrHttpClient`, with which a program calls the scheduler as a
-- service. How a request travels and what answers it is the parameter `send`.
pub mod Jobs
pub mod Service
pub mod Modes
use Prim.Native.Char.{code}
use Prim.Native.String.{◌++◌}
use invokr.Base.{
  ℕ, String, Bool, not, Option, none, some, List, [], ◌∷◌, ltb, leb, ◌==◌, if◌then◌else◌, ◌&&◌,
}
use invokr.Base.Result.{Result, ok, err}
use invokr.Json.{Json, null, str, obj, field, end}
use invokr.Json as Values
use invokr.Store.{EndpointType}
use invokr.Store.Enums.{endpoint_type_text}

pub data Method : Type 0 where
  get post put delete : Method

pub record ApiRequest : Type 0 where
  pub method : Method
  pub url : String
  pub headers : List (String × String)
  pub body : Option Json

-- `text` is the body as text, or empty where it cannot be read; `json` the body as JSON, if it is.
pub record Response : Type 0 where
  pub status : ℕ
  pub text : String
  pub json : Option Json

-- What `anyhow::Error` holds: a request that gets no answer, an answer whose status is no success, a
-- body that is not JSON, a field that is missing, a row that cannot be read.
pub data HttpError : Type 0 where
  not_sent : HttpError
  refused : String → ℕ → String → HttpError
  not_json : HttpError
  missing : String → HttpError
  not_a_row : HttpError

pub record InvokrHttpClient : Type 0 where
  pub base_url : String
  pub api_key : String
  pub org_id : String

unfoldable pub trim_end_slashes : String → String
trim_end_slashes String.[] = ""
trim_end_slashes (String.◌∷◌ c s) = elim (trim_end_slashes s) [
  | String.[] ↦ if code c == 47 then "" else String.◌∷◌ c ""
  | String.◌∷◌ d t ↦ String.◌∷◌ c (String.◌∷◌ d t)
]

abbrev pub url : InvokrHttpClient → String → String
url client path = trim_end_slashes client.base_url ++ "/v1" ++ path

abbrev pub authed : InvokrHttpClient → ApiRequest → ApiRequest
authed client r = record r { headers = ("Authorization", "Bearer " ++ client.api_key) ∷ r.headers }

abbrev pub with_workspace : InvokrHttpClient → String → ApiRequest → ApiRequest
with_workspace client schema_name r = record r {
  headers = ("x-org-id", client.org_id) ∷ ("x-workspace-id", schema_name) ∷ r.headers;
}

abbrev pub bare : InvokrHttpClient → Method → String → Option Json → ApiRequest
bare client method path body = record {
  method = method;
  url = url client path;
  headers = [];
  body = body;
}

abbrev pub workspace_request :
    InvokrHttpClient → String → Method → String → Option Json → ApiRequest
workspace_request client schema_name method path body =
    authed client (with_workspace client schema_name (bare client method path body))

abbrev pub secret_body : String → String → Json
secret_body name plaintext = obj (field "name" (str name) (field "value" (str plaintext) end))

abbrev pub or_null : Option Json → Json
or_null (some v) = v
or_null none = null

abbrev pub create_secret : InvokrHttpClient → String → String → String → ApiRequest
create_secret client schema_name name plaintext =
    workspace_request client schema_name post "/secrets" (some (secret_body name plaintext))

abbrev pub update_secret : InvokrHttpClient → String → String → String → ApiRequest
update_secret client schema_name name plaintext =
    workspace_request client schema_name put ("/secrets/" ++ name)
      (some (obj (field "value" (str plaintext) end)))

abbrev pub remove_secret : InvokrHttpClient → String → String → ApiRequest
remove_secret client schema_name name =
    workspace_request client schema_name delete ("/secrets/" ++ name) none

abbrev pub update_endpoint : InvokrHttpClient → String → String → Json → Option Json → ApiRequest
update_endpoint client schema_name name spec retry_policy =
    workspace_request client schema_name put ("/endpoints/" ++ name)
      (some (obj (field "retry_policy" (or_null retry_policy) (field "spec" spec end))))

abbrev pub create_endpoint :
    InvokrHttpClient → String → String → EndpointType → Json → Option Json → ApiRequest
create_endpoint client schema_name name endpoint_type spec retry_policy =
    workspace_request client schema_name post "/endpoints" (
      some (
        obj (
          field "name" (str name) (
            field "retry_policy" (or_null retry_policy)
              (field "spec" spec (field "type" (str (endpoint_type_text endpoint_type)) end))))))

abbrev pub is_success : ℕ → Bool
is_success status = leb 200 status && ltb status 300

-- A call on a service whose state is an `S`, with `?` after each step.
abbrev pub Call : Type 0 → Type 0 → Type 0
Call S A = S → Result HttpError A × S

abbrev pub follow :
    {S A B : Type 0} → (A → Call S B) → Result HttpError A × S → Result HttpError B × S
follow next (ok a, s) = next a s
follow next (err e, s) = (err e, s)

infixl 5 ◌>>=◌
abbrev pub ◌>>=◌ : {S A B : Type 0} → Call S A → (A → Call S B) → Call S B
(step >>= next) s = follow next (step s)

abbrev pub return : {S A : Type 0} → A → Call S A
return a s = (ok a, s)

abbrev pub bail : {S A : Type 0} → HttpError → Call S A
bail e s = (err e, s)

abbrev pub or_fail : {S A : Type 0} → Option A → HttpError → Call S A
or_fail (some a) e = return a
or_fail none e = bail e

abbrev pub Send : Type 0 → Type 0
Send S = ApiRequest → S → Option Response × S

abbrev pub arrived : {S : Type 0} → Option Response × S → Result HttpError Response × S
arrived (some r, s) = (ok r, s)
arrived (none, s) = (err not_sent, s)

abbrev pub sent : {S : Type 0} → Send S → ApiRequest → Call S Response
sent send r s = arrived (send r s)

abbrev pub check : {S : Type 0} → String → Response → Call S Response
check ctx resp =
    if is_success resp.status then return resp else bail (refused ctx resp.status resp.text)

abbrev pub checked : {S : Type 0} → Send S → String → ApiRequest → Call S Response
checked send ctx r = do resp ← sent send r; check ctx resp

-- A request, and where it is refused with the status `otherwise` a second one.
abbrev pub or_else_send :
    {S : Type 0} → Send S → ℕ → String → String → ApiRequest → Response → Call S (Unit {0})
or_else_send send otherwise first_ctx second_ctx second resp =
    if is_success resp.status
    then return tt
    else if not (resp.status == otherwise)
    then bail (refused first_ctx resp.status resp.text)
    else (do answer ← checked send second_ctx second; return tt)

unfoldable pub upsert_secret :
    {S : Type 0} → InvokrHttpClient → Send S → String → String → String → Call S (Unit {0})
upsert_secret client send schema_name name plaintext = do
  resp ← sent send (create_secret client schema_name name plaintext)
  or_else_send send 409 "upsert_secret create" "upsert_secret update"
      (update_secret client schema_name name plaintext) resp

unfoldable pub delete_secret :
    {S : Type 0} → InvokrHttpClient → Send S → String → String → Call S (Unit {0})
delete_secret client send schema_name name = do
  answer ← checked send "delete_secret" (remove_secret client schema_name name)
  return tt

unfoldable pub register_endpoint :
    {S : Type 0}
    → InvokrHttpClient
    → Send S
    → String
    → String
    → EndpointType
    → Json
    → Option Json
    → Call S (Unit {0})
register_endpoint client send schema_name name endpoint_type spec retry_policy = do
  resp ← sent send (update_endpoint client schema_name name spec retry_policy)
  or_else_send send 404 "register_endpoint update" "register_endpoint create"
      (create_endpoint client schema_name name endpoint_type spec retry_policy) resp

unfoldable pub delete_endpoint :
    {S : Type 0} → InvokrHttpClient → Send S → String → String → Call S (Unit {0})
delete_endpoint client send schema_name name = do
  answer ←
      checked send "delete_endpoint"
        (workspace_request client schema_name delete ("/endpoints/" ++ name) none)
  return tt

-- ===== src/HttpClient/Service.antt =====
-- How a request over HTTP reaches a handler: the routes of crates/api/src/router.rs on secrets and
-- endpoints, as `InvokrHttpClient` uses them. The reads are left out, and are not answered here.
-- What a request is let through by stands in its headers: the key of the client, and the references
-- of its organization and its workspace.
pub mod Routed
use Prim.Native.Char.{code}
use Prim.Native.String.{◌++◌}
use invokr.Base.{
  ℕ, String, Bool, true, false, not, Option, none, some, List, [], ◌==◌, str_eq, if◌then◌else◌,
  ◌&&◌, ◌||◌, and_then,
}
use invokr.Base.Map.{lookup}
use invokr.Base.Result.{Result, ok, err}
use invokr.Base.Text.{strip_prefix, all_chars}
use invokr.Json.{Json, null, as_str}
use invokr.Json as Values
use invokr.Store.{Store}
use invokr.Errors.{AppError, unauthorized, invalid_request, status_and_code}
use invokr.Endpoints.{RetryPolicy, retry_policy_of_json}
use invokr.Tenant.{is_safe}
use invokr.Handlers.Secrets.{Sealing}
use invokr.Handlers.Secrets as Secrets
use invokr.Handlers.Endpoints.{CreateEndpoint, UpdateEndpoint}
use invokr.Handlers.Endpoints as Endpoints
use invokr.HttpClient.{Method, get, post, put, delete, ApiRequest, Response}

-- A service of one workspace. `error_text` is how the body of an error is written.
pub record Service : Type 0 where
  pub base : String
  pub api_key : String
  pub org_ref : String
  pub workspace_ref : String
  pub now : ℕ
  pub sealing : Sealing
  pub like : Json → String → Bool
  pub error_text : AppError → String

pub data Resource : Type 0 where
  collection : Resource
  item : String → Resource

-- A name that stands in a path as it is. Other names are encoded there, which is left out.
abbrev pub is_plain : String → Bool
is_plain name = all_chars (λ c. is_safe c || c == 45) name && not (str_eq name "")

abbrev pub below : String → Option Resource
below String.[] = some collection
below (String.◌∷◌ c name) = if code c == 47 && is_plain name then some (item name) else none

-- `/{name}` under a path, or the path itself.
abbrev pub resource : String → String → Option Resource
resource root path = and_then (strip_prefix root path) below

abbrev pub text_field : String → Json → Option String
text_field k body = and_then (Values.get k body) as_str

-- A field of an `Option`: absent and `null` are both `None`, of another type is an error.
abbrev pub optional : {A : Type 0} → (Json → Option A) → Option Json → Option (Option A)
optional read none = some none
optional read (some null) = some none
optional read (some v) = and_then (read v) (λ a. some (some a))

abbrev pub read_secret : Json → Option (String × String)
read_secret body =
    and_then (text_field "name" body)
      (λ name. and_then (text_field "value" body) (λ value. some (name, value)))

abbrev pub read_endpoint : Json → Option CreateEndpoint
read_endpoint body = and_then (text_field "name" body) (λ name.
    and_then (text_field "type" body) (λ type. and_then (Values.get "spec" body) (λ spec.
      and_then (optional as_str (Values.get "payload_spec" body)) (λ payload_spec.
        and_then (optional as_str (Values.get "config" body)) (λ config.
          and_then (optional retry_policy_of_json (Values.get "retry_policy" body)) (λ policy.
            some (record {
              name = name;
              endpoint_type = type;
              payload_spec = payload_spec;
              config = config;
              spec = spec;
              retry_policy = policy;
            })))))))

abbrev pub read_change : Json → Option UpdateEndpoint
read_change body = and_then (optional some (Values.get "spec" body)) (λ spec.
    and_then (optional as_str (Values.get "payload_spec" body)) (λ payload_spec.
      and_then (optional as_str (Values.get "config" body)) (λ config.
        and_then (optional retry_policy_of_json (Values.get "retry_policy" body)) (λ policy.
          some (record {
            spec = spec;
            config = config;
            payload_spec = payload_spec;
            retry_policy = policy;
          })))))

-- An answer with its status. Of a success no more is told.
abbrev pub reply : {A : Type 0} → Service → ℕ → Result AppError A × Store → Option Response × Store
reply v status (ok a, s) = (some (record { status = status; text = ""; json = none }), s)
reply v status (err e, s) =
    (some (record { status = (status_and_code e).0; text = v.error_text e; json = none }), s)

abbrev pub refuse : Service → AppError → Store → Option Response × Store
refuse v e s = reply {A = Unit {0}} v 200 (err e, s)

-- What a handler does with a body, which may not be readable.
abbrev pub on_body :
    {A : Type 0}
    → Service
    → (A → Store → Option Response × Store)
    → Option A
    → Store
    → Option Response × Store
on_body v next (some a) s = next a s
on_body v next none s = refuse v (invalid_request "body") s

abbrev pub endpoint_created : Service → CreateEndpoint → Store → Option Response × Store
endpoint_created v b s = reply v 201 (Endpoints.create v.now b [] [] s s)

abbrev pub on_secrets : Service → Method → Resource → Option Json → Store → Option Response × Store
on_secrets v post collection body s =
    on_body v (λ b t. reply v 201 (Secrets.create v.sealing b.0 b.1 [] t))
      (and_then body read_secret) s
on_secrets v put (item name) body s =
    on_body v (λ value t. reply v 200 (Secrets.update v.sealing name value [] t))
      (and_then body (text_field "value")) s
on_secrets v delete (item name) body s = reply v 204 (Secrets.delete v.like name [] [] s s)
on_secrets v _ _ body s = (none, s)

abbrev pub on_endpoints :
    Service → Method → Resource → Option Json → Store → Option Response × Store
on_endpoints v post collection body s =
    on_body v (endpoint_created v) (and_then body read_endpoint) s
on_endpoints v put (item name) body s =
    on_body v (λ b t. reply v 200 (Endpoints.update v.now name b [] [] t t))
      (and_then body read_change) s
on_endpoints v delete (item name) body s = reply v 204 (Endpoints.delete name [] [] s s)
on_endpoints v _ _ body s = (none, s)

abbrev pub says : String → String → List (String × String) → Bool
says header value headers = elim (lookup header headers) [
  | some text ↦ str_eq text value
  | none ↦ false
]

abbrev pub is_admitted : Service → ApiRequest → Bool
is_admitted v r =
    says "Authorization" ("Bearer " ++ v.api_key) r.headers
    && says "x-org-id" v.org_ref r.headers
    && says "x-workspace-id" v.workspace_ref r.headers

-- The first route that fits: by what the path is under each root.
abbrev pub routed :
    Service → ApiRequest → Store → Option Resource → Option Resource → Option Response × Store
routed v r s (some at) endpoint = on_secrets v r.method at r.body s
routed v r s none (some at) = on_endpoints v r.method at r.body s
routed v r s none none = (none, s)

abbrev pub dispatch : Service → ApiRequest → Store → Option String → Option Response × Store
dispatch v r s none = (none, s)
dispatch v r s (some path) =
    if is_admitted v r
    then routed v r s (resource "/v1/secrets" path) (resource "/v1/endpoints" path)
    else refuse v unauthorized s

unfoldable pub serve : Service → ApiRequest → Store → Option Response × Store
serve v r s = dispatch v r s (strip_prefix v.base r.url)

-- ===== src/HttpClient/Service/Routed.antt =====
-- What the service that a client is set up for answers to the requests of the client
-- (crates/worker/src/client.rs, crates/api/src/router.rs).
use Prim.Native.Char.{code}
use Prim.Native.String.{◌++◌}
use Prim.Native.String.append
use text.Mathlib.TextLemmas.{append_assoc}
use mathlib.Core.Option as Option
use invokr.Base.{
  ℕ, ◌≡◌, refl, sym, ap, ◌∙◌, arith, String, Bool, true, false, Option, none, some, [], eq_refl,
  ◌==◌, if◌then◌else◌, and_then,
}
use invokr.Base.Map.{lookup}
use invokr.Base.Text.{strip_prefix, strip_prefix-append}
use invokr.Json.{Json, get_field}
use invokr.Store.{Store, EndpointType}
use invokr.Store.Enums.{endpoint_type_text}
use invokr.Endpoints.{RetryPolicy, json_of_retry_policy, retry_policy_of_json}
use invokr.Endpoints.Policy.{IsI64, retry_policy_of_json-json}
use invokr.Handlers.Endpoints as Endpoints
use invokr.Errors.{AppError}
use invokr.Handlers.Secrets.{Sealing}
use invokr.Handlers.Secrets as Secrets
use invokr.HttpClient.{
  InvokrHttpClient, Method, post, put, delete, workspace_request, or_null, trim_end_slashes,
  secret_body, create_secret, update_secret, remove_secret, update_endpoint, create_endpoint,
}
use invokr.HttpClient.Service.{
  Service, item, below, resource, routed, dispatch, serve, reply, is_plain, optional, on_body,
  endpoint_created,
}

-- The service at the address of the client, with its key and its organization and a workspace.
abbrev pub service_of :
    InvokrHttpClient → String → ℕ → Sealing → (Json → String → Bool) → (AppError → String) → Service
service_of client schema_name now sealing like error_text = record {
  base = trim_end_slashes client.base_url;
  api_key = client.api_key;
  org_ref = client.org_id;
  workspace_ref = schema_name;
  now = now;
  sealing = sealing;
  like = like;
  error_text = error_text;
}

-- Texts that differ at a place that both have.
unfoldable differs : String → String → Bool
differs (String.◌∷◌ c p) (String.◌∷◌ d q) = if code c == code d then differs p q else true
differs _ _ = false

strip_prefix-differs : (p q rest : String) → differs p q ≡ true → strip_prefix p (q ++ rest) ≡ none
unfolding strip_prefix differs
strip_prefix-differs String.[] q rest h = absurd cc
strip_prefix-differs (String.◌∷◌ c p) String.[] rest h = absurd cc
strip_prefix-differs (String.◌∷◌ c p) (String.◌∷◌ d q) rest h =
    ground (arith, append.cons d q rest, strip_prefix-differs p q rest)

below-item : (name : String) → is_plain name ≡ true → below ("/" ++ name) ≡ some (item name)
below-item name plain =
    ap below (append.cons "/" "" name ∙ ap (String.◌∷◌ "/") (append.nil name)) ∙ rw plain refl

-- The paths of the client, and what they are under the roots.
secret_path :
    (name : String)
    → is_plain name ≡ true
    → resource "/v1/secrets" ("/v1" ++ ("/secrets/" ++ name)) ≡ some (item name)
secret_path name plain =
    ap (resource "/v1/secrets")
      (sym (append_assoc "/v1" "/secrets/" name) ∙ append_assoc "/v1/secrets" "/" name)
    ∙ ap (λ o. and_then o below) (strip_prefix-append "/v1/secrets" ("/" ++ name))
    ∙ below-item name plain

endpoint_path :
    (name : String)
    → is_plain name ≡ true
    → resource "/v1/endpoints" ("/v1" ++ ("/endpoints/" ++ name)) ≡ some (item name)
endpoint_path name plain =
    ap (resource "/v1/endpoints")
      (sym (append_assoc "/v1" "/endpoints/" name) ∙ append_assoc "/v1/endpoints" "/" name)
    ∙ ap (λ o. and_then o below) (strip_prefix-append "/v1/endpoints" ("/" ++ name))
    ∙ below-item name plain

no_secret_path : (name : String) → resource "/v1/secrets" ("/v1" ++ ("/endpoints/" ++ name)) ≡ none
unfolding differs
no_secret_path name =
    ap (resource "/v1/secrets") (sym (append_assoc "/v1" "/endpoints/" name))
    ∙ ap (λ o. and_then o below) (strip_prefix-differs "/v1/secrets" "/v1/endpoints/" name refl)

-- A retry policy of 64-bit numbers, which the service reads as it was sent.
abbrev pub FitsI64 : Option RetryPolicy → Type 0
FitsI64 none = Unit {0}
FitsI64 (some p) = IsI64 p.max_attempts × IsI64 p.initial_delay_ms × IsI64 p.max_delay_ms

optional-policy :
    (p : Option RetryPolicy)
    → FitsI64 p
    → optional retry_policy_of_json (some (or_null (Option.map json_of_retry_policy p))) ≡ some p
unfolding json_of_retry_policy
optional-policy none small = refl
optional-policy (some p) (a, i, m) =
    ap (λ o. and_then o (λ q. some (some q))) (retry_policy_of_json-json p a i m)

module _ (client : InvokrHttpClient) (schema_name : String) (now : ℕ) (k : Sealing)
    (like : Json → String → Bool) (error_text : AppError → String) where
  abbrev v : Service
  v = service_of client schema_name now k like error_text

  -- A request of the client is let through, to the route of its path.
  serve-routed :
      (method : Method) (path : String) (body : Option Json) (s : Store)
      → let r = workspace_request client schema_name method path body in
        serve v r s
        ≡ routed v r s
            (resource "/v1/secrets" ("/v1" ++ path))
            (resource "/v1/endpoints" ("/v1" ++ path))
  unfolding serve lookup
  serve-routed method path body s =
      let r = workspace_request client schema_name method path body in
      ap (dispatch v r s) (strip_prefix-append (trim_end_slashes client.base_url) ("/v1" ++ path))
      ∙ rw (eq_refl ("Bearer " ++ client.api_key), eq_refl client.org_id, eq_refl schema_name) refl

  pub serve-create_secret :
      (name value : String) (s : Store)
      → serve v (create_secret client schema_name name value) s
        ≡ reply v 201 (Secrets.create k name value [] s)
  unfolding strip_prefix get_field
  serve-create_secret name value s = serve-routed post "/secrets" (some (secret_body name value)) s

  pub serve-update_secret :
      (name value : String) (s : Store)
      → is_plain name ≡ true
      → serve v (update_secret client schema_name name value) s
        ≡ reply v 200 (Secrets.update k name value [] s)
  unfolding get_field
  serve-update_secret name value s plain =
      let r = update_secret client schema_name name value in
      serve-routed put ("/secrets/" ++ name) r.body s
      ∙ ap (λ o. routed v r s o (resource "/v1/endpoints" ("/v1" ++ ("/secrets/" ++ name))))
          (secret_path name plain)

  pub serve-remove_secret :
      (name : String) (s : Store)
      → is_plain name ≡ true
      → serve v (remove_secret client schema_name name) s
        ≡ reply v 204 (Secrets.delete like name [] [] s s)
  serve-remove_secret name s plain =
      let r = remove_secret client schema_name name in
      serve-routed delete ("/secrets/" ++ name) none s
      ∙ ap (λ o. routed v r s o (resource "/v1/endpoints" ("/v1" ++ ("/secrets/" ++ name))))
          (secret_path name plain)

  pub serve-update_endpoint :
      (name : String) (spec : Json) (p : Option RetryPolicy) (s : Store)
      → is_plain name ≡ true
      → FitsI64 p
      → optional some (some spec) ≡ some (some spec)
      → serve v (update_endpoint client schema_name name spec (Option.map json_of_retry_policy p)) s
        ≡ reply v 200 (
            Endpoints.update now name
              (record { spec = some spec; config = none; payload_spec = none; retry_policy = p })
              []
              []
              s
              s)
  unfolding get_field
  serve-update_endpoint name spec p s plain small given =
      let r = update_endpoint client schema_name name spec (Option.map json_of_retry_policy p) in
      serve-routed put ("/endpoints/" ++ name) r.body s
      ∙ ap (λ o. routed v r s o (resource "/v1/endpoints" ("/v1" ++ ("/endpoints/" ++ name))))
          (no_secret_path name)
      ∙ ap (routed v r s none) (endpoint_path name plain)
      ∙ rw (given, optional-policy p small) refl

  pub serve-create_endpoint :
      (name : String) (t : EndpointType) (spec : Json) (p : Option RetryPolicy) (s : Store)
      → FitsI64 p
      → serve v
          (create_endpoint client schema_name name t spec (Option.map json_of_retry_policy p))
          s
        ≡ reply v 201 (
            Endpoints.create now
              (record {
                name = name;
                endpoint_type = endpoint_type_text t;
                payload_spec = none;
                config = none;
                spec = spec;
                retry_policy = p;
              })
              []
              []
              s
              s)
  unfolding get_field strip_prefix
  serve-create_endpoint name t spec p s small =
      let r = create_endpoint client schema_name name t spec (Option.map json_of_retry_policy p) in
      serve-routed post "/endpoints" r.body s
      ∙ ap
          (λ o.
            on_body v (endpoint_created v)
              (and_then o (λ q. some (record {
                name = name;
                endpoint_type = endpoint_type_text t;
                payload_spec = none;
                config = none;
                spec = spec;
                retry_policy = q;
              })))
              s)
          (optional-policy p small)

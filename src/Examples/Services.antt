-- ===== src/Examples/Services.antt =====
-- The two clients, tried on a service that is reached by its routes.
use invokr.Base.{◌≡◌, refl, arith, ℕ, String, Bool, false, some, List, [], ◌∷◌}
use invokr.Base.Text.{count_chars, all_chars}
use invokr.Base.Result.{ok}
use invokr.Json.{Json, str, obj, end, field}
use invokr.Store.{Store, http}
use invokr.Crypto.{encrypt, hex_decode, hex_pairs}
use invokr.Errors.{message}
use invokr.Library.{InvokrLibraryClient}
use invokr.Library as Library
use invokr.HttpClient.{InvokrHttpClient, upsert_secret, register_endpoint}
use invokr.HttpClient.Service.{Service, serve}
use invokr.HttpClient.Modes.Endpoints.{Registration, policy_json}
use invokr.HttpClient.Modes.Deployed.{service, upsert_secret_alike, register_endpoint_alike}
use invokr.Examples.{store, one_text}
use invokr.Examples.Parts.{key_hex, nonce, policy}

abbrev client : InvokrHttpClient
client = record { base_url = "http://invokr/"; api_key = "k"; org_id = "o" }

abbrev lib : InvokrLibraryClient
lib = record { table_prefix = ""; encryption_key = key_hex; cipher = one_text; nonce = nonce }

-- No endpoint refers to a secret.
abbrev like : Json → String → Bool
like spec name = false

abbrev deployed : Service
deployed = service lib client "ws" 40 like message

abbrev sealed : List ℕ
sealed = 1 ∷ 2 ∷ 3 ∷ 4 ∷ 5 ∷ 6 ∷ 7 ∷ 8 ∷ 9 ∷ 10 ∷ 11 ∷ 12 ∷ 7 ∷ []

abbrev with_secret : Store
with_secret = record store { secrets = ("api-token", 0 ∷ []) ∷ [] }

upsert_secret_alike_example :
    (x : Store) × (upsert_secret client (serve deployed) "ws" "api-token" "abc" with_secret
      ≡ (ok tt, x))
    × (Library.upsert_secret lib "api-token" "abc" [] with_secret ≡ (ok tt, x))
unfolding encrypt hex_decode hex_pairs count_chars all_chars
upsert_secret_alike_example =
    upsert_secret_alike lib client "ws" 40 like message "api-token" "abc" sealed with_secret refl
      refl

abbrev mailer : Registration
mailer = record {
  name = "mailer";
  endpoint_type = http;
  spec = obj (field "url" (str "http://mailer") end);
  retry_policy = some policy;
}

register_endpoint_alike_example :
    (x : Store) × (register_endpoint client
        (serve deployed)
        "ws"
        "mailer"
        http
        mailer.spec
        (policy_json mailer)
        store
      ≡ (ok tt, x))
    × (Library.register_endpoint 40 "mailer" http mailer.spec (policy_json mailer) [] store
        ≡ (ok tt, x))
unfolding all_chars
register_endpoint_alike_example =
    register_endpoint_alike lib client "ws" 40 like message mailer store refl refl refl
      ((omega arith, omega arith), (omega arith, omega arith), (omega arith, omega arith))

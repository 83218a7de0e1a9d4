-- ===== src/HttpClient/Modes/Deployed.antt =====
-- The two clients, where the service is reached by the routes of its API (crates/worker/src/client.rs,
-- crates/api/src/router.rs).
use mathlib.Core.Path.{subst}
use invokr.Base.{ℕ, ◌≡◌, refl, sym, String, Bool, true, false, some, List, []}
use invokr.Base.Result.{Result, ok, err}
use invokr.Json.{Json, null, bool, int, float, str, arr, obj}
use invokr.Store.{Store}
use invokr.Errors.{AppError}
use invokr.Crypto.{encrypt}
use invokr.Handlers.{is_internal}
use invokr.Library.{InvokrLibraryClient}
use invokr.Library as Library
use invokr.HttpClient.{InvokrHttpClient, is_success, upsert_secret, register_endpoint}
use invokr.HttpClient.Service.{Service, serve, reply, is_plain, optional}
use invokr.HttpClient.Service.Routed.{
  service_of, FitsI64, serve-create_secret, serve-update_secret, serve-update_endpoint,
  serve-create_endpoint,
}
use invokr.HttpClient.Modes.{Answers}
use invokr.HttpClient.Modes.Secrets.{sealing_of, upsert_secret-served}
use invokr.HttpClient.Modes.Endpoints.{Registration, given, policy_json, register_endpoint-served}

reply-Answers :
    {A : Type 0} (v : Service) (status : ℕ) (x : Result AppError A × Store)
    → is_success status ≡ true
    → Answers x (reply v status x)
reply-Answers v status (ok a, s) good = (_, refl, good)
reply-Answers v status (err e, s) good = (_, refl, refl)

optional-given : (v : Json) → given v ≡ some v → optional some (some v) ≡ some (some v)
optional-given null h = absurd cc
optional-given (bool b) h = refl
optional-given (int z) h = refl
optional-given (float t) h = refl
optional-given (str t) h = refl
optional-given (arr xs) h = refl
optional-given (obj fs) h = refl

module _ (lib : InvokrLibraryClient) (client : InvokrHttpClient) (schema_name : String) (now : ℕ)
    (like : Json → String → Bool) (error_text : AppError → String) where
  -- The service at the address of the client, which seals as the embedding program does.
  abbrev pub service : Service
  service = service_of client schema_name now (sealing_of lib) like error_text

  -- With no fault, on a service that is reached by its routes, lets the client through and seals as
  -- the embedding program does, a secret whose name stands in a path as it is is put alike in both
  -- ways, new or not: both calls succeed, and leave the same store.
  pub upsert_secret_alike :
      (name plaintext : String) (sealed : List ℕ) (s : Store)
      → is_plain name ≡ true
      → encrypt lib.cipher lib.nonce plaintext lib.encryption_key ≡ ok sealed
      → (x : Store) × (upsert_secret client (serve service) schema_name name plaintext s
          ≡ (ok tt, x))
        × (Library.upsert_secret lib name plaintext [] s ≡ (ok tt, x))
  upsert_secret_alike name plaintext sealed s plain done =
      upsert_secret-served lib client (serve service) schema_name name plaintext sealed s
        (record {
          creates = λ t.
              subst (Answers _)
                (sym (
                  serve-create_secret client schema_name now (sealing_of lib) like error_text name
                    plaintext t))
                (reply-Answers service 201 _ refl);
          updates = λ t.
              subst (Answers _)
                (sym (
                  serve-update_secret client schema_name now (sealing_of lib) like error_text name
                    plaintext t plain))
                (reply-Answers service 200 _ refl);
        })
        done

  -- With no fault, on a service that is reached by its routes and lets the client through, an endpoint
  -- is registered alike in both ways, new or not: both calls succeed, and leave the same store. Its
  -- name stands in a path as it is, its type is one that a user may choose, its spec is not `null`,
  -- and its retry policy, if there is one, is given with its four fields, of 64 bits.
  pub register_endpoint_alike :
      (e : Registration) (s : Store)
      → is_plain e.name ≡ true
      → is_internal e.endpoint_type ≡ false
      → given e.spec ≡ some e.spec
      → FitsI64 e.retry_policy
      → (x : Store) × (register_endpoint client
            (serve service)
            schema_name
            e.name
            e.endpoint_type
            e.spec
            (policy_json e)
            s
          ≡ (ok tt, x))
        × (Library.register_endpoint now e.name e.endpoint_type e.spec (policy_json e) [] s
            ≡ (ok tt, x))
  register_endpoint_alike e s plain external spec small =
      register_endpoint-served client (serve service) now schema_name e s
        (record {
          updates = λ t.
              subst (Answers _)
                (sym (
                  serve-update_endpoint client schema_name now (sealing_of lib) like error_text
                    e.name e.spec e.retry_policy t plain small (optional-given e.spec spec)))
                (rw spec (reply-Answers service 200 _ refl));
          creates = λ t.
              subst (Answers _)
                (sym (
                  serve-create_endpoint client schema_name now (sealing_of lib) like error_text
                    e.name e.endpoint_type e.spec e.retry_policy t small))
                (reply-Answers service 201 _ refl);
        })
        external spec

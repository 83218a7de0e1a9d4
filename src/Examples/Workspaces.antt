-- ===== src/Examples/Workspaces.antt =====
-- Requests on endpoints, configs and secrets, and a history of a workspace, tried at concrete values.
use invokr.Base.{◌≡◌, refl, ℕ, true, List, [], ◌∷◌}
use Prim.Native.String.{◌++◌}
use invokr.Base.Text.{count_chars, strip_prefix}
use invokr.AuthScope.{InvokrScopes, public, protected, callback_path, resolve_scope}
use invokr.AuthScope.Routes.{resolve_scope_routes}
use invokr.Base.Result.{ok}
use invokr.Json.{obj, end}
use invokr.Store.{Store}
use invokr.Store.Conn.{begin, query}
use invokr.Crypto.{encrypt, hex_decode, hex_pairs}
use invokr.Cache as Cache
use invokr.Pipeline.Load.{load_single_secret}
use invokr.Secrets as DbSecrets
use invokr.Handlers.Secrets as Secrets
use invokr.Handlers.Secrets.{Sealing}
use invokr.Handlers.Secrets.Loads.{load_single_secret-create}
use invokr.Handlers.Endpoints as Endpoints
use invokr.Handlers.Endpoints.Deletes.{deletion, delete_cases}
use invokr.Api.{
  Event, Meeting, create_job, cancel_job, delete_endpoint, create_config, cron_tick, run,
}
use invokr.Links.{IsLinked}
use invokr.Links.Histories.{run-IsLinked}
use invokr.Base.Map.{lookup}
use invokr.Examples.{store, one_text, world, env as worker_env}
use invokr.Examples.JobRequests.{calendar, env, body}
use invokr.Examples.Parts.{key_hex, nonce, one_text-Inverts}

delete_cases_example : Endpoints.delete "hook" [] [] store store ≡ deletion "hook" store
delete_cases_example = delete_cases "hook" store

abbrev calm : Meeting
calm = record { seen = store; read_faults = []; faults = [] }

abbrev history : List (Event calendar)
history =
    create_config "c" (obj end) []
    ∷ create_job env body true calm
    ∷ cron_tick 10 "e3" "j1"
    ∷ cancel_job 11 "ws" "j1" true []
    ∷ delete_endpoint "hook" calm
    ∷ []

run-IsLinked_example : IsLinked (run calendar history store)
run-IsLinked_example =
    run-IsLinked calendar history store (((refl, refl), tt), (refl, tt), (refl, tt))

abbrev sealing : Sealing
sealing = record { cipher = one_text; nonce = nonce; encryption_key = key_hex }

abbrev sealed : List ℕ
sealed = 1 ∷ 2 ∷ 3 ∷ 4 ∷ 5 ∷ 6 ∷ 7 ∷ 8 ∷ 9 ∷ 10 ∷ 11 ∷ 12 ∷ 7 ∷ []

abbrev with_secret : Store
with_secret = record store { secrets = ("token", sealed) ∷ [] }

load_single_secret-create_example :
    (load_single_secret
      (record worker_env { encryption_key = key_hex })
      "token"
      (record world { conn = begin with_secret [] })).0
    ≡ ok "abc"
unfolding Secrets.create DbSecrets.create encrypt hex_decode hex_pairs count_chars query Cache.get
    lookup
load_single_secret-create_example =
    load_single_secret-create sealing (record worker_env { encryption_key = key_hex }) "token" "abc"
      [] store with_secret ("token", sealed) (record world { conn = begin with_secret [] })
      one_text-Inverts refl refl refl refl refl refl

abbrev mounts : InvokrScopes
mounts = record { path_prefix = "/invokr"; dashboard_prefix = "/dashboard" }

resolve_scope_routes_example :
    (resolve_scope mounts ("/invokr" ++ ("/v1" ++ "/jobs")) ≡ protected)
    × (resolve_scope mounts ("/invokr" ++ "/health") ≡ public)
    × (resolve_scope mounts ("/invokr" ++ "/metrics") ≡ public)
    × (resolve_scope mounts (callback_path "/invokr") ≡ public)
unfolding strip_prefix
resolve_scope_routes_example = resolve_scope_routes mounts "/jobs" refl

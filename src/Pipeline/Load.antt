-- ===== src/Pipeline/Load.antt =====
-- The configs and the secrets of an execution (crates/worker/src/pipeline.rs,
-- crates/common/src/db/{configs,secrets}.rs), through the worker's caches.
use Prim.Native.String.{◌++◌}
use invokr.Base.{
  ℕ, zero, suc, ◌+◌, String, Bool, Option, none, some, List, [], ◌∷◌, is_some, if◌then◌else◌,
}
use invokr.Base.Int.{ℤ}
use invokr.Base.Map.{lookup, insert}
use invokr.Base.Text.{strip_prefix, split_once, count_chars}
use invokr.Base.Result.{Result, ok, err}
use invokr.Json.{Json, obj, Fields, end, field, to_string}
use invokr.Store.Conn.{Conn, DbError, query, M}
use invokr.Cache.{Cache}
use invokr.Cache as Cache
use invokr.Crypto.{Cipher, decrypt}
use invokr.Dispatch.Http.{Request, Reply}
use invokr.Dispatch.Kafka.{Producer}
use invokr.Dispatch.RedisStream.{Client}

pub record Env : Type 0 where
  -- `now()` of the transaction.
  pub now : ℕ
  pub worker_id : String
  -- The rows that other transactions hold.
  pub locked : String → Bool
  -- `Utc::now()` when the pipeline starts, when the attempt is recorded, and after the dispatch.
  pub started_at : ℕ
  pub recorded_at : ℕ
  pub completed_at : ℕ
  -- The caches' clock, taken to stand still during one execution.
  pub instant : ℕ
  pub encryption_key : String
  pub cipher : Cipher
  pub http_client : Request → Reply
  pub producer : Producer
  pub redis : Client
  pub has_kafka : Bool
  pub has_redis_stream : Bool
  -- `gen_range(-r..=r)` by `r`.
  pub rand : ℤ → ℤ
  pub show : DbError → String

-- What the worker may change: its transaction, and the caches of its process.
pub record World : Type 0 where
  pub conn : Conn
  pub config_cache : Cache Json
  pub secret_cache : Cache String

-- A statement of the transaction.
abbrev pub exec : {A : Type 0} → M A → World → Result DbError A × World
exec m w = let (r, c) = m w.conn in (r, record w { conn = c })

unfoldable pub field_list : Fields → List (String × Json)
field_list end = []
field_list (field k v fs) = (k, v) ∷ field_list fs

unfoldable pub flatten_json_object : Json → Result String (List (String × Json))
flatten_json_object (obj fs) = ok (field_list fs)
flatten_json_object _ = err "Config values must be a JSON object"

unfoldable pub get_config : String → M (Option Json)
get_config name = query (λ s. ok (lookup name s.configs, s))

unfoldable pub get_secret : String → M (Option (List ℕ))
get_secret name = query (λ s. ok (lookup name s.secrets, s))

abbrev pub keep_config : Env → String → Json → World → World
keep_config env name v w = record w { config_cache = Cache.set env.instant name v w.config_cache }

abbrev pub fetched_config :
    Env
    → String
    → Result DbError (Option Json) × World
    → Result String (List (String × Json)) × World
fetched_config env name (err e, w) =
    (err ("Failed to load config '" ++ name ++ "': " ++ env.show e), w)
fetched_config env name (ok none, w) = (err ("Config '" ++ name ++ "' not found"), w)
fetched_config env name (ok (some v), w) = (flatten_json_object v, keep_config env name v w)

abbrev pub cached_config :
    Env → String → World → Option Json × Cache Json → Result String (List (String × Json)) × World
cached_config env name w (some v, c) = (flatten_json_object v, record w { config_cache = c })
cached_config env name w (none, c) =
    fetched_config env name (exec (get_config name) (record w { config_cache = c }))

unfoldable pub load_config : Env → String → World → Result String (List (String × Json)) × World
load_config env name w = cached_config env name w (Cache.get env.instant name w.config_cache)

abbrev pub decrypted : Env → String → World → Result String String → Result String String × World
decrypted env name w (err e) = (err ("Failed to decrypt secret '" ++ name ++ "': " ++ e), w)
decrypted env name w (ok v) =
    (ok v, record w { secret_cache = Cache.set env.instant name v w.secret_cache })

abbrev pub fetched_secret :
    Env → String → Result DbError (Option (List ℕ)) × World → Result String String × World
fetched_secret env name (err e, w) =
    (err ("Failed to load secret '" ++ name ++ "': " ++ env.show e), w)
fetched_secret env name (ok none, w) = (err ("Secret '" ++ name ++ "' not found"), w)
fetched_secret env name (ok (some v), w) =
    decrypted env name w (decrypt env.cipher v env.encryption_key)

abbrev pub cached_secret :
    Env → String → World → Option String × Cache String → Result String String × World
cached_secret env name w (some v, c) = (ok v, record w { secret_cache = c })
cached_secret env name w (none, c) =
    fetched_secret env name (exec (get_secret name) (record w { secret_cache = c }))

unfoldable pub load_single_secret : Env → String → World → Result String String × World
load_single_secret env name w = cached_secret env name w (Cache.get env.instant name w.secret_cache)

abbrev pub Secrets : Type 0
Secrets = List (String × String)

-- The secret `name` among those loaded so far.
abbrev pub added : String → Secrets → Result String String × World → Result String Secrets × World
added name secrets (ok v, w) = (ok (insert name v secrets), w)
added name secrets (err e, w) = (err e, w)

abbrev pub add_secret : Env → String → Secrets → World → Result String Secrets × World
add_secret env name secrets w =
    if is_some (lookup name secrets)
    then (ok secrets, w)
    else added name secrets (load_single_secret env name w)

-- What a `{{secret.` at the start of the text names, with the number of characters up to the end of
-- its braces; `none` is that the braces stay open.
pub data Reference : Type 0 where
  other : Reference
  open_ended : Reference
  secret : String → ℕ → Reference

unfoldable pub reference : String → Reference
reference s = elim (strip_prefix "{{secret." s) [
  | none ↦ other
  | some rest ↦ elim (split_once "}}" rest) [
    | none ↦ open_ended
    | some (name, _) ↦ secret name (count_chars name + 11)
  ]
]

abbrev pub after :
    (Secrets → World → Result String Secrets × World)
    → Result String Secrets × World
    → Result String Secrets × World
after next (ok secrets, w) = next secrets w
after next (err e, w) = (err e, w)

-- What one place of the text does, where `next` goes on past a number of characters.
abbrev pub visit :
    Env
    → (ℕ → Secrets → World → Result String Secrets × World)
    → Secrets
    → World
    → Reference
    → Result String Secrets × World
visit env next secrets w other = next zero secrets w
visit env next secrets w open_ended = (ok secrets, w)
visit env next secrets w (secret name zero) = (ok secrets, w)
visit env next secrets w (secret name (suc n)) = after (next n) (add_secret env name secrets w)

-- The `while` loop of `load_secrets` as one walk over the text: `n` characters of a reference are
-- still to be passed.
unfoldable pub scan : Env → ℕ → String → Secrets → World → Result String Secrets × World
scan env n String.[] secrets w = (ok secrets, w)
scan env (suc n) (String.◌∷◌ c s) secrets w = scan env n s secrets w
scan env zero (String.◌∷◌ c s) secrets w =
    visit env (λ k. scan env k s) secrets w (reference (String.◌∷◌ c s))

unfoldable pub load_secrets : Env → Json → World → Result String Secrets × World
load_secrets env spec w = scan env zero (to_string spec) [] w

-- ===== src/Dispatch/RedisStream.antt =====
-- crates/worker/src/dispatcher/redis_stream.rs. The Redis client is three functions: what opening
-- an address, connecting to it, and a command end in.
use Prim.Native.String.{◌++◌}
use invokr.Base.{
  and_then, ℕ, String, Bool, true, false, Option, none, some, List, [], ◌∷◌, ◌++◌ as append, get_or,
}
use invokr.Base.Text.{show_nat}
use invokr.Base.Result.{Result, ok, err}
use invokr.Json.{Json, str, obj, Fields, end, field, as_u64, as_bool, as_object, to_string}
use invokr.Json as Json
use invokr.Template.{replacement}
use invokr.Dispatch.{DispatchResult, success, failure, error_json}
use invokr.Dispatch.Http.{text_at}
use invokr.Dispatch.Kafka.{error_type}

pub record Client : Type 0 where
  pub open_error : String → Option String
  pub connect_error : String → Option String
  pub query : String → List String → Result String String

-- The field pairs of XADD, flat as the command takes them.
unfoldable pub field_args : Fields → List String
field_args end = []
field_args (field k v fs) = k ∷ replacement v ∷ field_args fs

abbrev trim_args : Option ℕ → Bool → List String
trim_args none approximate = []
trim_args (some n) true = "MAXLEN" ∷ "~" ∷ show_nat n ∷ []
trim_args (some n) false = "MAXLEN" ∷ show_nat n ∷ []

unfoldable pub xadd : Json → Fields → List String
xadd spec fields =
    "XADD"
    ∷ text_at "stream" "" spec
    ∷ append
        (trim_args (and_then (Json.get "max_len" spec) as_u64)
          (get_or (and_then (Json.get "approximate_trimming" spec) as_bool) true))
        ("*" ∷ field_args fields)

abbrev outcome : String → Result String String → DispatchResult
outcome stream (ok message_id) =
    success (obj (field "message_id" (str message_id) (field "stream" (str stream) end)))
outcome stream (err text) = failure (error_json (error_type text "STREAM_ERROR") text)

abbrev connected : Client → Json → Fields → Option String → DispatchResult
connected c spec fields (some text) =
    failure (error_json "CONNECTION_ERROR" ("Redis connection failed: " ++ text))
connected c spec fields none =
    outcome (text_at "stream" "" spec)
      (c.query (text_at "redis_url" "redis://127.0.0.1:6379" spec) (xadd spec fields))

abbrev opened : Client → Json → Fields → Option String → DispatchResult
opened c spec fields (some text) =
    failure (error_json "CONNECTION_ERROR" ("Failed to connect to Redis: " ++ text))
opened c spec fields none =
    connected c spec fields (c.connect_error (text_at "redis_url" "redis://127.0.0.1:6379" spec))

abbrev with_fields : Client → Json → Option Fields → DispatchResult
with_fields c spec none = failure (error_json "STREAM_ERROR" "Missing fields_template in spec")
with_fields c spec (some fields) =
    opened c spec fields (c.open_error (text_at "redis_url" "redis://127.0.0.1:6379" spec))

unfoldable pub dispatch : Client → Json → DispatchResult
dispatch c spec = with_fields c spec (and_then (Json.get "fields_template" spec) as_object)

-- ===== src/Dispatch.antt =====
-- crates/worker/src/dispatcher.rs: what an attempt to deliver an execution ends in.
pub mod Http
pub mod Internal
pub mod Kafka
pub mod RedisStream
use invokr.Base.{String, List, [], ◌∷◌}
use invokr.Json.{Json, str, obj, Fields, end, field}

pub data DispatchResult : Type 0 where
  success : Json → DispatchResult
  failure : Json → DispatchResult

-- `json!({ "type": …, "message": … })`, whose keys serde_json sorts.
abbrev pub error_json : String → String → Json
error_json type message = obj (field "message" (str message) (field "type" (str type) end))

-- The entries of an object whose values are texts, as the loops over `headers` take them.
abbrev pub text_fields : Fields → List (String × String)
text_fields end = []
text_fields (field k (str v) fs) = (k, v) ∷ text_fields fs
text_fields (field k _ fs) = text_fields fs

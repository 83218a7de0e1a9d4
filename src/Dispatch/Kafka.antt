-- ===== src/Dispatch/Kafka.antt =====
-- crates/worker/src/dispatcher/kafka.rs. The producer (rdkafka) is two functions: whether it can be
-- made, and what a send ends in.
use Prim.Native.String.{◌++◌}
use invokr.Base.{and_then, ℕ, String, Option, none, some, List, get_or, if◌then◌else◌}
use mathlib.Core.Option as Option
use invokr.Base.Int.{ℤ}
use invokr.Base.Text.{contains}
use invokr.Base.Result.{Result, ok, err}
use invokr.Json.{Json, int, obj, end, field, as_str, as_object, to_string}
use invokr.Json as Json
use invokr.Dispatch.{DispatchResult, success, failure, error_json, text_fields}
use invokr.Dispatch.Http.{text_at, number_at}

pub record ProducerConfig : Type 0 where
  pub bootstrap_servers : String
  pub message_timeout_ms : ℕ
  pub acks : String

pub record Message : Type 0 where
  pub topic : String
  pub payload : String
  pub key : Option String
  pub headers : Option (List (String × String))

pub record Producer : Type 0 where
  pub create_error : ProducerConfig → Option String
  pub send : ProducerConfig → Message → Result String (ℤ × ℤ)

unfoldable pub config_of : Json → ProducerConfig
config_of spec = record {
  bootstrap_servers = text_at "bootstrap_servers" "" spec;
  message_timeout_ms = number_at "timeout_ms" 10000 spec;
  acks = text_at "acks" "all" spec;
}

unfoldable pub message_of : Json → Message
message_of spec = record {
  topic = text_at "topic" "" spec;
  payload = get_or (Option.map to_string (Json.get "value_template" spec)) "{}";
  key = and_then (Json.get "key_template" spec) as_str;
  headers = Option.map text_fields (and_then (Json.get "headers" spec) as_object);
}

-- The type of an error is told by its text.
abbrev pub error_type : String → String → String
error_type text other = if contains "timeout" text then "TIMEOUT" else other

abbrev outcome : Result String (ℤ × ℤ) → DispatchResult
outcome (ok (partition, offset)) =
    success (obj (field "offset" (int offset) (field "partition" (int partition) end)))
outcome (err text) = failure (error_json (error_type text "BROKER_ERROR") text)

abbrev send_with : Producer → Json → Option String → DispatchResult
send_with p spec (some text) =
    failure (error_json "BROKER_ERROR" ("Failed to create producer: " ++ text))
send_with p spec none = outcome (p.send (config_of spec) (message_of spec))

unfoldable pub dispatch : Producer → Json → DispatchResult
dispatch p spec = send_with p spec (p.create_error (config_of spec))

-- ===== src/Dispatch/Http.antt =====
-- crates/worker/src/dispatcher/http.rs. The client (reqwest) is a function from the request to its
-- reply.
pub mod Key
use Prim.Native.Char.{code}
use Prim.Native.String.{◌++◌}
use invokr.Base.{
  and_then, ℕ, ◌+◌, ◌-◌, ◌%◌, ◌^◌, String, Bool, true, false, ◌&&◌, ◌||◌, Option, none, some, List,
  [], ◌∷◌, ◌++◌ as append, leb, ◌==◌, get_or, or_else, if◌then◌else◌,
}
use mathlib.Core.Option as Option
use invokr.Base.Int.{pos}
use invokr.Base.Text.{show_nat}
use invokr.Json.{
  Json, null, str, int, obj, Items, nil, cons, end, field, as_str, as_u64, as_object, as_array,
}
use invokr.Json as Json
use invokr.Dispatch.{DispatchResult, success, failure, error_json, text_fields}

pub data Method : Type 0 where
  get post put patch delete : Method

pub record Request : Type 0 where
  pub method : Method
  pub url : String
  pub headers : List (String × String)
  pub timeout_ms : ℕ
  pub body : Option Json

-- An answer has a status below 2^16 and a text, which is empty if it cannot be read.
pub data Reply : Type 0 where
  response : ℕ → String → Reply
  timeout : String → Reply
  refused : String → Reply
  broken : String → Reply

abbrev lower : ℕ → ℕ
lower c = if leb 65 c && leb c 90 then c + 32 else c

-- `eq_ignore_ascii_case`.
unfoldable pub eq_ignore_case : String → String → Bool
eq_ignore_case String.[] String.[] = true
eq_ignore_case String.[] (String.◌∷◌ d t) = false
eq_ignore_case (String.◌∷◌ c s) String.[] = false
eq_ignore_case (String.◌∷◌ c s) (String.◌∷◌ d t) =
    lower (code c) == lower (code d) && eq_ignore_case s t

-- The other letters that `to_uppercase` makes ASCII of (ı, ſ and the ligatures of s and t) occur in
-- no method but POST, which is also the method of an unknown name.
unfoldable pub method_of : String → Method
method_of m =
    if eq_ignore_case m "GET"
    then get
    else if eq_ignore_case m "POST"
    then post
    else if eq_ignore_case m "PUT"
    then put
    else if eq_ignore_case m "PATCH"
    then patch
    else if eq_ignore_case m "DELETE"
    then delete
    else post

-- `as_u64` of each entry that has it, cut to 16 bits.
unfoldable pub statuses : Items → List ℕ
statuses nil = []
statuses (cons v vs) = elim (as_u64 v) [ some n ↦ n % 2 ^ 16 ∷ statuses vs | none ↦ statuses vs ]

abbrev pub text_at : String → String → Json → String
text_at key default spec = get_or (and_then (Json.get key spec) as_str) default

abbrev pub number_at : String → ℕ → Json → ℕ
number_at key default spec = get_or (and_then (Json.get key spec) as_u64) default

unfoldable pub expected_statuses : Json → List ℕ
expected_statuses spec =
    get_or (Option.map statuses (and_then (Json.get "expected_status_codes" spec) as_array))
      (200 ∷ 201 ∷ 202 ∷ 204 ∷ [])

abbrev pub key_header : String
key_header = "x-invokr-idempotency-key"

abbrev pub has_header : String → List (String × String) → Bool
has_header name [] = false
has_header name ((k, v) ∷ hs) = eq_ignore_case k name || has_header name hs

abbrev pub user_headers : Json → List (String × String)
user_headers spec =
    get_or (Option.map text_fields (and_then (Json.get "headers" spec) as_object)) []

unfoldable pub headers : Json → String → List (String × String)
headers spec idempotency_key =
    if has_header key_header (user_headers spec)
    then user_headers spec
    else append (user_headers spec) ((key_header, idempotency_key) ∷ [])

abbrev present : Json → Option Json
present null = none
present v = some v

unfoldable pub body_of : Json → Option Json
body_of spec = and_then (or_else (Json.get "body_template" spec) (Json.get "body" spec)) present

unfoldable pub request : Json → String → Request
request spec idempotency_key = record {
  method = method_of (text_at "method" "POST" spec);
  url = text_at "url" "" spec;
  headers = headers spec idempotency_key;
  timeout_ms = number_at "timeout_ms" 5000 spec;
  body = body_of spec;
}

abbrev pub is_among : ℕ → List ℕ → Bool
is_among n [] = false
is_among n (m ∷ ms) = n == m || is_among n ms

unfoldable pub outcome : List ℕ → Reply → DispatchResult
outcome expected (response status body) =
    if is_among status expected
    then success (obj (field "body" (str body) (field "status_code" (int (pos status)) end)))
    else failure (
        obj (
          field "message" (str ("Unexpected status code: " ++ show_nat status))
            (field "status_code" (int (pos status)) (field "type" (str "HTTP_ERROR") end))))
outcome expected (timeout text) = failure (error_json "TIMEOUT" text)
outcome expected (refused text) = failure (error_json "CONNECTION_ERROR" text)
outcome expected (broken text) = failure (error_json "HTTP_ERROR" text)

unfoldable pub dispatch : (Request → Reply) → Json → String → DispatchResult
dispatch client spec idempotency_key =
    outcome (expected_statuses spec) (client (request spec idempotency_key))

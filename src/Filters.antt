-- ===== src/Filters.antt =====
-- The filters of a list of jobs, from the query of a request (crates/api/src/extractors.rs). The
-- splitting of the query string into pairs is actix-web's.
pub mod Commas
use Prim.Native.Char.{code}
use Prim.Native.String.{◌++◌}
use invokr.Base.{
  ℕ, String, Bool, false, ◌||◌, Option, none, some, List, [], ◌∷◌, ◌++◌ as append, str_eq, ltb,
  ◌==◌, if◌then◌else◌, and_then,
}
use invokr.Base.Text.{trim}
use invokr.Base.Result.{Result, ok, err, ◌>>=◌}
use invokr.Store.{JobStatus, TriggerType, EndpointType}
use invokr.Store.Enums.{
  job_status_of_text, trigger_type_of_text, endpoint_type_of_text, job_status_text,
  trigger_type_text, endpoint_type_text,
}
use invokr.Errors.{AppError, invalid_request}
use invokr.Tenant.{is_empty}

-- crates/common/src/db/jobs.rs.
pub record JobFilters : Type 0 where
  pub job_id : Option String
  pub status : List JobStatus
  pub trigger : List TriggerType
  pub endpoint : Option String
  pub endpoint_type : List EndpointType
  pub created_after : Option ℕ
  pub created_before : Option ℕ

abbrev unless_empty : String → Option String
unless_empty trimmed = if is_empty trimmed then none else some trimmed

abbrev pub blank_to_none : Option String → Option String
blank_to_none value = and_then value (λ v. unless_empty (trim v))

-- `filter`, `filter_map` and `next_back`.
abbrev pub last_scalar : List (String × String) → String → Option String
last_scalar [] key = none
last_scalar (pair ∷ pairs) key =
    let later = last_scalar pairs key in
    elim later [
      | some v ↦ some v
      | none ↦ if str_eq pair.0 key then blank_to_none (some pair.1) else none
    ]

-- `split(',')`: the first part, and the others.
unfoldable pub split_from : String → String × List String
split_from String.[] = ("", [])
split_from (String.◌∷◌ c s) =
    let (part, parts) = split_from s in
    if code c == 44 then ("", part ∷ parts) else (String.◌∷◌ c part, parts)

abbrev pub split_commas : String → List String
split_commas s = let (part, parts) = split_from s in part ∷ parts

module _ {T : Type 0} (same : T → T → Bool) (parse : String → Option T) (label : String) where
  abbrev pub contains : T → List T → Bool
  contains v [] = false
  contains v (w ∷ out) = same w v || contains v out

  abbrev pub push : List T → T → List T
  push out v = if contains v out then out else append out (v ∷ [])

  abbrev pub parsed : List T → String → Option T → Result AppError (List T)
  parsed out token (some v) = ok (push out v)
  parsed out token none = err (invalid_request ("Invalid " ++ label ++ ": " ++ token))

  abbrev pub add_token : List T → String → Result AppError (List T)
  add_token out token = if is_empty token then ok out else parsed out token (parse token)

  unfoldable pub add_tokens : List String → List T → Result AppError (List T)
  add_tokens [] out = ok out
  add_tokens (token ∷ tokens) out = add_token out (trim token) >>= add_tokens tokens

  unfoldable pub add_pairs : String → List (String × String) → List T → Result AppError (List T)
  add_pairs key [] out = ok out
  add_pairs key (pair ∷ pairs) out =
      (if str_eq pair.0 key then add_tokens (split_commas pair.1) out else ok out)
      >>= add_pairs key pairs

  abbrev pub parse_filter_list : List (String × String) → String → Result AppError (List T)
  parse_filter_list pairs key = add_pairs key pairs []

abbrev pub same_status : JobStatus → JobStatus → Bool
same_status s t = str_eq (job_status_text s) (job_status_text t)

abbrev same_trigger : TriggerType → TriggerType → Bool
same_trigger s t = str_eq (trigger_type_text s) (trigger_type_text t)

abbrev same_type : EndpointType → EndpointType → Bool
same_type s t = str_eq (endpoint_type_text s) (endpoint_type_text t)

-- `rfc3339` is chrono's reader of a time.
abbrev date_of : (String → Option ℕ) → String → Option String → Result AppError (Option ℕ)
date_of rfc3339 label none = ok none
date_of rfc3339 label (some s) = elim (rfc3339 s) [
  | some t ↦ ok (some t)
  | none ↦ err (invalid_request ("Invalid " ++ label ++ ": " ++ s))
]

abbrev pub parse_datetime :
    (String → Option ℕ) → Option String → String → Result AppError (Option ℕ)
parse_datetime rfc3339 value label = date_of rfc3339 label (blank_to_none value)

abbrev pub is_inverted : Option ℕ → Option ℕ → Bool
is_inverted (some a) (some b) = ltb b a
is_inverted _ _ = false

unfoldable pub parse_job_filters :
    (String → Option ℕ) → List (String × String) → Result AppError JobFilters
parse_job_filters rfc3339 pairs = do
  created_after ← parse_datetime rfc3339 (last_scalar pairs "created_after") "created_after"
  created_before ← parse_datetime rfc3339 (last_scalar pairs "created_before") "created_before"
  ordered ←
      (if is_inverted created_after created_before
        then err (invalid_request "created_after must not be after created_before")
        else ok tt)
  status ← parse_filter_list same_status job_status_of_text "status" pairs "status"
  trigger ← parse_filter_list same_trigger trigger_type_of_text "trigger" pairs "trigger_type"
  endpoint_type ←
      parse_filter_list same_type endpoint_type_of_text "endpoint_type" pairs "endpoint_type"
  ok (record {
    job_id = last_scalar pairs "job_id";
    status = status;
    trigger = trigger;
    endpoint = last_scalar pairs "endpoint";
    endpoint_type = endpoint_type;
    created_after = created_after;
    created_before = created_before;
  })

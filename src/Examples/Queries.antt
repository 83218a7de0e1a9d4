-- ===== src/Examples/Queries.antt =====
-- The filters and the query of a list of jobs, tried at concrete values.
use Prim.Native.String.{◌++◌}
use invokr.Base.{◌≡◌, refl, some, none, [], ◌∷◌, ◌++◌ as append}
use invokr.Base.Text.{show_nat, trim, is_whitespace, trim_start, trim_end}
use invokr.Base.Result.{ok}
use invokr.Store.{active, retired, http}
use invokr.Store.Enums.{job_status_of_text, job_status_text, endpoint_type_text}
use invokr.Filters.{JobFilters, same_status, parse_filter_list, split_from, add_tokens, add_pairs}
use invokr.Filters.Commas.{parse_filter_list-joined}
use invokr.ListQuery.{scalar, array, escape_like, build, build_list_query}
use invokr.ListQuery.Placeholders.{made_of, parts, build-made_of}
use invokr.ListQuery.Literals.{literal_of, literal_of-escape_like}

parse_filter_list-joined_example :
    parse_filter_list same_status job_status_of_text "status"
      (append [] (("status", "ACTIVE" ++ ("," ++ "RETIRED")) ∷ []))
      "status"
    ≡ parse_filter_list same_status job_status_of_text "status"
        (append [] (("status", "ACTIVE") ∷ ("status", "RETIRED") ∷ []))
        "status"
parse_filter_list-joined_example =
    parse_filter_list-joined same_status job_status_of_text "status" "status" "ACTIVE" "RETIRED" []
      []

abbrev filters : JobFilters
filters = record {
  job_id = none;
  status = active ∷ retired ∷ [];
  trigger = [];
  endpoint = some "order_50%";
  endpoint_type = http ∷ [];
  created_after = some 7;
  created_before = none;
}

build-made_of_example :
    build show_nat "jobs" (some "job-9") filters
    ≡ made_of (parts show_nat "jobs" (some "job-9") filters)
build-made_of_example = build-made_of show_nat "jobs" (some "job-9") filters

literal_of-escape_like_example : literal_of (escape_like "order_50%") ≡ some "order_50%"
literal_of-escape_like_example = literal_of-escape_like "order_50%"

query_test : build_list_query show_nat "jobs" (some "job-9") filters ≡ (
  "SELECT * FROM jobs WHERE (created_at, job_id) < ((SELECT created_at FROM jobs WHERE job_id = $1), $1) AND status = ANY($2) AND endpoint_type = ANY($3) AND endpoint ILIKE '%' || $4 || '%' ESCAPE '\\' AND created_at >= $5::timestamptz ORDER BY created_at DESC, job_id DESC LIMIT $6",
  scalar "job-9"
      ∷ array ("ACTIVE" ∷ "RETIRED" ∷ [])
      ∷ array ("HTTP" ∷ [])
      ∷ scalar "order\\_50\\%"
      ∷ scalar "7"
      ∷ [],
)
unfolding build_list_query build show_nat escape_like job_status_text endpoint_type_text
query_test = refl

filters_test :
    parse_filter_list same_status job_status_of_text "status"
      (("status", " ACTIVE , ACTIVE ,, RETIRED ") ∷ ("job", "x") ∷ [])
      "status"
    ≡ ok (active ∷ retired ∷ [])
unfolding split_from add_tokens add_pairs job_status_of_text job_status_text trim trim_start
    trim_end is_whitespace
filters_test = refl

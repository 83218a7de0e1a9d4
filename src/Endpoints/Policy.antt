-- ===== src/Endpoints/Policy.antt =====
-- The round trip of a retry policy through the column `retry_policy`.
use invokr.Base.{◌≡◌, ◌^◌, ◌≤◌, ◌<◌, some, arith, refl}
use invokr.Base.Int.{ℤ, pos, negsuc, pos_part, neg_part}
use invokr.Store.{Endpoint}
use invokr.Json.{get_field, int}
use invokr.Endpoints.{
  RetryPolicy, retry_policy_of_json, json_of_retry_policy, get_retry_policy, as_i64,
}

-- An integer within `i64`.
abbrev pub IsI64 : ℤ → Type 0
IsI64 a = (pos_part a < 2 ^ 63) × (neg_part a ≤ 2 ^ 63)

as_i64-int : (a : ℤ) → IsI64 a → as_i64 (int a) ≡ some a
as_i64-int (pos n) h = ground arith
as_i64-int (negsuc n) h = ground arith

pub retry_policy_of_json-json :
    (p : RetryPolicy)
    → IsI64 p.max_attempts
    → IsI64 p.initial_delay_ms
    → IsI64 p.max_delay_ms
    → retry_policy_of_json (json_of_retry_policy p) ≡ some p
unfolding retry_policy_of_json json_of_retry_policy get_field
retry_policy_of_json-json p a i m =
    rw (as_i64-int p.max_attempts a, as_i64-int p.initial_delay_ms i, as_i64-int p.max_delay_ms m)
      refl

-- What the endpoint handlers store of a retry policy is read back as that policy, for any policy
-- of 64-bit numbers.
get_retry_policy-json :
    (e : Endpoint) (p : RetryPolicy)
    → e.retry_policy ≡ some (json_of_retry_policy p)
    → IsI64 p.max_attempts
    → IsI64 p.initial_delay_ms
    → IsI64 p.max_delay_ms
    → get_retry_policy e ≡ p
unfolding get_retry_policy retry_policy_of_json json_of_retry_policy get_field
get_retry_policy-json e p stored a i m =
    rw (stored, get_retry_policy)
      (rw
        (as_i64-int p.max_attempts a, as_i64-int p.initial_delay_ms i, as_i64-int p.max_delay_ms m)
        refl)

-- ===== src/Backoff.antt =====
-- crates/worker/src/backoff.rs: how long a failed attempt waits for the next.
pub mod Bounds
use invokr.Base.{ℕ, ◌-◌, ◌%◌, ◌^◌, Option, none, some, str_eq, if◌then◌else◌}
use invokr.Base.Int.{ℤ, pos, ltb_ℤ}
use invokr.Endpoints.{RetryPolicy}
use invokr.Base.Word.{wrap, mul_i64, add_i64, div_four}

-- `2_i64.pow(n)`.
unfoldable pub pow_two : ℕ → ℤ
unfolding wrap
pow_two n = wrap (pos (2 ^ n))

-- `attempt` is at least 0, as the column `attempt_count` is; `as u32` drops the high bits.
unfoldable pub base_delay : RetryPolicy → ℕ → ℤ
base_delay policy attempt =
    if str_eq policy.backoff "fixed"
    then policy.initial_delay_ms
    else if str_eq policy.backoff "linear"
    then mul_i64 policy.initial_delay_ms (pos attempt)
    else mul_i64 policy.initial_delay_ms (pow_two ((attempt - 1) % 2 ^ 32))

-- `gen_range(-r..=r)` is the argument `rand`, and is drawn only for a positive range.
unfoldable pub with_jitter : (ℤ → ℤ) → ℤ → ℤ
with_jitter rand delay =
    add_i64 delay (if ltb_ℤ (pos 0) (div_four delay) then rand (div_four delay) else pos 0)

-- `clamp(0, max)`, which panics if the range is empty.
unfoldable pub clamp : ℤ → ℤ → Option ℤ
clamp top d =
    if ltb_ℤ top (pos 0)
    then none
    else some (if ltb_ℤ d (pos 0) then pos 0 else if ltb_ℤ top d then top else d)

unfoldable pub compute_backoff : (ℤ → ℤ) → RetryPolicy → ℕ → Option ℤ
compute_backoff rand policy attempt =
    clamp policy.max_delay_ms (with_jitter rand (base_delay policy attempt))

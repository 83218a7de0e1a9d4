-- ===== src/Backoff/Bounds.antt =====
-- How long a retry waits.
use invokr.Base.{
  ℕ, zero, suc, ◌+◌, ◌-◌, ◌*◌, ◌/◌, ◌%◌, ◌^◌, ◌≤◌, ◌<◌, ◌≡◌, false, some, arith, str_eq,
  if◌then◌else◌, min, Bool-cases, inl, inr, ap, ◌∙◌,
}
use invokr.Base.Int.{ℤ, pos, ltb_ℤ, ◌≤ℤ◌, pos_part, neg_part}
use invokr.Base.Word.{wrap-pos, wrap-word, mul_i64-pos, add_i64-pos, mul_i64-zero}
use native.Mathlib.Nat.{pow-suc, add-zero, add-suc}
use invokr.Endpoints.{RetryPolicy}
use invokr.Backoff.{pow_two, base_delay, with_jitter, clamp, compute_backoff}

clamp_bounds :
    (top d : ℤ) → pos 0 ≤ℤ top → (r : ℤ) × (clamp top d ≡ some r) × (pos 0 ≤ℤ r) × (r ≤ℤ top)
unfolding clamp
clamp_bounds top d h = (
  if ltb_ℤ d (pos 0) then pos 0 else if ltb_ℤ top d then top else d,
  ground arith,
  ground arith,
  ground arith,
)

-- Whatever the random draw, the attempt and any overflow on the way: with a maximum that is not
-- negative the wait is computed, is not negative, and does not pass the maximum.
compute_backoff_bounds :
    (rand : ℤ → ℤ) (policy : RetryPolicy) (attempt : ℕ)
    → pos 0 ≤ℤ policy.max_delay_ms
    → (r : ℤ) × (compute_backoff rand policy attempt ≡ some r)
      × (pos 0 ≤ℤ r)
      × (r ≤ℤ policy.max_delay_ms)
unfolding compute_backoff
compute_backoff_bounds rand policy attempt h =
    clamp_bounds policy.max_delay_ms (with_jitter rand (base_delay policy attempt)) h

-- The delay that a policy means, with no bound on its size.
abbrev pub ideal_delay : RetryPolicy → ℕ → ℕ → ℕ
ideal_delay policy initial attempt =
    if str_eq policy.backoff "fixed"
    then initial
    else if str_eq policy.backoff "linear"
    then initial * attempt
    else initial * 2 ^ (attempt - 1)

-- What `gen_range(-r..=r)` returns.
abbrev pub IsJitter : (ℤ → ℤ) → Type 0
IsJitter rand = (n : ℕ) → (pos_part (rand (pos n)) ≤ n) × (neg_part (rand (pos n)) ≤ n)

two_pow_pos : (n : ℕ) → 0 < 2 ^ n
two_pow_pos zero = omega arith
two_pow_pos (suc n) = rw (pow-suc 2 n) (omega (arith, two_pow_pos n))

pow_two-pos : (n : ℕ) → 2 ^ n < 2 ^ 63 → pow_two n ≡ pos (2 ^ n)
unfolding pow_two
pow_two-pos n h = wrap-pos (2 ^ n) h

factor_lt : (a b : ℕ) {n : ℕ} → 0 < a → a * b < n → b < n
factor_lt a b p h = grind arith

base_delay-ideal :
    (policy : RetryPolicy) (initial attempt : ℕ)
    → policy.initial_delay_ms ≡ pos initial
    → 0 < initial
    → attempt ≤ 2 ^ 32
    → ideal_delay policy initial attempt < 2 ^ 63
    → base_delay policy attempt ≡ pos (ideal_delay policy initial attempt)
unfolding base_delay
base_delay-ideal policy initial attempt e p small fits =
    elim (Bool-cases (str_eq policy.backoff "fixed")) [
      | inl fixed ↦ rw (fixed, base_delay) e
      | inr unfixed ↦ elim (Bool-cases (str_eq policy.backoff "linear")) [
        | inl linear ↦ ground (arith, mul_i64-pos initial attempt)
        | inr other ↦
            let product : initial * 2 ^ (attempt - 1) < 2 ^ 63 = rw (unfixed, other) at fits in
            let exponent : (attempt - 1) % 2 ^ 32 ≡ attempt - 1 = omega arith in
            let factor : 2 ^ (attempt - 1) < 2 ^ 63 =
              factor_lt initial (2 ^ (attempt - 1)) p product in
            let power : pow_two ((attempt - 1) % 2 ^ 32) ≡ pos (2 ^ (attempt - 1)) =
              ap pow_two exponent ∙ pow_two-pos (attempt - 1) factor in
            ground (arith, power, mul_i64-pos initial (2 ^ (attempt - 1)) product)
      ]
    ]

with_jitter_bounds :
    (rand : ℤ → ℤ) (d : ℕ)
    → IsJitter rand
    → d + d / 4 < 2 ^ 63
    → (m : ℕ) × (with_jitter rand (pos d) ≡ pos m) × (d - d / 4 ≤ m) × (m ≤ d + d / 4)
unfolding with_jitter
with_jitter_bounds rand d j h = elim (Bool-cases (ltb_ℤ (pos 0) (pos (d / 4)))) [
  | inl wide ↦
      let (high, low) = j (d / 4) in
      (
        d + pos_part (rand (pos (d / 4))) - neg_part (rand (pos (d / 4))),
        rw (wide, with_jitter) (add_i64-pos d (rand (pos (d / 4))) (omega arith) (omega arith)),
        omega arith,
        omega arith,
      )
  | inr narrow ↦ (
    d,
    rw (narrow, with_jitter)
        (add_i64-pos d (pos 0) (omega arith) (omega arith) ∙ ap pos (omega arith)),
    omega arith,
    omega arith,
  )
]

clamp-pos : (top m : ℕ) → clamp (pos top) (pos m) ≡ some (pos (min top m))
unfolding clamp
clamp-pos top m = ground arith

-- With a random draw within its range, a positive initial delay and a maximum that is not negative,
-- and while the delay that the policy means and its jitter fit 64 bits, the wait is that delay, fixed,
-- linear or exponential, give or take a quarter of it, cut off at the maximum.
pub compute_backoff_near :
    (rand : ℤ → ℤ) (policy : RetryPolicy) (initial top attempt : ℕ)
    → IsJitter rand
    → policy.initial_delay_ms ≡ pos initial
    → policy.max_delay_ms ≡ pos top
    → 0 < initial
    → attempt ≤ 2 ^ 32
    → ideal_delay policy initial attempt + ideal_delay policy initial attempt / 4 < 2 ^ 63
    → let d = ideal_delay policy initial attempt in
      (m : ℕ) × (compute_backoff rand policy attempt ≡ some (pos m))
      × (min top (d - d / 4) ≤ m)
      × (m ≤ min top (d + d / 4))
unfolding compute_backoff
compute_backoff_near rand policy initial top attempt j e t p small fits =
    let d : ℕ = ideal_delay policy initial attempt in
    let (m, drawn, low, high) = with_jitter_bounds rand d j fits in
    (
      min top m,
      rw (base_delay-ideal policy initial attempt e p small (below d fits), t, drawn)
          (clamp-pos top m),
      min-mono top (d - d / 4) m low,
      min-mono top m (d + d / 4) high,
    )
  where
    below : (d : ℕ) → d + d / 4 < 2 ^ 63 → d < 2 ^ 63
    below d h = omega arith

    min-mono : (top a b : ℕ) → a ≤ b → min top a ≤ min top b
    min-mono top a b h = omega arith

two_pow-add : (n k : ℕ) → 2 ^ (n + k) ≡ 2 ^ n * 2 ^ k
two_pow-add n zero = rw (add-zero n) (omega arith)
two_pow-add n (suc k) =
    rw (add-suc n k, pow-suc 2 (n + k), pow-suc 2 k)
      (omega (arith, ap (λ (t : ℕ). t * 2) (two_pow-add n k)))

pow_two-zero : (k : ℕ) → pow_two (k + 64) ≡ pos 0
unfolding pow_two
pow_two-zero k = rw (two_pow-add k 64) (wrap-word (2 ^ k))

with_jitter-zero : (rand : ℤ → ℤ) → with_jitter rand (pos 0) ≡ pos 0
unfolding with_jitter
with_jitter-zero rand = add_i64-pos 0 (pos 0) (omega arith) (omega arith)

clamp-zero : (top : ℤ) → pos 0 ≤ℤ top → clamp top (pos 0) ≡ some (pos 0)
unfolding clamp
clamp-zero top h = ground arith

-- From the 65th attempt on, and up to 2 ^ 32, a policy that is neither fixed nor linear, and whose
-- maximum is not negative, does not wait at all: the power of two has left the 64 bits.
pub compute_backoff_collapses :
    (rand : ℤ → ℤ) (policy : RetryPolicy) (attempt : ℕ)
    → str_eq policy.backoff "fixed" ≡ false
    → str_eq policy.backoff "linear" ≡ false
    → pos 0 ≤ℤ policy.max_delay_ms
    → 65 ≤ attempt
    → attempt ≤ 2 ^ 32
    → compute_backoff rand policy attempt ≡ some (pos 0)
unfolding compute_backoff base_delay
compute_backoff_collapses rand policy attempt f l top many small =
    rw (f, l, vanished, mul_i64-zero policy.initial_delay_ms, still)
      (clamp-zero policy.max_delay_ms top)
  where
    vanished : pow_two ((attempt - 1) % 2 ^ 32) ≡ pos 0
    vanished =
        let e : (attempt - 1) % 2 ^ 32 ≡ (attempt - 65) + 64 = omega arith in
        ap pow_two e ∙ pow_two-zero (attempt - 65)

    still : with_jitter rand (pos 0) ≡ pos 0
    still = with_jitter-zero rand

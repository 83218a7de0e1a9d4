-- ===== src/Examples/Parts.antt =====
-- The parts of the worker, tried at concrete values.
use invokr.Base.{
  ℕ, ◌-◌, ◌+◌, ◌/◌, ◌≤◌, min, ◌≡◌, refl, inl, inr, String, some, List, [], ◌∷◌, arith, str_eq,
  eq_iff, Bool-cases,
}
use invokr.Base.Int.{ℤ, pos}
use invokr.Base.Result.{ok, err}
use invokr.Json.{Json, str, obj, end, field}
use invokr.Endpoints.{RetryPolicy}
use invokr.Backoff.Bounds.{IsJitter, ideal_delay, compute_backoff_near, compute_backoff_collapses}
use invokr.Backoff.{compute_backoff}
use invokr.Template.{Scope}
use invokr.Crypto.{Inverts}
use invokr.Examples.{one_text}

abbrev pub policy : RetryPolicy
policy = record {
  max_attempts = pos 3;
  backoff = "exponential";
  initial_delay_ms = pos 1000;
  max_delay_ms = pos 60000;
}

abbrev middle : ℤ → ℤ
middle r = pos 0

middle-IsJitter : IsJitter middle
middle-IsJitter n = (omega arith, omega arith)

compute_backoff_near_example :
    (m : ℕ) × (compute_backoff middle policy 3 ≡ some (pos m))
    × (min 60000 (ideal_delay policy 1000 3 - ideal_delay policy 1000 3 / 4) ≤ m)
    × (m ≤ min 60000 (ideal_delay policy 1000 3 + ideal_delay policy 1000 3 / 4))
compute_backoff_near_example =
    compute_backoff_near middle policy 1000 60000 3 middle-IsJitter refl refl (omega arith)
      (omega arith) (omega arith)

compute_backoff_collapses_example : compute_backoff middle policy 70 ≡ some (pos 0)
compute_backoff_collapses_example =
    compute_backoff_collapses middle policy 70 refl refl (omega arith) (omega arith) (omega arith)

abbrev scope : Scope
scope = record { input = ("a", str "x") ∷ []; config = []; secrets = []; execution = [] }

abbrev pub key_hex : String
key_hex = "0123456789abcdef0123456789abcdef0123456789ABCDEF0123456789abcdef"

abbrev pub nonce : List ℕ
nonce = 1 ∷ 2 ∷ 3 ∷ 4 ∷ 5 ∷ 6 ∷ 7 ∷ 8 ∷ 9 ∷ 10 ∷ 11 ∷ 12 ∷ []

pub one_text-Inverts : Inverts one_text
one_text-Inverts key nonce text sealed h = elim (Bool-cases (str_eq text "abc")) [
  | inl hit ↦ let e : text ≡ "abc" = (eq_iff text "abc").0 hit in rw e refl
  | inr miss ↦ absurd (let q : err "unknown" ≡ ok sealed = rw miss at h in cc)
]

abbrev spec : Json
spec = obj (field "headers" (obj (field "X-A" (str "1") end)) (field "url" (str "http://x") end))

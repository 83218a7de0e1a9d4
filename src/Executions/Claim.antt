-- ===== src/Executions/Claim.antt =====
-- Which row the pickup query of crates/common/src/db/executions.rs takes.
use mathlib.Core.List.{Memᴰ}
use mathlib.Core.Path.{subst}
use invokr.Base.{
  ℕ, ◌≤◌, ◌≡◌, refl, sym, ap, ◌⊎◌, String, Bool, true, false, Option, none, some, List, [], ◌∷◌,
  arith, leb, if◌then◌else◌, All, Bool-cases, Option-cases, inl, inr, ◌≢◌, ◌↔◌,
}
use invokr.Base.Rows.{update_where}
use invokr.Store.{Execution}
use invokr.Executions.{earliest, is_due, claimed, claim_row, has_id}

-- `e` is taken before every row of `t` that meets the test.
abbrev pub IsFirst : (Execution → Bool) → Execution → List Execution → Type 0
IsFirst p e t = All (λ x. p x ≡ true → e.run_at ≤ x.run_at) t

IsFirst-mono :
    (p : Execution → Bool) (d e : Execution) (t : List Execution)
    → d.run_at ≤ e.run_at
    → IsFirst p e t
    → IsFirst p d t
IsFirst-mono p d e [] h f = tt
IsFirst-mono p d e (x ∷ t) h f = (λ q. omega (arith, f.0 q), IsFirst-mono p d e t h f.1)

earliest-none :
    (p : Execution → Bool) (t : List Execution) → (earliest p t ≡ none) ↔ All (λ x. p x ≡ false) t
unfolding earliest
earliest-none p [] = (λ _. tt, λ _. refl)
earliest-none p (x ∷ t) = ground (arith, earliest-none p t)

IsFirst-none :
    (p : Execution → Bool) (e : Execution) (t : List Execution)
    → All (λ x. p x ≡ false) t
    → IsFirst p e t
IsFirst-none p e [] a = tt
IsFirst-none p e (x ∷ t) a = (λ q. cc (a.0), IsFirst-none p e t a.1)

abbrev pub Picked : (Execution → Bool) → Execution → List Execution → Type 0
Picked p e t = Memᴰ e t × (p e ≡ true) × IsFirst p e t

module _ (p : Execution → Bool) (x : Execution) (t : List Execution) (hit : p x ≡ true) where
  Picked-head : IsFirst p x t → Picked p x (x ∷ t)
  Picked-head f = (Memᴰ.head refl, hit, (λ _. omega arith, f))

  Picked-tail : (r : Execution) → r.run_at ≤ x.run_at → Picked p r t → Picked p r (x ∷ t)
  Picked-tail r h (m, q, f) = (Memᴰ.tail m, q, (λ _. h, f))

  Picked-first :
      (r : Execution) → Picked p r t → Picked p (if leb x.run_at r.run_at then x else r) (x ∷ t)
  Picked-first r picked = elim (Bool-cases (leb x.run_at r.run_at)) [
    | inl before ↦
        subst (λ d. Picked p d (x ∷ t)) (sym (ap (λ b. if b then x else r) before))
          (Picked-head (IsFirst-mono p x r t (ground arith) picked.2))
    | inr after ↦
        subst (λ d. Picked p d (x ∷ t)) (sym (ap (λ b. if b then x else r) after))
          (Picked-tail r (ground arith) picked)
  ]

earliest-Picked :
    (p : Execution → Bool) (t : List Execution) (e : Execution)
    → earliest p t ≡ some e
    → Picked p e t
unfolding earliest
earliest-Picked p [] e h = cc
earliest-Picked p (x ∷ t) e h = elim (Bool-cases (p x)) [
  | inr miss ↦
      let (m, q, f) = earliest-Picked p t e (ground arith) in (Memᴰ.tail m, q, (λ hit. cc, f))
  | inl hit ↦ elim (Option-cases (earliest p t)) [
    | inl nothing ↦
        subst (λ d. Picked p d (x ∷ t)) (ground arith)
          (Picked-head p x t hit (IsFirst-none p x t ((earliest-none p t).0 nothing)))
    | inr (r, found) ↦
        subst (λ d. Picked p d (x ∷ t)) (ground arith)
          (Picked-first p x t hit r (earliest-Picked p t r found))
  ]
]

-- What the pickup query does with a table: it takes a row that is due and not locked, before which
-- no other such row is due, or none if there is no such row.
abbrev pub ClaimOutcome :
    ℕ → (String → Bool) → String → List Execution → Option Execution × List Execution → Type 0
ClaimOutcome now locked worker_id t r =
    ((r.0 ≡ none) × (r.1 ≡ t) × All (λ x. is_due now locked x ≡ false) t)
    ⊎ ((e : Execution) × Picked (is_due now locked) e t
        × (r.0 ≡ some (claimed now worker_id e))
        × (r.1 ≡ update_where (has_id e.execution_id) (claimed now worker_id) t))

-- The pickup query takes a row that may be picked up (QUEUED, RETRYING or PENDING), is due and is
-- not locked by another transaction, and whose `run_at` is the least of all such rows; it marks
-- that row as running for the worker and counts the attempt. It takes none, and changes nothing,
-- exactly in the case that no row is such.
pub claim_row-ClaimOutcome :
    (now : ℕ) (locked : String → Bool) (worker_id : String) (t : List Execution)
    → ClaimOutcome now locked worker_id t (claim_row now locked worker_id t)
unfolding claim_row
claim_row-ClaimOutcome now locked worker_id t =
    elim (Option-cases (earliest (is_due now locked) t)) [
      | inl nothing ↦ rw (nothing, claim_row) (inl (refl, refl, (earliest-none _ t).0 nothing))
      | inr (e, found) ↦
          rw (found, claim_row) (inr (e, earliest-Picked (is_due now locked) t e found, refl, refl))
    ]

-- A worker that holds a row keeps every other worker off it: what the other claims, whatever its
-- clock and its view of the table, is another execution.
pub claim_row_exclusive :
    (now : ℕ) (locked : String → Bool) (worker_id id : String) (t : List Execution) (c : Execution)
    → locked id ≡ true
    → (claim_row now locked worker_id t).0 ≡ some c
    → c.execution_id ≢ id
claim_row_exclusive now locked worker_id id t c held h same =
    elim (claim_row-ClaimOutcome now locked worker_id t) [
      | inl (nothing, _, _) ↦ cc
      | inr (e, picked, got, _) ↦
          let ids : e.execution_id ≡ id = ground arith in
          let free : is_due now locked e ≡ true = picked.1 in ground (arith, ap locked ids)
    ]

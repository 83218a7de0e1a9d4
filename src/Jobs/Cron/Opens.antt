-- ===== src/Jobs/Cron/Opens.antt =====
-- When a tick of pg_cron is to add an execution for a job, and which one: said without the command.
use Prim.Native.String.{◌++◌}
use invokr.Base.{
  ℕ, ◌+◌, ◌/◌, ◌^◌, ◌≤◌, ◌<◌, ◌≡◌, refl, ◌⊎◌, inl, inr, String, true, false, Option, none, some,
  List, [], ◌∷◌, ◌&&◌, eq_refl, Bool-cases, Option-cases, All, ap, sym, ◌∙◌, ltb, str_eq, eq_iff,
  arith,
}
use invokr.Base.Int.{ℤ, pos, negsuc}
use invokr.Base.Text.{show_nat}
use invokr.Json.{Json, int, null, bool, float, str, arr, obj}
use invokr.Json as Json
use invokr.Store.{Job, JobStatus, retired, Execution, active, queued}
use invokr.Endpoints.{as_i64}
use invokr.Executions.{takes_id, takes_key}
use invokr.Jobs.{is_active}
use invokr.Jobs.Cron.{attempts_of, has_started, is_unended, fires, policy_attempts, tick_row}

-- The start of a window has come, and its end has not.
abbrev pub HasBegun : ℕ → Option ℕ → Type 0
HasBegun now none = Unit {0}
HasBegun now (some start) = start ≤ now

abbrev pub HasLeft : ℕ → Option ℕ → Type 0
HasLeft now none = Unit {0}
HasLeft now (some end) = now < end

abbrev pub IsOpen : ℕ → String → Job → Type 0
IsOpen now job_id j =
    (j.job_id ≡ job_id)
    × (j.status ≡ active)
    × HasBegun now j.cron_starts_at
    × HasLeft now j.cron_ends_at

abbrev pub IsBigint : ℤ → Type 0
IsBigint (pos n) = n < 2 ^ 63
IsBigint (negsuc n) = n < 2 ^ 63

-- The number of attempts that a retry policy allows: 1 where it gives none.
abbrev pub Gives : Option Json → ℤ → Type 0
Gives none n = n ≡ pos 1
Gives (some null) n = n ≡ pos 1
Gives (some v) n = (v ≡ int n) × IsBigint n

abbrev pub Allows : Option Json → ℤ → Type 0
Allows none n = n ≡ pos 1
Allows (some policy) n = Gives (Json.get "max_attempts" policy) n

-- The row of a tick, with the millisecond in its key.
abbrev pub key_of : ℕ → Job → String
key_of now j = "cron_" ++ j.job_id ++ "_" ++ show_nat ((now + 500) / 1000)

abbrev pub due_row : ℕ → String → Job → ℤ → Execution
due_row now new_id j n = record {
  execution_id = new_id;
  job_id = j.job_id;
  endpoint = j.endpoint;
  endpoint_type = j.endpoint_type;
  idempotency_key = some (key_of now j);
  status = queued;
  input = j.input;
  output = none;
  attempt_count = 0;
  max_attempts = n;
  worker_id = none;
  run_at = now;
  started_at = none;
  completed_at = none;
  duration_ms = none;
  created_at = now;
}

abbrev pub Clashes : ℕ → String → Job → Execution → Type 0
Clashes now new_id j x =
    (x.execution_id ≡ new_id) ⊎ ((x.job_id ≡ j.job_id) × (x.idempotency_key ≡ some (key_of now j)))

started : (now : ℕ) (o : Option ℕ) → has_started now o ≡ true → HasBegun now o
started now none h = tt
started now (some t) h = ground (arith, h)

unstarted : (now : ℕ) (o : Option ℕ) → has_started now o ≡ false → ¬ HasBegun now o
unstarted now none h b = cc
unstarted now (some t) h b = ground (arith, h, b)

unended : (now : ℕ) (o : Option ℕ) → is_unended now o ≡ true → HasLeft now o
unended now none h = tt
unended now (some t) h = ground (arith, h)

ended : (now : ℕ) (o : Option ℕ) → is_unended now o ≡ false → ¬ HasLeft now o
ended now none h b = cc
ended now (some t) h b = ground (arith, h, b)

live : (s : JobStatus) → is_active s ≡ true → s ≡ active
live active h = refl
live retired h = absurd cc

pub fires-IsOpen :
    (now : ℕ) (job_id : String) (j : Job) → fires now job_id j ≡ true → IsOpen now job_id j
fires-IsOpen now job_id j h = (
  (eq_iff j.job_id job_id).0 (ground (arith, h)),
  live j.status (ground (arith, h)),
  started now j.cron_starts_at (ground (arith, h)),
  unended now j.cron_ends_at (ground (arith, h)),
)

pub fires-closed :
    (now : ℕ) (job_id : String) (j : Job) → fires now job_id j ≡ false → ¬ IsOpen now job_id j
fires-closed now job_id j h (id, status, begun, left) =
    elim (Bool-cases (has_started now j.cron_starts_at)) [
      | inr early ↦ unstarted now j.cron_starts_at early begun
      | inl begins ↦ elim (Bool-cases (is_unended now j.cron_ends_at)) [
        | inr late ↦ ended now j.cron_ends_at late left
        | inl runs ↦
            let h2 : true ≡ false = rw ((eq_iff j.job_id job_id).1 id, status, begins, runs) at h in
            cc
      ]
    ]

number : (v : Json) (n : ℤ) → as_i64 v ≡ some n → (v ≡ int n) × IsBigint n
number (int (pos m)) n h = elim (Bool-cases (ltb m (2 ^ 63))) [
  | inl fits ↦
      let h2 : some (pos m) ≡ some n = rw fits at h in
      let e : pos m ≡ n = cc in (ap int e, rw (← e) (ground (arith, fits)))
  | inr wide ↦ let h2 : none ≡ some n = rw wide at h in absurd cc
]
number (int (negsuc m)) n h = elim (Bool-cases (ltb m (2 ^ 63))) [
  | inl fits ↦
      let h2 : some (negsuc m) ≡ some n = rw fits at h in
      let e : negsuc m ≡ n = cc in (ap int e, rw (← e) (ground (arith, fits)))
  | inr wide ↦ let h2 : none ≡ some n = rw wide at h in absurd cc
]
number null n h = absurd cc
number (bool b) n h = absurd cc
number (float t) n h = absurd cc
number (str t) n h = absurd cc
number (arr xs) n h = absurd cc
number (obj fs) n h = absurd cc

readable : (n : ℤ) → IsBigint n → as_i64 (int n) ≡ some n
readable (pos m) small = ground (arith, small)
readable (negsuc m) small = ground (arith, small)

no_number : (v : Json) (n : ℤ) → as_i64 v ≡ none → v ≡ int n → ¬ IsBigint n
no_number v n h same small =
    let h2 : none ≡ some n = sym h ∙ ap as_i64 same ∙ readable n small in cc

given : (o : Option Json) (n : ℤ) → attempts_of o ≡ some n → Gives o n
given none n h = let e : n ≡ pos 1 = cc in e
given (some null) n h = let e : n ≡ pos 1 = cc in e
given (some (int z)) n h = number (int z) n h
given (some (bool b)) n h = absurd cc
given (some (float t)) n h = absurd cc
given (some (str t)) n h = absurd cc
given (some (arr xs)) n h = absurd cc
given (some (obj fs)) n h = absurd cc

not_given : (o : Option Json) (n : ℤ) → attempts_of o ≡ none → ¬ Gives o n
not_given none n h g = cc
not_given (some null) n h g = cc
not_given (some (int z)) n h g = no_number (int z) n h g.0 g.1
not_given (some (bool b)) n h g = let e = g.0 in cc
not_given (some (float t)) n h g = let e = g.0 in cc
not_given (some (str t)) n h g = let e = g.0 in cc
not_given (some (arr xs)) n h g = let e = g.0 in cc
not_given (some (obj fs)) n h g = let e = g.0 in cc

pub allows : (o : Option Json) (n : ℤ) → policy_attempts o ≡ some n → Allows o n
allows none n h = let e : n ≡ pos 1 = cc in e
allows (some policy) n h = given (Json.get "max_attempts" policy) n h

pub forbids : (o : Option Json) → policy_attempts o ≡ none → ¬ ((n : ℤ) × Allows o n)
forbids none h (n, a) = cc
forbids (some policy) h (n, a) = not_given (Json.get "max_attempts" policy) n h a

pub clashes :
    (now : ℕ) (new_id : String) (j : Job) (n : ℤ) (x : Execution)
    → takes_key (tick_row now new_id j n) x ≡ true
    → Clashes now new_id j x
clashes now new_id j n x h = elim (Option-cases x.idempotency_key) [
  | inl keyless ↦ elim (Bool-cases (str_eq x.job_id j.job_id)) [
    | inl same ↦ absurd (let h2 : false ≡ true = rw (keyless, same) at h in cc)
    | inr apart ↦ absurd (let h2 : false ≡ true = rw (keyless, apart) at h in cc)
  ]
  | inr (k, keyed) ↦
      let h2 : (str_eq x.job_id j.job_id && str_eq k (key_of now j)) ≡ true = rw keyed at h in
      inr (
        (eq_iff x.job_id j.job_id).0 (ground (arith, h2)),
        keyed ∙ ap some ((eq_iff k (key_of now j)).0 (ground (arith, h2))),
      )
]

free :
    (now : ℕ) (new_id : String) (j : Job) (n : ℤ) (x : Execution)
    → takes_id (tick_row now new_id j n) x ≡ false
    → takes_key (tick_row now new_id j n) x ≡ false
    → ¬ Clashes now new_id j x
free now new_id j n x id key (inl same) =
    let h : true ≡ false = rw ((eq_iff x.execution_id new_id).1 same) at id in cc
free now new_id j n x id key (inr (same, keyed)) =
    let h : true ≡ false =
      rw (keyed, (eq_iff x.job_id j.job_id).1 same, eq_refl (key_of now j)) at key in
    cc

pub all_free :
    (now : ℕ) (new_id : String) (j : Job) (n : ℤ) (t : List Execution)
    → All (λ x. takes_id (tick_row now new_id j n) x ≡ false) t
    → All (λ x. takes_key (tick_row now new_id j n) x ≡ false) t
    → All (λ x. ¬ Clashes now new_id j x) t
all_free now new_id j n [] ids keys = tt
all_free now new_id j n (x ∷ t) (id, ids) (key, keys) =
    (free now new_id j n x id key, all_free now new_id j n t ids keys)

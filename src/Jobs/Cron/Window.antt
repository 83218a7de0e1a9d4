-- ===== src/Jobs/Cron/Window.antt =====
-- What a tick of pg_cron adds to a workspace, and when it adds nothing.
use mathlib.Core.List.{Memᴰ}
use invokr.Base.{
  ℕ, ◌≡◌, refl, ◌⊎◌, inl, inr, String, true, false, ◌∷◌, find?, is_some, Option-cases, All,
  All-weaken, ap, eq_iff,
}
use invokr.Base.Int.{ℤ}
use invokr.Base.Rows.{Memᴰ-find?, All-find?}
use invokr.Store.{Store, Job, Endpoint, Execution}
use invokr.Endpoints.{named}
use invokr.Executions.{insert_row, takes_id, takes_key}
use invokr.Jobs.Cron.{fires, policy_attempts, tick_row, tick, fire, settled}
use invokr.Jobs.Cron.Opens.{
  IsOpen, Allows, Clashes, due_row, fires-IsOpen, fires-closed, allows, forbids, clashes, all_free,
}

-- The row of an open job is added, with the attempts of its endpoint.
abbrev pub Adds : ℕ → String → String → Store → Store → Type 0
Adds now new_id job_id s r =
    (j : Job) × (e : Endpoint) × (n : ℤ) × Memᴰ j s.jobs
    × IsOpen now job_id j
    × Memᴰ e s.endpoints
    × (e.name ≡ j.endpoint)
    × Allows e.retry_policy n
    × All (λ x. ¬ Clashes now new_id j x) s.executions
    × (r ≡ record s { executions = due_row now new_id j n ∷ s.executions })

-- Why nothing is added: no job is open, or an open one has no endpoint, or a policy that gives no
-- number, or a row with the id or the key.
abbrev pub Skips : ℕ → String → String → Store → Type 0
Skips now new_id job_id s =
    All (λ j. ¬ IsOpen now job_id j) s.jobs
    ⊎ ((j : Job) × Memᴰ j s.jobs
        × IsOpen now job_id j
        × (All (λ (e : Endpoint). ¬ (e.name ≡ j.endpoint)) s.endpoints
            ⊎ ((e : Endpoint) × Memᴰ e s.endpoints
                × (e.name ≡ j.endpoint)
                × (¬ ((n : ℤ) × Allows e.retry_policy n)))
            ⊎ ((x : Execution) × Memᴰ x s.executions × Clashes now new_id j x)))

abbrev pub TickOutcome : ℕ → String → String → Store → Store → Type 0
TickOutcome now new_id job_id s r =
    ((r ≡ s) × Skips now new_id job_id s) ⊎ Adds now new_id job_id s r

-- Whether the row finds its place.
insert_row-cases :
    (now : ℕ) (new_id : String) (j : Job) (n : ℤ) (s : Store)
    → ((settled s (insert_row (tick_row now new_id j n) s.executions) ≡ s)
        × ((x : Execution) × Memᴰ x s.executions × Clashes now new_id j x))
      ⊎ (All (λ x. ¬ Clashes now new_id j x) s.executions
          × (settled s (insert_row (tick_row now new_id j n) s.executions)
              ≡ record s { executions = due_row now new_id j n ∷ s.executions }))
unfolding insert_row
insert_row-cases now new_id j n s =
    let e = tick_row now new_id j n in
    elim (Option-cases (find? (takes_id e) s.executions)) [
      | inr (x, hit) ↦
          let (m, same) = Memᴰ-find? (takes_id e) s.executions x hit in
          rw hit (inl (refl, (x, m, inl ((eq_iff x.execution_id new_id).0 same))))
      | inl miss ↦ elim (Option-cases (find? (takes_key e) s.executions)) [
        | inr (x, hit) ↦
            let (m, same) = Memᴰ-find? (takes_key e) s.executions x hit in
            rw (miss, hit) (inl (refl, (x, m, clashes now new_id j n x same)))
        | inl none_there ↦
            rw (miss, none_there)
              (inr (
                all_free now new_id j n s.executions
                    (All-find? (takes_id e) s.executions (ap is_some miss))
                    (All-find? (takes_key e) s.executions (ap is_some none_there)),
                refl,
              ))
      ]
    ]

pub tick-TickOutcome :
    (now : ℕ) (new_id job_id : String) (s : Store)
    → TickOutcome now new_id job_id s (tick now new_id job_id s)
unfolding tick
tick-TickOutcome now new_id job_id s = elim (Option-cases (find? (fires now job_id) s.jobs)) [
  | inl nothing ↦ rw nothing (
      inl (
        refl,
        inl (
            All-weaken _ _ s.jobs (fires-closed now job_id)
              (All-find? (fires now job_id) s.jobs (ap is_some nothing))),
      ))
  | inr (j, found) ↦
      let (m, hit) = Memᴰ-find? (fires now job_id) s.jobs j found in
      let due = fires-IsOpen now job_id j hit in
      elim (Option-cases (find? (named j.endpoint) s.endpoints)) [
        | inl nothing ↦
            rw (found, nothing, fire)
              (inl (
                refl,
                inr (
                  j,
                  m,
                  due,
                  inl (
                      All-weaken _ _ s.endpoints (unnamed j)
                        (All-find? (named j.endpoint) s.endpoints (ap is_some nothing))),
                ),
              ))
        | inr (e, there) ↦
            let (l, is) = Memᴰ-find? (named j.endpoint) s.endpoints e there in
            let name = (eq_iff e.name j.endpoint).0 is in
            elim (Option-cases (policy_attempts e.retry_policy)) [
              | inl nothing ↦
                  rw (found, there, nothing, fire)
                    (inl (
                      refl,
                      inr (j, m, due, inr (inl (e, l, name, forbids e.retry_policy nothing))),
                    ))
              | inr (n, policy) ↦ elim (insert_row-cases now new_id j n s) [
                | inl (same, clash) ↦
                    rw (found, there, policy, fire) (inl (same, inr (j, m, due, inr (inr clash))))
                | inr (place, added) ↦
                    rw (found, there, policy, fire)
                      (inr (j, e, n, m, due, l, name, allows e.retry_policy n policy, place, added))
              ]
            ]
      ]
]
  where
    unnamed : (j : Job) (e : Endpoint) → named j.endpoint e ≡ false → ¬ (e.name ≡ j.endpoint)
    unnamed j e h same = let h2 : true ≡ false = rw ((eq_iff e.name j.endpoint).1 same) at h in cc

-- ===== src/Pipeline/Table.antt =====
-- What the statements of an execution's transaction do to the table `executions`: those that read
-- or write other tables leave it, whatever fails.
use invokr.Base.{
  ℕ, zero, suc, ◌≡◌, ap, ◌∙◌, ◌⊎◌, inl, inr, String, true, Option, none, some, List, [], ◌∷◌,
  Bool-cases, is_some,
}
use invokr.Base.Map.{lookup}
use invokr.Base.Result.{Result, ok, err}
use invokr.Json.{Json}
use invokr.Store.{Store, Execution}
use invokr.Store.Conn.{DbError, Conn, query, M, ◌>>=◌, pure}
use invokr.Store.Does.{Does, query-Does, query-aborted}
use invokr.Cache as Cache
use invokr.Cache.{Cache}
use invokr.Crypto.{decrypt}
use invokr.Reaper.{reap_schema, unregister_all}
use invokr.Jobs.{retire_expired_cron_jobs}
use invokr.Jobs.Cron.{unregister_pg_cron_conn}
use invokr.Pipeline.Load.{
  Env, World, Secrets, get_config, get_secret, load_config, load_single_secret, load_secrets, scan,
  reference, other, open_ended, secret, cached_config, fetched_config, cached_secret,
  fetched_secret, decrypted, added, add_secret, after, visit, Reference,
}

-- The transaction is lost, or its table is `u`.
abbrev pub TableIs : List Execution → Conn → Type 0
TableIs u c = (c.aborted ≡ true) ⊎ (c.store.executions ≡ u)

-- A statement that succeeds makes `g u` of a table `u`.
abbrev pub Moves :
    {A : Type 0} → (List Execution → List Execution) → (Store → Result DbError (A × Store)) → Type 0
Moves {A} g q = (s r : Store) (a : A) → q s ≡ ok (a, r) → r.executions ≡ g s.executions

TableIs-Does :
    {A : Type 0} (u : List Execution) (r : Result DbError A × Conn)
    → Does (λ _ s. s.executions ≡ u) r
    → TableIs u r.1
TableIs-Does u r (inl (dead, _)) = inl dead
TableIs-Does u r (inr (_, (_, _, same))) = inr same

pub query-TableIs :
    {A : Type 0} (g : List Execution → List Execution) (q : Store → Result DbError (A × Store))
    (u : List Execution) (c : Conn)
    → Moves g q
    → TableIs u c
    → TableIs (g u) (query q c).1
query-TableIs g q u c moves (inl dead) = inl (rw (query-aborted q c dead) dead)
query-TableIs g q u c moves (inr same) = elim (Bool-cases c.aborted) [
  | inl dead ↦ inl (rw (query-aborted q c dead) dead)
  | inr alive ↦
      TableIs-Does (g u) (query q c) (
        query-Does (λ _ s. s.executions ≡ g u) q c alive (λ a s e. moves c.store s a e ∙ ap g same))
]

module _ (u : List Execution) where
  keeps :
      {A : Type 0} (q : Store → Result DbError (A × Store)) (c : Conn)
      → Moves (λ t. t) q
      → TableIs u c
      → TableIs u (query q c).1
  keeps q c moves = query-TableIs (λ t. t) q u c moves

  bind-TableIs :
      {A B : Type 0} (r : Result DbError A × Conn) (f : A → M B)
      → TableIs u r.1
      → ((a : A) (c : Conn) → TableIs u c → TableIs u (f a c).1)
      → TableIs u (((λ _. r) >>= f) r.1).1
  bind-TableIs (ok a, c) f is next = next a c is
  bind-TableIs (err e, c) f is next = is

  get_config-TableIs : (name : String) (c : Conn) → TableIs u c → TableIs u (get_config name c).1
  unfolding get_config
  get_config-TableIs name c = keeps _ c (λ s r a e. cc)

  get_secret-TableIs : (name : String) (c : Conn) → TableIs u c → TableIs u (get_secret name c).1
  unfolding get_secret
  get_secret-TableIs name c = keeps _ c (λ s r a e. cc)

  -- The world that a step leaves.
  module _ (env : Env) (name : String) where
    fetched_config-TableIs :
        (r : Result DbError (Option Json)) (w : World)
        → TableIs u w.conn
        → TableIs u (fetched_config env name (r, w)).1.conn
    fetched_config-TableIs (err e) w is = is
    fetched_config-TableIs (ok none) w is = is
    fetched_config-TableIs (ok (some v)) w is = is

    cached_config-TableIs :
        (w : World) (p : Option Json × Cache Json)
        → TableIs u w.conn
        → TableIs u (cached_config env name w p).1.conn
    cached_config-TableIs w (some v, c) is = is
    cached_config-TableIs w (none, c) is =
        fetched_config-TableIs (get_config name w.conn).0
          (record w { conn = (get_config name w.conn).1; config_cache = c })
          (get_config-TableIs name w.conn is)

    pub load_config-TableIs :
        (w : World) → TableIs u w.conn → TableIs u (load_config env name w).1.conn
    unfolding load_config
    load_config-TableIs w is =
        cached_config-TableIs w (Cache.get env.instant name w.config_cache) is

    decrypted-TableIs :
        (w : World) (r : Result String String)
        → TableIs u w.conn
        → TableIs u (decrypted env name w r).1.conn
    decrypted-TableIs w (ok v) is = is
    decrypted-TableIs w (err e) is = is

    fetched_secret-TableIs :
        (r : Result DbError (Option (List ℕ))) (w : World)
        → TableIs u w.conn
        → TableIs u (fetched_secret env name (r, w)).1.conn
    fetched_secret-TableIs (err e) w is = is
    fetched_secret-TableIs (ok none) w is = is
    fetched_secret-TableIs (ok (some v)) w is =
        decrypted-TableIs w (decrypt env.cipher v env.encryption_key) is

    cached_secret-TableIs :
        (w : World) (p : Option String × Cache String)
        → TableIs u w.conn
        → TableIs u (cached_secret env name w p).1.conn
    cached_secret-TableIs w (some v, c) is = is
    cached_secret-TableIs w (none, c) is =
        fetched_secret-TableIs (get_secret name w.conn).0
          (record w { conn = (get_secret name w.conn).1; secret_cache = c })
          (get_secret-TableIs name w.conn is)

    load_single_secret-TableIs :
        (w : World) → TableIs u w.conn → TableIs u (load_single_secret env name w).1.conn
    unfolding load_single_secret
    load_single_secret-TableIs w is =
        cached_secret-TableIs w (Cache.get env.instant name w.secret_cache) is

    added-TableIs :
        (secrets : Secrets) (r : Result String String × World)
        → TableIs u r.1.conn
        → TableIs u (added name secrets r).1.conn
    added-TableIs secrets (ok v, w) is = is
    added-TableIs secrets (err e, w) is = is

    add_secret-TableIs :
        (secrets : Secrets) (w : World)
        → TableIs u w.conn
        → TableIs u (add_secret env name secrets w).1.conn
    add_secret-TableIs secrets w is = elim (Bool-cases (is_some (lookup name secrets))) [
      | inl there ↦ rw there is
      | inr absent ↦
          rw absent (
            added-TableIs secrets (load_single_secret env name w) (load_single_secret-TableIs w is))
    ]

  module _ (env : Env) where
    after-TableIs :
        (next : Secrets → World → Result String Secrets × World) (r : Result String Secrets × World)
        → ((s : Secrets) (w : World) → TableIs u w.conn → TableIs u (next s w).1.conn)
        → TableIs u r.1.conn
        → TableIs u (after next r).1.conn
    after-TableIs next (ok s, w) f is = f s w is
    after-TableIs next (err e, w) f is = is

    visit-TableIs :
        (next : ℕ → Secrets → World → Result String Secrets × World) (secrets : Secrets) (w : World)
        (r : Reference)
        → ((n : ℕ) (s : Secrets) (w : World) → TableIs u w.conn → TableIs u (next n s w).1.conn)
        → TableIs u w.conn
        → TableIs u (visit env next secrets w r).1.conn
    visit-TableIs next secrets w other f is = f zero secrets w is
    visit-TableIs next secrets w open_ended f is = is
    visit-TableIs next secrets w (secret name zero) f is = is
    visit-TableIs next secrets w (secret name (suc n)) f is =
        after-TableIs (next n) (add_secret env name secrets w) (f n)
          (add_secret-TableIs env name secrets w is)

    scan-TableIs :
        (n : ℕ) (s : String) (secrets : Secrets) (w : World)
        → TableIs u w.conn
        → TableIs u (scan env n s secrets w).1.conn
    unfolding scan
    scan-TableIs n String.[] secrets w is = is
    scan-TableIs (suc n) (String.◌∷◌ c s) secrets w is = scan-TableIs n s secrets w is
    scan-TableIs zero (String.◌∷◌ c s) secrets w is =
        visit-TableIs (λ k. scan env k s) secrets w (reference (String.◌∷◌ c s))
          (λ k. scan-TableIs k s) is

    pub load_secrets-TableIs :
        (spec : Json) (w : World) → TableIs u w.conn → TableIs u (load_secrets env spec w).1.conn
    unfolding load_secrets
    load_secrets-TableIs spec w is = scan-TableIs zero _ [] w is

  unregister_all-TableIs :
      (schema_name : String) (ids : List String) (c : Conn)
      → TableIs u c
      → TableIs u (unregister_all schema_name ids c).1
  unfolding unregister_all unregister_pg_cron_conn
  unregister_all-TableIs schema_name [] c is = is
  unregister_all-TableIs schema_name (id ∷ ids) c is =
      bind-TableIs (unregister_pg_cron_conn schema_name id c) (λ _. unregister_all schema_name ids)
        (keeps _ c (λ s r a e. cc) is) (λ _ d. unregister_all-TableIs schema_name ids d)

  pub reap_schema-TableIs :
      (now : ℕ) (schema_name : String) (c : Conn)
      → TableIs u c
      → TableIs u (reap_schema now schema_name c).1
  unfolding reap_schema retire_expired_cron_jobs
  reap_schema-TableIs now schema_name c is =
      bind-TableIs (retire_expired_cron_jobs now c) _ (keeps _ c (λ s r a e. cc) is) (λ ids d p.
        bind-TableIs (unregister_all schema_name ids d) (λ _. pure ids)
          (unregister_all-TableIs schema_name ids d p) (λ _ e q. q))

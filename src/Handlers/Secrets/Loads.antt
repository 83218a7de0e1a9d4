-- ===== src/Handlers/Secrets/Loads.antt =====
-- A secret on its way from the API (crates/api/src/handlers/secrets.rs) to a worker
-- (crates/worker/src/pipeline.rs).
use Prim.Native.String.{◌++◌}
use mathlib.Core.Path.{subst}
use invokr.Base.{
  ℕ, ◌≡◌, refl, sym, ap, ◌∙◌, inl, inr, String, true, false, Option, none, some, List, [], ◌∷◌,
  length, eq_refl,
}
use invokr.Base.Map.{lookup}
use invokr.Base.Result.{Result, ok, err, Result-cases, guarded-ok}
use invokr.Store.{Store}
use invokr.Store.Conn.{Conn, DbError, begin, query}
use invokr.Store.Does.{query-Does}
use invokr.Errors.{AppError, conflict, constraint_error}
use invokr.Cache as Cache
use invokr.Cache.{Cache}
use invokr.Crypto.{encrypt, decrypt, Inverts, decrypt-encrypt}
use invokr.Pipeline.Load.{Env, World, load_single_secret, cached_secret, get_secret}
use invokr.Secrets as Db
use invokr.Handlers.{statement_or}
use invokr.Handlers.Yields.{Yields, answered-Yields}
use invokr.Handlers.Secrets as Secrets
use invokr.Handlers.Secrets.{Sealing}

Yields-ok :
    {A : Type 0} (P : A → Store → Type 0) (r : Result AppError A × Conn) (a : A)
    → Yields P r
    → r.0 ≡ ok a
    → P a r.1.store
Yields-ok P r a (inl (e, failed)) h =
    let wrong : ◌≡◌ {A = Result AppError _} (err e) (ok a) = sym failed ∙ h in absurd cc
Yields-ok P r a (inr (live, (b, same, p))) h =
    let one : ◌≡◌ {A = Result AppError _} (ok b) (ok a) = sym same ∙ h in
    subst (λ v. P v r.1.store) (let e : b ≡ a = cc in e) p

abbrev Holds : String → List ℕ → Store → Store → Type 0
Holds name sealed s x = x ≡ record s { secrets = (name, sealed) ∷ s.secrets }

insert-Yields :
    (f : DbError → AppError) (name : String) (sealed : List ℕ) (s : Store)
    (faults : List (Option String))
    → Yields
        (λ _ x. Holds name sealed s x)
        (statement_or f (Db.create name sealed) (begin s faults))
unfolding Db.create
insert-Yields f name sealed s faults =
    answered-Yields (λ _ x. Holds name sealed s x) f (Db.create name sealed (begin s faults))
      (query-Does (λ _ x. Holds name sealed s x) _ (begin s faults) refl
        (λ a x h.
          let same : ◌≡◌ {A = Result DbError ((String × List ℕ) × Store)}
              (ok ((name, sealed), record s { secrets = (name, sealed) ∷ s.secrets })) (ok (a, x)) =
            (guarded-ok _ _ _ h).1 in
          cc))

-- A successful creation has put the encrypted value first.
create-Holds :
    (k : Sealing) (name value : String) (faults : List (Option String)) (s x : Store)
    (row : String × List ℕ)
    → Secrets.create k name value faults s ≡ (ok row, x)
    → (sealed : List ℕ) × (encrypt k.cipher k.nonce value k.encryption_key ≡ ok sealed)
      × Holds name sealed s x
unfolding Secrets.create
create-Holds k name value faults s x row h =
    elim (Result-cases (encrypt k.cipher k.nonce value k.encryption_key)) [
      | inr (e, bad) ↦ absurd (let q = rw bad at (ap (λ p. p.0) h) in cc)
      | inl (sealed, done) ↦
          let q = rw done at h in
          (
            sealed,
            done,
            subst (Holds name sealed s) (ap (λ p. p.1) q) (
                Yields-ok (λ _ y. Holds name sealed s y)
                  (statement_or clash (Db.create name sealed) (begin s faults)) row
                  (insert-Yields clash name sealed s faults) (ap (λ p. p.0) q)),
          )
    ]
  where
    clash : DbError → AppError
    clash = constraint_error (conflict ("Secret '" ++ name ++ "' already exists"))

pub cached_secret-none :
    (env : Env) (name sealed_text : String) (sealed : List ℕ) (w : World) (x : Store)
    (p : Option String × Cache String)
    → p.0 ≡ none
    → w.conn ≡ begin x []
    → lookup name x.secrets ≡ some sealed
    → decrypt env.cipher sealed env.encryption_key ≡ ok sealed_text
    → (cached_secret env name w p).0 ≡ ok sealed_text
unfolding get_secret query
cached_secret-none env name text sealed w x (some v, c) absent conn there opened = absurd cc
cached_secret-none env name text sealed w x (none, c) absent conn there opened =
    rw conn (rw there (rw opened refl))

-- A secret that the API has created, under a key and with a nonce of 12 bytes, is what a worker
-- with the same key and cipher loads under its name, with no fault and nothing of the name in its
-- cache: for every cipher that opens what it seals.
pub load_single_secret-create :
    (k : Sealing) (env : Env) (name value : String) (faults : List (Option String)) (s x : Store)
    (row : String × List ℕ) (w : World)
    → Inverts k.cipher
    → length k.nonce ≡ 12
    → env.cipher ≡ k.cipher
    → env.encryption_key ≡ k.encryption_key
    → Secrets.create k name value faults s ≡ (ok row, x)
    → w.conn ≡ begin x []
    → (Cache.get env.instant name w.secret_cache).0 ≡ none
    → (load_single_secret env name w).0 ≡ ok value
unfolding load_single_secret lookup
load_single_secret-create k env name value faults s x row w inverts size cipher key made conn
      absent =
    let (sealed, done, holds) = create-Holds k name value faults s x row made in
    let there : lookup name x.secrets ≡ some sealed =
      ap (λ (y : Store). lookup name y.secrets) holds
      ∙ ap (λ b. elim b [ true ↦ some sealed | false ↦ lookup name s.secrets ]) (eq_refl name) in
    cached_secret-none env name value sealed w x _ absent conn there (
      rw (cipher, key)
        (decrypt-encrypt k.cipher k.nonce value k.encryption_key sealed inverts size done))

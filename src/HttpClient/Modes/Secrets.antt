-- ===== src/HttpClient/Modes/Secrets.antt =====
-- The calls on secrets of the two clients (crates/worker/src/client.rs).
use Prim.Native.String.{◌++◌}
use invokr.Base.{
  ℕ, ◌≡◌, refl, ap, inl, inr, ◌⊎◌, String, Bool, true, false, some, Option-cases, Bool-cases, List,
  [], ◌∷◌, is_some, not, ◌&&◌, find?,
}
use invokr.Base.Map.{lookup}
use invokr.Base.Result.{ok, err}
use invokr.Json.{Json}
use invokr.Store.{Store, Endpoint}
use invokr.Store.Conn.{query}
use invokr.Named.{set_value, holds, without, has_name}
use invokr.Errors.{AppError, conflict, secret_not_found, status_and_code}
use invokr.Crypto.{encrypt}
use invokr.Pipeline.Load.{get_secret}
use invokr.Secrets as Db
use invokr.Handlers.Secrets.{Sealing}
use invokr.Handlers.Secrets as Secrets
use invokr.Named.Lookup.{lookup-holds, holds-there}
use invokr.Library.{InvokrLibraryClient, ClientError}
use invokr.Library as Library
use invokr.HttpClient.{
  InvokrHttpClient, ApiRequest, Response, HttpError, Send, remove_secret, delete_secret, refused,
  is_success, checked, return, ◌>>=◌, create_secret, update_secret, upsert_secret,
}
use invokr.Handlers.Endpoints.Deletes.{keep-all}
use invokr.HttpClient.Modes.{Answers, once, twice}

-- The service seals as the embedded client does.
abbrev pub sealing_of : InvokrLibraryClient → Sealing
sealing_of lib = record {
  cipher = lib.cipher;
  nonce = lib.nonce;
  encryption_key = lib.encryption_key;
}

-- A service that lets through and answers, with no fault, the requests on one secret.
pub record ServesSecret (client : InvokrHttpClient) (send : Send Store) (k : Sealing)
    (schema_name name plaintext : String) : Type 0 where
  pub creates :
      (s : Store)
      → Answers
          (Secrets.create k name plaintext [] s)
          (send (create_secret client schema_name name plaintext) s)
  pub updates :
      (s : Store)
      → Answers
          (Secrets.update k name plaintext [] s)
          (send (update_secret client schema_name name plaintext) s)

-- How the handlers answer on a secret that is not there, and on one that is.
created :
    (k : Sealing) (name value : String) (sealed : List ℕ) (s : Store)
    → encrypt k.cipher k.nonce value k.encryption_key ≡ ok sealed
    → holds name s.secrets ≡ false
    → Secrets.create k name value [] s
      ≡ (ok (name, sealed), record s { secrets = (name, sealed) ∷ s.secrets })
unfolding Secrets.create Db.create query
created k name value sealed s done absent = rw (done, absent) refl

clashes :
    (k : Sealing) (name value : String) (sealed : List ℕ) (s : Store)
    → encrypt k.cipher k.nonce value k.encryption_key ≡ ok sealed
    → holds name s.secrets ≡ true
    → Secrets.create k name value [] s
      ≡ (err (conflict ("Secret '" ++ name ++ "' already exists")), s)
unfolding Secrets.create Db.create query
clashes k name value sealed s done there = rw (done, there) refl

updated :
    (k : Sealing) (name value : String) (sealed : List ℕ) (s : Store)
    → encrypt k.cipher k.nonce value k.encryption_key ≡ ok sealed
    → holds name s.secrets ≡ true
    → Secrets.update k name value [] s
      ≡ (ok (name, sealed), record s { secrets = set_value name sealed s.secrets })
unfolding Secrets.update Db.update query
updated k name value sealed s done there = rw (done, there) refl

-- With no fault, and a service that seals as the embedding program does, a secret is put alike in both
-- ways, new or not: both calls succeed, and leave the same store.
pub upsert_secret-served :
    (lib : InvokrLibraryClient) (client : InvokrHttpClient) (send : Send Store)
    (schema_name name plaintext : String) (sealed : List ℕ) (s : Store)
    → ServesSecret client send (sealing_of lib) schema_name name plaintext
    → encrypt lib.cipher lib.nonce plaintext lib.encryption_key ≡ ok sealed
    → (x : Store) × (upsert_secret client send schema_name name plaintext s ≡ (ok tt, x))
      × (Library.upsert_secret lib name plaintext [] s ≡ (ok tt, x))
unfolding upsert_secret Library.upsert_secret get_secret Db.create Db.update query status_and_code
upsert_secret-served lib client send schema_name name plaintext sealed s serves done =
    elim (Option-cases (lookup name s.secrets)) [
      | inl fresh ↦
          let absent = lookup-holds name s.secrets fresh in
          let (r, answer, good) =
            rw (created (sealing_of lib) name plaintext sealed s done absent) at
              (serves.creates s) in
          (_, once send _ _ 409 _ _ s _ r answer good, rw (done, fresh, absent) refl)
      | inr (old, there) ↦
          let held = holds-there name old s.secrets there in
          let (r, answer, status) =
            rw (clashes (sealing_of lib) name plaintext sealed s done held) at (serves.creates s) in
          let (r2, answer2, good) =
            rw (updated (sealing_of lib) name plaintext sealed s done held) at (serves.updates s) in
          (
            _,
            twice send _ _ 409 _ _ s s _ r r2 answer status refl refl answer2 good,
            rw (done, there) refl,
          )
    ]

-- The secret is there and no endpoint refers to it.
abbrev pub removable : (Json → String → Bool) → String → Store → Bool
removable like name s =
    not (is_some (find? (λ (e : Endpoint). like e.spec name) s.endpoints)) && holds name s.secrets

abbrev pub removed : String → Store → Store
removed name s = record s { secrets = without name s.secrets }

-- A request that is refused.
refusal :
    (send : Send Store) (ctx : String) (q : ApiRequest) (s : Store) (e : AppError) (r : Response)
    → send q s ≡ (some r, s)
    → r.status ≡ (status_and_code e).0
    → is_success (status_and_code e).0 ≡ false
    → (checked send ctx q >>= λ answer. return tt) s
      ≡ (err (refused ctx (status_and_code e).0 r.text), s)
refusal send ctx q s e r answer status bad = rw (answer, status, bad) refl

-- The handler's answer to a deletion, in each case.
used :
    (like : Json → String → Bool) (name : String) (s : Store)
    → is_some (find? (λ (e : Endpoint). like e.spec name) s.endpoints) ≡ true
    → Secrets.delete like name [] [] s s
      ≡ (err (conflict ("Secret '" ++ name ++ "' is referenced by endpoints")), s)
unfolding Secrets.delete Db.delete Db.has_dependent_endpoints query
used like name s h = rw h refl

absent :
    (like : Json → String → Bool) (name : String) (s : Store)
    → is_some (find? (λ (e : Endpoint). like e.spec name) s.endpoints) ≡ false
    → holds name s.secrets ≡ false
    → Secrets.delete like name [] [] s s ≡ (err (secret_not_found name), s)
unfolding Secrets.delete Db.delete Db.has_dependent_endpoints query
absent like name s h none_there =
    rw (h, none_there)
      (ap (λ t. (err (secret_not_found name), record s { secrets = t }))
        (keep-all (has_name name) s.secrets none_there))

gone :
    (like : Json → String → Bool) (name : String) (s : Store)
    → is_some (find? (λ (e : Endpoint). like e.spec name) s.endpoints) ≡ false
    → holds name s.secrets ≡ true
    → Secrets.delete like name [] [] s s ≡ (ok tt, removed name s)
unfolding Secrets.delete Db.delete Db.has_dependent_endpoints query
gone like name s h there = rw (h, there) refl

-- With no fault, the embedded call deletes a secret whatever refers to it, and succeeds also where
-- there is none. The call over HTTP deletes it alike exactly if it is there and no endpoint refers to
-- it; else it fails and changes nothing.
pub delete_secret-served :
    (client : InvokrHttpClient) (send : Send Store) (like : Json → String → Bool)
    (schema_name name : String) (s : Store)
    → ((t : Store)
        → Answers
            (Secrets.delete like name [] [] t t)
            (send (remove_secret client schema_name name) t))
    → (Library.delete_secret name [] s ≡ (ok tt, removed name s))
      × ((removable like name s ≡ true)
            × (delete_secret client send schema_name name s ≡ (ok tt, removed name s))
          ⊎ (removable like name s ≡ false)
            × ((e : HttpError) × (delete_secret client send schema_name name s ≡ (err e, s))))
unfolding delete_secret Library.delete_secret Db.delete query status_and_code
delete_secret-served client send like schema_name name s serves = (
  refl,
  elim (Bool-cases (is_some (find? (λ (e : Endpoint). like e.spec name) s.endpoints))) [
    | inl busy ↦
        let (r, answer, status) = rw (used like name s busy) at (serves s) in
        inr (
          rw busy refl,
          (
            _,
            refusal send _ _ s (conflict ("Secret '" ++ name ++ "' is referenced by endpoints")) r
                answer status refl,
          ),
        )
    | inr idle ↦ elim (Bool-cases (holds name s.secrets)) [
      | inl there ↦
          let (r, answer, good) = rw (gone like name s idle there) at (serves s) in
          inl (rw (idle, there) refl, rw (answer, good) refl)
      | inr missing ↦
          let (r, answer, status) = rw (absent like name s idle missing) at (serves s) in
          inr (
            rw (idle, missing) refl,
            (_, refusal send _ _ s (secret_not_found name) r answer status refl),
          )
    ]
  ],
)

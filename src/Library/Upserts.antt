-- ===== src/Library/Upserts.antt =====
-- What an embedding program finds after `register_endpoint` and `upsert_secret`
-- (crates/worker/src/client.rs).
use invokr.Base.{
  ℕ, ◌≡◌, refl, ap, ◌∙◌, inl, inr, String, true, false, Option, none, some, Option-cases, List, [],
  length, eq_refl, eq_iff, str_eq, find?, or_else,
}
use invokr.Base.Map.{lookup}
use invokr.Base.Rows.{find?-update_apart, find?-update_hit}
use invokr.Base.Result.{Result, ok}
use invokr.Json.{Json}
use invokr.Store.{Store, Endpoint, EndpointType}
use invokr.Store.Conn.{begin, query}
use invokr.Named.Lookup.{lookup-step, lookup-set_value, lookup-holds}
use invokr.Endpoints.{named, revised}
use invokr.Endpoints as Endpoints
use invokr.Secrets as Secrets
use invokr.Crypto.{encrypt, Inverts, decrypt-encrypt}
use invokr.Cache as Cache
use invokr.Pipeline.Load.{Env, World, load_single_secret, get_secret}
use invokr.Handlers.Secrets.Loads.{cached_secret-none}
use invokr.Library.{InvokrLibraryClient, ClientError, register_endpoint, upsert_secret}

named-apart :
    (name other : String) (e : Endpoint)
    → str_eq name other ≡ false
    → named name e ≡ true
    → named other e ≡ false
named-apart name other e apart hit =
    let same : e.name ≡ name = (eq_iff e.name name).0 hit in rw same apart

abbrev pub policy_of : Option Endpoint → Option Json
policy_of none = none
policy_of (some e) = e.retry_policy

or_else-none : {A : Type 0} (o : Option A) → o ≡ or_else o none
or_else-none none = refl
or_else-none (some a) = refl

abbrev fresh_row : ℕ → String → EndpointType → Json → Option Json → Endpoint
fresh_row now name endpoint_type spec retry_policy = record {
  name = name;
  endpoint_type = endpoint_type;
  payload_spec_ref = none;
  config_ref = none;
  spec = spec;
  retry_policy = retry_policy;
  created_at = now;
  updated_at = now;
}

-- With no fault, a registered endpoint has the spec that was given, the retry policy that was given
-- or else the one it had, and every other endpoint is as before.
register_endpoint_upserts :
    (now : ℕ) (name other : String) (endpoint_type : EndpointType) (spec : Json)
    (retry_policy : Option Json) (s : Store)
    → str_eq name other ≡ false
    → (x : Store) × (register_endpoint now name endpoint_type spec retry_policy [] s ≡ (ok tt, x))
      × ((e : Endpoint) × (find? (named name) x.endpoints ≡ some e)
          × (e.spec ≡ spec)
          × (e.retry_policy ≡ or_else retry_policy (policy_of (find? (named name) s.endpoints))))
      × (find? (named other) x.endpoints ≡ find? (named other) s.endpoints)
unfolding register_endpoint Endpoints.get Endpoints.create Endpoints.update query
register_endpoint_upserts now name other endpoint_type spec retry_policy s apart =
    elim (Option-cases (find? (named name) s.endpoints)) [
      | inl fresh ↦
          rw (fresh, fresh)
            (
              _,
              refl,
              (
                fresh_row now name endpoint_type spec retry_policy,
                rw (eq_refl name) refl,
                refl,
                or_else-none retry_policy,
              ),
              rw apart refl,
            )
      | inr (old, there) ↦
          rw (there, there)
            (
              _,
              refl,
              (
                _,
                find?-update_hit (named name) (revised now (some spec) none none retry_policy)
                    s.endpoints old (λ b. refl) there,
                refl,
                refl,
              ),
              find?-update_apart (named other) (named name)
                  (revised now (some spec) none none retry_policy) s.endpoints
                  (λ e. named-apart name other e apart) (λ b. refl),
            )
    ]

-- What an upsert has stored under the name.
upsert_secret-stores :
    (client : InvokrLibraryClient) (name plaintext : String) (sealed : List ℕ) (s : Store)
    → encrypt client.cipher client.nonce plaintext client.encryption_key ≡ ok sealed
    → (x : Store) × (upsert_secret client name plaintext [] s ≡ (ok tt, x))
      × (lookup name x.secrets ≡ some sealed)
unfolding upsert_secret get_secret Secrets.create Secrets.update query lookup
upsert_secret-stores client name plaintext sealed s done =
    elim (Option-cases (lookup name s.secrets)) [
      | inl fresh ↦
          rw (done, fresh, lookup-holds name s.secrets fresh)
            (_, refl, lookup-step name (name, sealed) s.secrets true (eq_refl name))
      | inr (old, there) ↦
          rw (done, there) (_, refl, lookup-set_value name sealed old s.secrets there)
    ]

-- A secret that an embedding program puts, new or not, is what a worker with the same key and cipher
-- loads under its name, with no fault and nothing of the name in its cache: for every cipher that
-- opens what it seals.
pub load_single_secret-upsert :
    (client : InvokrLibraryClient) (env : Env) (name plaintext : String) (sealed : List ℕ)
    (s : Store) (w : World)
    → Inverts client.cipher
    → length client.nonce ≡ 12
    → env.cipher ≡ client.cipher
    → env.encryption_key ≡ client.encryption_key
    → encrypt client.cipher client.nonce plaintext client.encryption_key ≡ ok sealed
    → w.conn ≡ begin (upsert_secret client name plaintext [] s).1 []
    → (Cache.get env.instant name w.secret_cache).0 ≡ none
    → ((upsert_secret client name plaintext [] s).0 ≡ ok tt)
      × ((load_single_secret env name w).0 ≡ ok plaintext)
unfolding load_single_secret
load_single_secret-upsert client env name plaintext sealed s w inverts size cipher key done conn
      absent =
    let (x, call, there) = upsert_secret-stores client name plaintext sealed s done in
    (
      ap (λ r. r.0) call,
      cached_secret-none env name plaintext sealed w x _ absent
          (conn ∙ ap (λ (r : Result ClientError (Unit {0}) × Store). begin r.1 []) call) there
          (rw (cipher, key)
            (decrypt-encrypt client.cipher client.nonce plaintext client.encryption_key sealed
              inverts size done)),
    )

-- ===== src/Handlers/Secrets.antt =====
-- The requests on secrets: crates/api/src/handlers/secrets.rs.
pub mod Loads
use Prim.Native.String.{◌++◌}
use invokr.Base.{String, Bool, not, Option, List, ℕ}
use invokr.Base.Result.{Result, map_err}
use invokr.Json.{Json}
use invokr.Store.{Store}
use invokr.Store.Conn.{begin}
use invokr.Errors.{AppError, conflict, secret_not_found, internal_error, constraint_error}
use invokr.Secrets as Secrets
use invokr.Handlers.{
  Handler, statement, statement_or, from_result, or_reject, refuse_if, autocommitted, then_write,
  ◌>>=◌, ◌>>◌,
}
use invokr.Crypto.{Cipher, encrypt}

-- The cipher, the bytes that it draws and the key of the server.
pub record Sealing : Type 0 where
  pub cipher : Cipher
  pub nonce : List ℕ
  pub encryption_key : String

abbrev pub sealed : Sealing → String → Handler (List ℕ)
sealed k value = from_result (
    map_err (λ e. internal_error ("Encryption failed: " ++ e))
      (encrypt k.cipher k.nonce value k.encryption_key))

abbrev pub create_body : Sealing → String → String → Handler (String × List ℕ)
create_body k name value = do
  encrypted ← sealed k value
  statement_or (constraint_error (conflict ("Secret '" ++ name ++ "' already exists")))
      (Secrets.create name encrypted)

unfoldable pub create :
    Sealing
    → String
    → String
    → List (Option String)
    → Store
    → Result AppError (String × List ℕ) × Store
create k name value faults s = autocommitted (create_body k name value (begin s faults))

abbrev pub update_body : Sealing → String → String → Handler (String × List ℕ)
update_body k name value = do
  encrypted ← sealed k value
  row ← statement (Secrets.update name encrypted)
  or_reject row (secret_not_found name)

unfoldable pub update :
    Sealing
    → String
    → String
    → List (Option String)
    → Store
    → Result AppError (String × List ℕ) × Store
update k name value faults s = autocommitted (update_body k name value (begin s faults))

abbrev pub check_unused : (Json → String → Bool) → String → Handler (Unit {0})
check_unused like name = do
  used ← statement (Secrets.has_dependent_endpoints like name)
  refuse_if used (conflict ("Secret '" ++ name ++ "' is referenced by endpoints"))

abbrev pub delete_row : String → Unit {0} → Handler (Unit {0})
delete_row name nothing = do
  deleted ← statement (Secrets.delete name)
  refuse_if (not deleted) (secret_not_found name)

unfoldable pub delete :
    (Json → String → Bool)
    → String
    → List (Option String)
    → List (Option String)
    → Store
    → Store
    → Result AppError (Unit {0}) × Store
delete like name read_faults faults seen s =
    then_write (check_unused like name (begin seen read_faults)).0 (delete_row name) faults s

-- ===== src/Public.antt =====
-- The tables of the schema `public` (migrations/20260318000000_multi_tenancy.sql) and the schemas of
-- the workspaces, as the statements on the pool of connections see them: each commits by itself.
use invokr.Base.{ℕ, String, Option, none, some, List}
use invokr.Base.Result.{Result, ok, err}
use invokr.Store.{Store}
use invokr.Store.Conn.{DbError, fault, next_fault, rest_faults}
use invokr.Tenant.Registry.{Workspace}

-- crates/common/src/models/organization.rs.
pub record Organization : Type 0 where
  pub org_id : String
  pub name : String
  pub slug : String
  pub status : String
  pub created_at : ℕ
  pub updated_at : ℕ

pub record Database : Type 0 where
  pub organizations : List Organization
  pub workspaces : List Workspace
  pub schemas : List (String × Store)

-- `faults` says for each statement to come whether it meets a fault.
pub record Pool : Type 0 where
  pub database : Database
  pub faults : List (Option String)

abbrev pub pool_of : Database → List (Option String) → Pool
pool_of db fs = record { database = db; faults = fs }

-- Statements on the pool, with `?` after each.
abbrev pub Ask : Type 0 → Type 0
Ask A = Pool → Result DbError A × Pool

module _ {A : Type 0} where
  abbrev answer : Pool → Result DbError (A × Database) → Result DbError A × Pool
  answer p (ok (a, db)) = (ok a, record p { database = db })
  answer p (err e) = (err e, p)

  abbrev meet :
      (Database → Result DbError (A × Database)) → Pool → Option String → Result DbError A × Pool
  meet q p (some text) = (err (fault text), p)
  meet q p none = answer p (q p.database)

  unfoldable pub ask : (Database → Result DbError (A × Database)) → Ask A
  ask q p = meet q (record p { faults = rest_faults p.faults }) (next_fault p.faults)

abbrev pub continue :
    {A B : Type 0} → (A → Ask B) → Result DbError A × Pool → Result DbError B × Pool
continue next (ok a, p) = next a p
continue next (err e, p) = (err e, p)

infixl 5 ◌>>=◌
abbrev pub ◌>>=◌ : {A B : Type 0} → Ask A → (A → Ask B) → Ask B
(first >>= next) p = continue next (first p)

-- ===== src/Store/Conn.antt =====
-- A PostgreSQL transaction as crates/common/src/db uses it through sqlx.
-- A statement that fails aborts the transaction: each later statement fails, and `commit` then
-- rolls back, and reports no error.
use invokr.Base.{String, Bool, true, false, Option, none, some, List, [], ◌∷◌, if◌then◌else◌}
use invokr.Base.Result.{Result, ok, err}
use invokr.Store.{Store}

pub data DbError : Type 0 where
  unique_violation : String → DbError
  foreign_key_violation : String → DbError
  aborted_transaction : DbError
  -- A lost connection, a timeout, a refusal: whatever the server or the network does.
  fault : String → DbError

-- `faults` says for each statement to come whether it meets a fault; past its end none does.
pub record Conn : Type 0 where
  pub store : Store
  pub aborted : Bool
  pub faults : List (Option String)

-- `BEGIN` over a committed store.
abbrev pub begin : Store → List (Option String) → Conn
begin s fs = record { store = s; aborted = false; faults = fs }

abbrev pub next_fault : List (Option String) → Option String
next_fault [] = none
next_fault (f ∷ fs) = f

abbrev pub rest_faults : List (Option String) → List (Option String)
rest_faults [] = []
rest_faults (f ∷ fs) = fs

module _ {A : Type 0} where
  -- What the server answers, and the connection after it.
  abbrev pub answer : Conn → Result DbError (A × Store) → Result DbError A × Conn
  answer c (ok (a, s)) = (ok a, record c { store = s })
  answer c (err e) = (err e, record c { aborted = true })

  abbrev pub meet :
      (Store → Result DbError (A × Store)) → Conn → Option String → Result DbError A × Conn
  meet q c (some text) = (err (fault text), record c { aborted = true })
  meet q c none = answer c (q c.store)

  -- One statement.
  unfoldable pub query : (Store → Result DbError (A × Store)) → Conn → Result DbError A × Conn
  query q c =
      if c.aborted
      then (err aborted_transaction, c)
      else meet q (record c { faults = rest_faults c.faults }) (next_fault c.faults)

-- `COMMIT` over the store that the transaction began on: what is then committed.
abbrev pub commit : Store → Conn → Store
commit before c = if c.aborted then before else c.store

-- A sequence of statements, with `?` after each.
abbrev pub M : Type 0 → Type 0
M A = Conn → Result DbError A × Conn

abbrev pub continue : {A B : Type 0} → (A → M B) → Result DbError A × Conn → Result DbError B × Conn
continue f (ok a, c) = f a c
continue f (err e, c) = (err e, c)

infixl 5 ◌>>◌ ◌>>=◌
abbrev pub ◌>>=◌ : {A B : Type 0} → M A → (A → M B) → M B
(first >>= next) c = continue next (first c)

abbrev pub ◌>>◌ : {B : Type 0} → M (Unit {0}) → M B → M B
first >> next = first >>= λ nothing. next

abbrev pub pure : {A : Type 0} → A → M A
pure a c = (ok a, c)

-- ===== src/Cache.antt =====
-- crates/common/src/cache: a map from names to values with the instant of their storing. The two
-- caches of the worker have this one shape (config_cache.rs and secret_cache.rs).
pub mod Fresh
use invokr.Base.{ℕ, ◌-◌, String, Option, none, some, List, ltb, if◌then◌else◌}
use invokr.Base.Map.{lookup, insert, remove}

-- `ttl` and the instants are in the same unit.
pub record Cache (V : Type 0) : Type 0 where
  pub entries : List (String × (V × ℕ))
  pub ttl : ℕ

module _ {V : Type 0} where
  abbrev drop : String → Cache V → Cache V
  drop name c = record c { entries = remove name c.entries }

  abbrev pub found : ℕ → String → Cache V → Option (V × ℕ) → Option V × Cache V
  found now name c none = (none, c)
  found now name c (some (v, stored)) =
      if ltb (now - stored) c.ttl then (some v, c) else (none, drop name c)

  -- `get`, at the instant `now`: an entry that is too old is dropped.
  unfoldable pub get : ℕ → String → Cache V → Option V × Cache V
  get now name c = found now name c (lookup name c.entries)

  unfoldable pub set : ℕ → String → V → Cache V → Cache V
  set now name v c = record c { entries = insert name (v, now) c.entries }

  unfoldable pub invalidate : String → Cache V → Cache V
  invalidate name c = drop name c

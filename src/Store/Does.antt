-- ===== src/Store/Does.antt =====
-- How statements of crates/common/src/db end: one of them fails, which aborts the transaction, or
-- all succeed. A result that `Does P` is aborted, or succeeds in a store where P holds.
use mathlib.Core.Path.{subst}
use invokr.Base.{◌≡◌, refl, ap, sym, ◌⊎◌, inl, inr, true, false, Option, none, some, if◌then◌else◌}
use invokr.Base.Result.{Result, ok, err}
use invokr.Store.{Store}
use invokr.Store.Conn.{
  DbError, fault, aborted_transaction, Conn, query, M, next_fault, rest_faults, meet, answer,
  continue,
}

module _ {A : Type 0} where
  abbrev pub IsAborted : Result DbError A × Conn → Type 0
  IsAborted r = (r.1.aborted ≡ true) × ((e : DbError) × (r.0 ≡ err e))

  abbrev pub Does : (A → Store → Type 0) → Result DbError A × Conn → Type 0
  Does P r = IsAborted r ⊎ ((r.1.aborted ≡ false) × ((a : A) × (r.0 ≡ ok a) × P a r.1.store))

  pub query-live :
      (q : Store → Result DbError (A × Store)) (c : Conn)
      → c.aborted ≡ false
      → query q c ≡ meet q (record c { faults = rest_faults c.faults }) (next_fault c.faults)
  unfolding query
  query-live q c h =
      ap
        (λ b.
          if b
          then (err aborted_transaction, c)
          else meet q (record c { faults = rest_faults c.faults }) (next_fault c.faults))
        h

  module _ (P : A → Store → Type 0) where
    answer-Does :
        (c : Conn) (r : Result DbError (A × Store))
        → c.aborted ≡ false
        → ((a : A) (s : Store) → r ≡ ok (a, s) → P a s)
        → Does P (answer c r)
    answer-Does c (ok (a, s)) h f = inr (h, (a, refl, f a s refl))
    answer-Does c (err e) h f = inl (refl, (e, refl))

    meet-Does :
        (q : Store → Result DbError (A × Store)) (c : Conn) (o : Option _)
        → c.aborted ≡ false
        → ((a : A) (s : Store) → q c.store ≡ ok (a, s) → P a s)
        → Does P (meet q c o)
    meet-Does q c none h f = answer-Does c (q c.store) h f
    meet-Does q c (some t) h f = inl (refl, (fault t, refl))

    pub query-Does :
        (q : Store → Result DbError (A × Store)) (c : Conn)
        → c.aborted ≡ false
        → ((a : A) (s : Store) → q c.store ≡ ok (a, s) → P a s)
        → Does P (query q c)
    query-Does q c h f =
        subst (Does P) (sym (query-live q c h))
          (meet-Does q (record c { faults = rest_faults c.faults }) (next_fault c.faults) h f)

-- A statement on an aborted transaction does nothing.
pub query-aborted :
    {A : Type 0} (q : Store → Result DbError (A × Store)) (c : Conn)
    → c.aborted ≡ true
    → query q c ≡ (err aborted_transaction, c)
unfolding query
query-aborted q c h =
    ap
      (λ b.
        if b
        then (err aborted_transaction, c)
        else meet q (record c { faults = rest_faults c.faults }) (next_fault c.faults))
      h

module _ {A B : Type 0} (P : A → Store → Type 0) (Q : B → Store → Type 0) where
  pub bind-Does :
      (f : A → M B) (r : Result DbError A × Conn)
      → Does P r
      → ((a : A) (c : Conn) → c.aborted ≡ false → P a c.store → Does Q (f a c))
      → Does Q (continue f r)
  bind-Does f (ok a, c) (inl (dead, (e, wrong))) next = cc
  bind-Does f (err e, c) (inl (dead, _)) next = inl (dead, (e, refl))
  bind-Does f (ok a, c) (inr (alive, (b, same, p))) next =
      next a c alive (let e : a ≡ b = cc in rw e p)
  bind-Does f (err e, c) (inr (alive, (b, same, p))) next = cc

-- ===== src/Links/Keeps.antt =====
-- How the steps of a request keep a property of the store.
use invokr.Base.{◌≡◌, refl, Bool, true, false, Option, none, some, List, String, if◌then◌else◌}
use invokr.Base.Result.{Result, ok, err}
use invokr.Store.{Store}
use invokr.Store.Conn.{
  Conn, DbError, begin, query, answer, meet, next_fault, rest_faults, M, continue,
}
use invokr.Errors.{AppError}
use invokr.Handlers.{
  Handler, follow, answered, statement_or, or_reject, from_result, refuse_if, settle, then_write,
}

module _ (P : Store → Type 0) where
  -- A step that leaves a store with P, from one with P, whether it fails or not.
  abbrev pub Keeps : {R : Type 0} → (Conn → R × Conn) → Type 0
  Keeps m = (c : Conn) → P c.store → P (m c).1.store

  module _ {A : Type 0} where
    answer-Keeps :
        (c : Conn) (r : Result DbError (A × Store))
        → ((a : A) (x : Store) → r ≡ ok (a, x) → P x)
        → P c.store
        → P (answer c r).1.store
    answer-Keeps c (ok (a, x)) f p = f a x refl
    answer-Keeps c (err e) f p = p

    pub query-Keeps :
        (q : Store → Result DbError (A × Store))
        → ((s : Store) (a : A) (x : Store) → q s ≡ ok (a, x) → P s → P x)
        → Keeps (query q)
    unfolding query
    query-Keeps q f c p = run c.aborted (next_fault c.faults)
      where
        d : Conn
        d = record c { faults = rest_faults c.faults }

        run :
            (dead : Bool) (o : Option String)
            → P (if dead then (err DbError.aborted_transaction, c) else meet q d o).1.store
        run true o = p
        run false (some text) = p
        run false none = answer-Keeps d (q c.store) (λ a x h. f c.store a x h p) p

    -- A statement that always makes `f s` of `s`.
    pub change-Keeps :
        (a : Store → A) (f : Store → Store)
        → ((s : Store) → P s → P (f s))
        → Keeps (query (λ s. ok (a s, f s)))
    change-Keeps a f g =
        query-Keeps (λ s. ok (a s, f s)) (λ s b x h p. let e : x ≡ f s = cc in rw e (g s p))

    pub read-Keeps : (a : Store → A) → Keeps (query (λ s. ok (a s, s)))
    read-Keeps a = change-Keeps a (λ s. s) (λ s p. p)

    pub statement-Keeps : (f : DbError → AppError) (m : M A) → Keeps m → Keeps (statement_or f m)
    statement-Keeps f m keeps c p = go (m c) (keeps c p)
      where
        go : (r : Result DbError A × Conn) → P r.1.store → P (answered f r).1.store
        go (ok a, d) q = q
        go (err e, d) q = q

    pub or_reject-Keeps : (o : Option A) (e : AppError) → Keeps (or_reject o e)
    or_reject-Keeps none e c p = p
    or_reject-Keeps (some a) e c p = p

    pub from_result-Keeps : (r : Result AppError A) → Keeps (from_result r)
    from_result-Keeps (ok a) c p = p
    from_result-Keeps (err e) c p = p

    pub settle-Keeps :
        (commits : Bool) (s : Store) (r : Result AppError A × Conn)
        → P s
        → P r.1.store
        → P (settle commits s r).1
    settle-Keeps commits s (err e, c) p q = p
    settle-Keeps false s (ok a, c) p q = p
    settle-Keeps true s (ok a, c) p q = pick c.aborted
      where
        pick : (b : Bool) → P (if b then s else c.store)
        pick true = p
        pick false = q

  pub refuse_if-Keeps : (test : Bool) (e : AppError) → Keeps (refuse_if test e)
  refuse_if-Keeps true e c p = p
  refuse_if-Keeps false e c p = p

  module _ {A B : Type 0} where
    pub continue-Keeps :
        (m : M A) (next : A → M B)
        → Keeps m
        → ((a : A) → Keeps (next a))
        → Keeps (λ c. continue next (m c))
    continue-Keeps m next first more c p = go (m c) (first c p)
      where
        go : (r : Result DbError A × Conn) → P r.1.store → P (continue next r).1.store
        go (ok a, d) q = more a d q
        go (err e, d) q = q

    pub follow-Keeps :
        (m : Handler A) (next : A → Handler B)
        → Keeps m
        → ((a : A) → Keeps (next a))
        → Keeps (λ c. follow next (m c))
    follow-Keeps m next first more c p = go (m c) (first c p)
      where
        go : (r : Result AppError A × Conn) → P r.1.store → P (follow next r).1.store
        go (ok a, d) q = more a d q
        go (err e, d) q = q

    pub then_write-Keeps :
        (r : Result AppError A) (write : A → Handler B) (faults : List (Option String)) (s : Store)
        → ((a : A) → Keeps (write a))
        → P s
        → P (then_write r write faults s).1
    then_write-Keeps (err e) write faults s keeps p = p
    then_write-Keeps (ok a) write faults s keeps p = keeps a (begin s faults) p

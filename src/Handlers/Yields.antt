-- ===== src/Handlers/Yields.antt =====
-- How a handler of crates/api/src/handlers ends: with an error, or in a store of which P holds.
use mathlib.Core.Path.{subst}
use invokr.Base.{
  ◌≡◌, refl, ap, sym, ◌∙◌, ◌⊎◌, inl, inr, Bool, true, false, Option, none, some, if◌then◌else◌,
}
use invokr.Base.Result.{Result, ok, err}
use invokr.Store.{Store}
use invokr.Store.Conn.{Conn, DbError, query, M}
use invokr.Store.Does.{Does, query-Does}
use invokr.Handlers.{
  Handler, follow, answered, statement, statement_or, or_reject, refuse_if, settle,
}
use invokr.Errors.{AppError, of_db_error}

-- A body that errs, or succeeds on a live transaction in a store where P holds.
abbrev pub Yields : {A : Type 0} → (A → Store → Type 0) → Result AppError A × Conn → Type 0
Yields {A} P r =
    ((e : AppError) × (r.0 ≡ err e))
    ⊎ ((r.1.aborted ≡ false) × ((a : A) × (r.0 ≡ ok a) × P a r.1.store))

pub answered-Yields :
    {A : Type 0} (P : A → Store → Type 0) (f : DbError → AppError) (r : Result DbError A × Conn)
    → Does P r
    → Yields P (answered f r)
answered-Yields P f (ok a, c) (inl (dead, (e, wrong))) = absurd cc
answered-Yields P f (ok a, c) (inr (alive, (b, same, p))) =
    inr (alive, (a, refl, (let e : a ≡ b = cc in rw e p)))
answered-Yields P f (err e, c) does = inl (f e, refl)

pub follow-Yields :
    {A B : Type 0} (P : A → Store → Type 0) (Q : B → Store → Type 0) (next : A → Handler B)
    (r : Result AppError A × Conn)
    → Yields P r
    → ((a : A) (c : Conn) → c.aborted ≡ false → P a c.store → Yields Q (next a c))
    → Yields Q (follow next r)
follow-Yields P Q next (ok a, c) (inl (e, wrong)) f = absurd cc
follow-Yields P Q next (err e, c) y f = inl (e, refl)
follow-Yields P Q next (ok a, c) (inr (alive, (b, same, p))) f =
    f a c alive (let e : a ≡ b = cc in rw e p)

pub or_reject-Yields :
    {A : Type 0} (P : A → Store → Type 0) (o : Option A) (e : AppError) (c : Conn)
    → c.aborted ≡ false
    → ((a : A) → o ≡ some a → P a c.store)
    → Yields P (or_reject o e c)
or_reject-Yields P none e c alive f = inl (e, refl)
or_reject-Yields P (some a) e c alive f = inr (alive, (a, refl, f a refl))

pub refuse_if-Yields :
    (test : Bool) (e : AppError) (c : Conn)
    → c.aborted ≡ false
    → Yields (λ _ x. (test ≡ false) × (x ≡ c.store)) (refuse_if test e c)
refuse_if-Yields true e c alive = inl (e, refl)
refuse_if-Yields false e c alive = inr (alive, (tt, refl, (refl, refl)))

pub choose-Yields :
    {A : Type 0} (P : A → Store → Type 0) (b : Bool) (x y : Handler A) (c : Conn)
    → (b ≡ true → Yields P (x c))
    → (b ≡ false → Yields P (y c))
    → Yields P ((if b then x else y) c)
choose-Yields P true x y c f g = f refl
choose-Yields P false x y c f g = g refl

-- A statement that always makes the store `f s` of `s`.
pub update-Yields :
    {A : Type 0} (a : Store → A) (f : Store → Store) (c : Conn)
    → c.aborted ≡ false
    → Yields (λ b x. (b ≡ a c.store) × (x ≡ f c.store)) (statement (query (λ s. ok (a s, f s))) c)
update-Yields a f c alive =
    answered-Yields (λ b x. (b ≡ a c.store) × (x ≡ f c.store)) of_db_error
      (query (λ s. ok (a s, f s)) c)
      (query-Does (λ b x. (b ≡ a c.store) × (x ≡ f c.store)) (λ s. ok (a s, f s)) c alive
        (λ b x e. (cc, cc)))

pub weaken-Yields :
    {A : Type 0} (P Q : A → Store → Type 0) (r : Result AppError A × Conn)
    → Yields P r
    → ((a : A) (x : Store) → P a x → Q a x)
    → Yields Q r
weaken-Yields P Q r (inl failed) f = inl failed
weaken-Yields P Q r (inr (alive, (a, same, p))) f = inr (alive, (a, same, f a _ p))

-- The same, where only the store matters.
pub store-Yields :
    {A : Type 0} (a : Store → A) (f : Store → Store) (s : Store) (c : Conn)
    → c.aborted ≡ false
    → s ≡ f c.store
    → Yields (λ _ x. x ≡ s) (statement (query (λ r. ok (a r, f r))) c)
store-Yields a f s c alive same =
    weaken-Yields (λ b x. (b ≡ a c.store) × (x ≡ f c.store)) (λ _ x. x ≡ s)
      (statement (query (λ r. ok (a r, f r))) c) (update-Yields a f c alive)
      (λ b x p. p.1 ∙ sym same)

-- One step of a body and what follows it, where the step is a check, a statement, or a statement
-- that always makes the store `f s` of `s`.
module _ {A B : Type 0} (Q : B → Store → Type 0) (next : A → Handler B) where
  pub or_reject-follow :
      (o : Option A) (e : AppError) (c : Conn)
      → ((a : A) → o ≡ some a → Yields Q (next a c))
      → Yields Q (follow next (or_reject o e c))
  or_reject-follow none e c f = inl (e, refl)
  or_reject-follow (some a) e c f = f a refl

  pub statement-follow :
      (P : A → Store → Type 0) (f : DbError → AppError) (m : M A) (c : Conn)
      → Does P (m c)
      → ((a : A) (d : Conn) → d.aborted ≡ false → P a d.store → Yields Q (next a d))
      → Yields Q (follow next (statement_or f m c))
  statement-follow P f m c does g =
      follow-Yields P Q next (statement_or f m c) (answered-Yields P f (m c) does) g

  pub update-follow :
      (a : Store → A) (f : Store → Store) (s : Store) (c : Conn)
      → c.aborted ≡ false
      → c.store ≡ s
      → ((d : Conn) → d.aborted ≡ false → d.store ≡ f s → Yields Q (next (a s) d))
      → Yields Q (follow next (statement (query (λ r. ok (a r, f r))) c))
  update-follow a f s c alive same g =
      follow-Yields (λ b x. (b ≡ a c.store) × (x ≡ f c.store)) Q next _ (update-Yields a f c alive)
        (λ b d live h.
          subst (λ v. Yields Q (next v d)) (sym (h.0 ∙ ap a same)) (g d live (h.1 ∙ ap f same)))

pub guard-follow :
    {B : Type 0} (Q : B → Store → Type 0) (next : Unit {0} → Handler B) (test : Bool) (e : AppError)
    (c : Conn)
    → (test ≡ false → Yields Q (next tt c))
    → Yields Q (follow next (refuse_if test e c))
guard-follow Q next true e c f = inl (e, refl)
guard-follow Q next false e c f = f refl

pub settle-cases :
    {A : Type 0} (commits : Bool) (s : Store) (P : A → Store → Type 0)
    (r : Result AppError A × Conn)
    → Yields P r
    → ((e : AppError) × ((settle commits s r).0 ≡ err e) × ((settle commits s r).1 ≡ s))
      ⊎ ((a : A) × ((settle commits s r).0 ≡ ok a) × P a (settle commits s r).1)
settle-cases commits s P (err e, c) y = inl (e, refl, refl)
settle-cases false s P (ok a, c) y = inl (_, refl, refl)
settle-cases true s P (ok a, c) (inl (e, wrong)) = absurd cc
settle-cases true s P (ok a, c) (inr (alive, (b, same, p))) = inr (
  a,
  refl,
  subst (P a) (sym (ap (λ d. if d then s else c.store) alive)) (let e : a ≡ b = cc in rw e p),
)

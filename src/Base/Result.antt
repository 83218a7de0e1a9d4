-- ===== src/Base/Result.antt =====
-- Rust's `Result`, with `?` as bind.
use invokr.Base.{◌≡◌, refl, ◌⊎◌, inl, inr, Bool, true, false, if◌then◌else◌, Option, none, some}

pub data Result (E A : Type 0) : Type 0 where
  ok : A → Result E A
  err : E → Result E A

infixl 5 ◌>>◌ ◌>>=◌
abbrev pub ◌>>=◌ : {E A B : Type 0} → Result E A → (A → Result E B) → Result E B
ok a >>= f = f a
err e >>= f = err e

abbrev pub ◌>>◌ : {E B : Type 0} → Result E (Unit {0}) → Result E B → Result E B
first >> next = first >>= λ nothing. next

-- `ok_or_else`.
abbrev pub or_fail : {E A : Type 0} → Option A → E → Result E A
or_fail (some a) e = ok a
or_fail none e = err e

abbrev pub map_err : {E F A : Type 0} → (E → F) → Result E A → Result F A
map_err f (ok a) = ok a
map_err f (err e) = err (f e)

abbrev pub map_ok : {E A B : Type 0} → (A → B) → Result E A → Result E B
map_ok f (ok a) = ok (f a)
map_ok f (err e) = err e

pub Result-cases :
    {E A : Type 0} (r : Result E A) → ((a : A) × (r ≡ ok a)) ⊎ ((e : E) × (r ≡ err e))
Result-cases (ok a) = inl (a, refl)
Result-cases (err e) = inr (e, refl)

abbrev pub IsOk : {E A : Type 0} → Result E A → Type 0
IsOk (ok a) = Unit {0}
IsOk (err e) = ⊥

-- `expect`, where it cannot panic.
abbrev pub expect : {E A : Type 0} → (r : Result E A) → IsOk r → A
expect (ok a) h = a
expect (err e) h = absurd h

pub IsOk-eq : {E A : Type 0} (r : Result E A) (v w : IsOk r) → v ≡ w
IsOk-eq (ok a) v w = refl
IsOk-eq (err e) v w = absurd v

-- Past a guard that errs.
pub guarded-ok :
    {E A : Type 0} (b : Bool) (e : E) (r : Result E A) {a : A}
    → (if b then err e else r) ≡ ok a
    → (b ≡ false) × (r ≡ ok a)
guarded-ok true e r h = absurd cc
guarded-ok false e r h = (refl, h)

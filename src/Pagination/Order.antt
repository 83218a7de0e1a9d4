-- ===== src/Pagination/Order.antt =====
-- The order of a listed table, and the rows after one of its names.
use mathlib.Core.Path.{subst}
use invokr.Base.{
  ◌≡◌, refl, sym, ap, ◌∙◌, ◌⊎◌, inl, inr, ℕ, zero, suc, String, Bool, true, false, some, List, [],
  ◌∷◌, take, drop, All, All-weaken, Bool-cases, str_eq,
}
use invokr.Base.Rows.{Unique, Lacks}
use invokr.Pagination.{insert, ordered, after, last_name}

-- A strict order that compares any two texts that are not equal.
pub record IsOrder (before : String → String → Bool) : Type 0 where
  pub irreflexive : (s : String) → before s s ≡ false
  pub transitive : (s t u : String) → before s t ≡ true → before t u ≡ true → before s u ≡ true
  pub total : (s t : String) → str_eq t s ≡ false → before s t ≡ false → before t s ≡ true

module _ {A : Type 0} (name : A → String) (before : String → String → Bool)
    (o : IsOrder before) where
  abbrev pub Sorted : List A → Type 0
  Sorted [] = Unit {0}
  Sorted (a ∷ t) = All (λ b. before (name a) (name b) ≡ true) t × Sorted t

  insert-All :
      (P : A → Type 0) (a : A) (t : List A) → P a → All P t → All P (insert name before a t)
  insert-All P a [] p all = (p, tt)
  insert-All P a (b ∷ t) p all = elim (Bool-cases (before (name a) (name b))) [
    | inl hit ↦ rw hit (p, all)
    | inr miss ↦ rw miss (all.0, insert-All P a t p all.1)
  ]

  ordered-All : (P : A → Type 0) (t : List A) → All P t → All P (ordered name before t)
  unfolding ordered
  ordered-All P [] all = tt
  ordered-All P (a ∷ t) all = insert-All P a (ordered name before t) all.0 (ordered-All P t all.1)

  insert-Sorted :
      (a : A) (t : List A) → Lacks name (name a) t → Sorted t → Sorted (insert name before a t)
  insert-Sorted a [] apart u = (tt, tt)
  insert-Sorted a (b ∷ t) apart u = elim (Bool-cases (before (name a) (name b))) [
    | inl hit ↦ rw hit (
      (
        hit,
        All-weaken (λ c. before (name b) (name c) ≡ true) (λ c. before (name a) (name c) ≡ true) t
            (λ c h. o.transitive (name a) (name b) (name c) hit h) u.0,
      ),
      u,
    )
    | inr miss ↦ rw miss (
      insert-All (λ c. before (name b) (name c) ≡ true) a t (o.total (name a) (name b) apart.0 miss)
          u.0,
      insert-Sorted a t apart.1 u.1,
    )
  ]

  pub ordered-Sorted : (t : List A) → Unique name t → Sorted (ordered name before t)
  unfolding ordered
  ordered-Sorted [] u = tt
  ordered-Sorted (a ∷ t) u =
      insert-Sorted a (ordered name before t)
        (ordered-All (λ b. str_eq (name b) (name a) ≡ false) t u.0) (ordered-Sorted t u.1)

  asymmetric : (s t : String) → before s t ≡ true → before t s ≡ false
  asymmetric s t h = elim (Bool-cases (before t s)) [
    | inl back ↦
        absurd (let q : true ≡ false = sym (o.transitive s t s h back) ∙ o.irreflexive s in cc)
    | inr right ↦ right
  ]

  after-all :
      (c : String) (t : List A) → All (λ a. before c (name a) ≡ true) t → after name before c t ≡ t
  after-all c [] all = refl
  after-all c (a ∷ t) all = rw (all.0) (ap (◌∷◌ a) (after-all c t all.1))

  -- What comes after a later name comes after an earlier one.
  pub after-after :
      (c d : String) (t : List A)
      → before c d ≡ true
      → after name before d (after name before c t) ≡ after name before d t
  after-after c d [] h = refl
  after-after c d (a ∷ t) h = elim (Bool-cases (before d (name a))) [
    | inl late ↦ rw (o.transitive c d (name a) h late, late) (ap (◌∷◌ a) (after-after c d t h))
    | inr early ↦ elim (Bool-cases (before c (name a))) [
      | inl kept ↦ rw (kept, early) (after-after c d t h)
      | inr gone ↦ rw (gone, early) (after-after c d t h)
    ]
  ]

  abbrev pub AtMost : String → String → Type 0
  AtMost s t = (s ≡ t) ⊎ (before s t ≡ true)

  pub earlier : (s t u : String) → before s t ≡ true → AtMost t u → before s u ≡ true
  earlier s t u h (inl same) = rw (← same) h
  earlier s t u h (inr more) = o.transitive s t u h more

  -- After the last name of a page come the rows past the page.
  pub after-last :
      (n : ℕ) (a : A) (t : List A) (l : String)
      → Sorted (a ∷ t)
      → last_name name before (take (suc n) (a ∷ t)) ≡ some l
      → (after name before l (a ∷ t) ≡ drop n t) × AtMost (name a) l
  after-last zero a t l u h =
      let e : name a ≡ l = cc in
      (
        subst (λ k. after name before k (a ∷ t) ≡ t) e
            (rw (o.irreflexive (name a)) (after-all (name a) t u.0)),
        inl e,
      )
  after-last (suc n) a [] l u h =
      let e : name a ≡ l = cc in
      (subst (λ k. after name before k (a ∷ []) ≡ []) e (rw (o.irreflexive (name a)) refl), inl e)
  after-last (suc n) a (b ∷ t) l u h =
      let (rest, reach) = after-last n b t l u.1 h in
      let late : before (name a) l ≡ true = earlier (name a) (name b) l u.0.0 reach in
      (rw (asymmetric (name a) l late) rest, inr late)

  -- A row of those after a name comes after it.
  pub after-head :
      (c : String) (t : List A) (a : A) (u : List A)
      → after name before c t ≡ a ∷ u
      → before c (name a) ≡ true
  after-head c [] a u h = absurd cc
  after-head c (b ∷ t) a u h = elim (Bool-cases (before c (name b))) [
    | inl hit ↦
        let e : b ∷ after name before c t ≡ a ∷ u = rw hit at h in
        let q : b ≡ a = cc in rw (← q) hit
    | inr miss ↦ after-head c t a u (rw miss at h)
  ]

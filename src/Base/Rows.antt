-- ===== src/Base/Rows.antt =====
-- Tables as lists of rows, updated by a test or by a text key that is unique.
use mathlib.Core.List.{Memᴰ}
use invokr.Base.{
  ◌≡◌, refl, sym, ap, ◌∙◌, String, Bool, true, false, List, [], ◌∷◌, map, arith, str_eq, eq_iff,
  eq_refl, if◌then◌else◌, All, All-map, Bool-cases, inl, inr, Option, none, some, find?, keep,
  is_some,
}

module _ {ℓ} {A : Type ℓ} where
  -- `UPDATE … SET f WHERE p`.
  abbrev pub update_where : (A → Bool) → (A → A) → List A → List A
  update_where p f = map (λ a. if p a then f a else a)

  pub All-update {κ} :
      (P : A → Type κ) (p : A → Bool) (f : A → A) (t : List A)
      → ((a : A) → P a → p a ≡ true → P (f a))
      → All P t
      → All P (update_where p f t)
  All-update P p f t keep all = All-map P (λ a. if p a then f a else a) t step all
    where
      step : (a : A) → P a → P (if p a then f a else a)
      step a h = elim (Bool-cases (p a)) [ inl hit ↦ rw hit (keep a h hit) | inr miss ↦ rw miss h ]

  pub All-Memᴰ {κ} : (P : A → Type κ) {a : A} {t : List A} → Memᴰ a t → All P t → P a
  All-Memᴰ P (Memᴰ.head e) all = rw e all.0
  All-Memᴰ P (Memᴰ.tail m) all = All-Memᴰ P m all.1

  pub Memᴰ-update :
      (p : A → Bool) (f : A → A) {a : A} {t : List A}
      → Memᴰ a t
      → p a ≡ false
      → Memᴰ a (update_where p f t)
  Memᴰ-update p f {a} (Memᴰ.head {x} same) h =
      Memᴰ.head (let miss : p x ≡ false = rw (← same) h in rw miss same)
  Memᴰ-update p f (Memᴰ.tail m) h = Memᴰ.tail (Memᴰ-update p f m h)

  -- An update that keeps what a test reads finds as before.
  pub is_some-find?-update :
      (q p : A → Bool) (f : A → A) (t : List A)
      → ((a : A) → q (f a) ≡ q a)
      → is_some (find? q (update_where p f t)) ≡ is_some (find? q t)
  is_some-find?-update q p f [] same = refl
  is_some-find?-update q p f (a ∷ t) same =
      let kept : q (if p a then f a else a) ≡ q a = elim (Bool-cases (p a)) [
        | inl hit ↦ rw hit (same a)
        | inr miss ↦ rw miss refl
      ] in
      elim (Bool-cases (q a)) [
        | inl hit ↦ rw (kept, hit) refl
        | inr miss ↦ rw (kept, miss) (is_some-find?-update q p f t same)
      ]

  -- What an update by one test leaves of what another finds.
  pub find?-update_apart :
      (q p : A → Bool) (f : A → A) (t : List A)
      → ((a : A) → p a ≡ true → q a ≡ false)
      → ((a : A) → q (f a) ≡ q a)
      → find? q (update_where p f t) ≡ find? q t
  find?-update_apart q p f [] apart same = refl
  find?-update_apart q p f (a ∷ t) apart same = elim (Bool-cases (p a)) [
    | inl hit ↦ rw (hit, same a, apart a hit) (find?-update_apart q p f t apart same)
    | inr miss ↦ rw (miss, find?-update_apart q p f t apart same) refl
  ]

  -- The first row of a test, updated by that test.
  pub find?-update_hit :
      (p : A → Bool) (f : A → A) (t : List A) (a : A)
      → ((b : A) → p (f b) ≡ p b)
      → find? p t ≡ some a
      → find? p (update_where p f t) ≡ some (f a)
  find?-update_hit p f [] a same h = absurd cc
  find?-update_hit p f (b ∷ t) a same h = elim (Bool-cases (p b)) [
    | inl hit ↦
        let found : ◌≡◌ {A = Option A} (some b) (some a) = rw hit at h in
        let e : b ≡ a = cc in rw (hit, same b, hit) (rw e refl)
    | inr miss ↦
        let later : find? p t ≡ some a = rw miss at h in
        rw (miss, miss) (find?-update_hit p f t a same later)
  ]

  -- A longer table finds what it found.
  pub find?-grows :
      (p : A → Bool) (a : A) (t : List A)
      → is_some (find? p t) ≡ true
      → is_some (find? p (a ∷ t)) ≡ true
  find?-grows p a t h = elim (Bool-cases (p a)) [ inl hit ↦ rw hit refl | inr miss ↦ rw miss h ]

  -- So does a table that keeps the rows which the test looks for.
  pub find?-keep :
      (p q : A → Bool) (t : List A)
      → ((a : A) → p a ≡ true → q a ≡ true)
      → is_some (find? p t) ≡ true
      → is_some (find? p (keep q t)) ≡ true
  find?-keep p q [] spare h = h
  find?-keep p q (a ∷ t) spare h = elim (Bool-cases (p a)) [
    | inl hit ↦ rw (spare a hit) (rw hit refl)
    | inr miss ↦ elim (Bool-cases (q a)) [
      | inl kept ↦ rw (kept, miss) (find?-keep p q t spare (rw miss at h))
      | inr gone ↦ rw gone (find?-keep p q t spare (rw miss at h))
    ]
  ]

  pub All-keep {κ} : (P : A → Type κ) (q : A → Bool) (t : List A) → All P t → All P (keep q t)
  All-keep P q [] all = tt
  All-keep P q (a ∷ t) all = elim (Bool-cases (q a)) [
    | inl kept ↦ rw kept (all.0, All-keep P q t all.1)
    | inr gone ↦ rw gone (All-keep P q t all.1)
  ]

  pub find?-Memᴰ :
      (p : A → Bool) {a : A} {t : List A} → Memᴰ a t → p a ≡ true → is_some (find? p t) ≡ true
  find?-Memᴰ p (Memᴰ.head e) h = rw (← e) (rw h refl)
  find?-Memᴰ p {t = x ∷ t} (Memᴰ.tail m) h = find?-grows p x t (find?-Memᴰ p m h)

  pub update_where-none :
      (p : A → Bool) (f : A → A) (t : List A) → find? p t ≡ none → update_where p f t ≡ t
  update_where-none p f [] h = refl
  update_where-none p f (a ∷ t) h = elim (Bool-cases (p a)) [
    | inl hit ↦ absurd (let q : some a ≡ none = rw hit at h in cc)
    | inr miss ↦ rw miss (ap (◌∷◌ a) (update_where-none p f t (rw miss at h)))
  ]

  pub Memᴰ-find? :
      (p : A → Bool) (t : List A) (a : A) → find? p t ≡ some a → Memᴰ a t × (p a ≡ true)
  Memᴰ-find? p [] a h = cc
  Memᴰ-find? p (x ∷ t) a h = elim (Bool-cases (p x)) [
    | inl hit ↦ let e : a ≡ x = ground arith in (Memᴰ.head e, rw e hit)
    | inr miss ↦ let (m, q) = Memᴰ-find? p t a (ground arith) in (Memᴰ.tail m, q)
  ]

  pub All-find? :
      (p : A → Bool) (t : List A) → is_some (find? p t) ≡ false → All (λ b. p b ≡ false) t
  All-find? p [] h = tt
  All-find? p (x ∷ t) h = elim (Bool-cases (p x)) [
    | inl hit ↦ absurd (let q : true ≡ false = rw hit at h in cc)
    | inr miss ↦ (miss, All-find? p t (rw miss at h))
  ]

module _ {ℓ} {A : Type ℓ} (clash : A → A → Bool) where
  -- No two rows clash, as a unique index has it.
  abbrev pub Apart : List A → Type 0
  Apart [] = Unit {0}
  Apart (a ∷ t) = All (λ b. clash a b ≡ false) t × Apart t

  from_left :
      (a d : A) (t : List A)
      → ((b : A) → clash d b ≡ clash a b)
      → All (λ b. clash a b ≡ false) t
      → All (λ b. clash d b ≡ false) t
  from_left a d [] same all = tt
  from_left a d (b ∷ t) same all = (same b ∙ all.0, from_left a d t same all.1)

  pub Apart-update :
      (p : A → Bool) (f : A → A) (t : List A)
      → ((a b : A) → clash (f a) b ≡ clash a b)
      → ((a b : A) → clash a (f b) ≡ clash a b)
      → Apart t
      → Apart (update_where p f t)
  Apart-update p f [] left right u = tt
  Apart-update p f (a ∷ t) left right u = elim (Bool-cases (p a)) [
    | inl hit ↦ rw hit (
      All-update (λ b. clash (f a) b ≡ false) p f t (λ b h _. right (f a) b ∙ h)
          (from_left a (f a) t (left a) u.0),
      Apart-update p f t left right u.1,
    )
    | inr miss ↦ rw miss (
      All-update (λ b. clash a b ≡ false) p f t (λ b h _. right a b ∙ h) u.0,
      Apart-update p f t left right u.1,
    )
  ]

pub str_eq-false_symm : (s t : String) → str_eq s t ≡ false → str_eq t s ≡ false
str_eq-false_symm s t h = ground (arith, eq_iff s t, eq_iff t s)

module _ {ℓ} {A : Type ℓ} (key : A → String) where
  abbrev pub has_key : String → A → Bool
  has_key k a = str_eq (key a) k

  abbrev pub Lacks : String → List A → Type 0
  Lacks k = All (λ a. str_eq (key a) k ≡ false)

  -- The primary key.
  abbrev pub Unique : List A → Type 0
  Unique [] = Unit {0}
  Unique (a ∷ t) = Lacks (key a) t × Unique t

  pub update-Lacks :
      (k : String) (f : A → A) (t : List A) → Lacks k t → update_where (has_key k) f t ≡ t
  update-Lacks k f [] l = refl
  update-Lacks k f (a ∷ t) l = rw l.0 (ap (◌∷◌ a) (update-Lacks k f t l.1))

  -- An update by the key of a row changes that row only.
  pub All-update_key {κ} :
      (P : A → Type κ) (f : A → A) {a : A} {t : List A}
      → Memᴰ a t
      → Unique t
      → P (f a)
      → All P t
      → All P (update_where (has_key (key a)) f t)
  All-update_key P f {a} (Memᴰ.head {x} {xs = t} e) u h all =
      let hit : str_eq (key x) (key a) ≡ true = rw (← e) (eq_refl (key a)) in
      let lacks : Lacks (key a) t = rw e u.0 in
      rw hit (rw (← e) h, rw (update-Lacks (key a) f t lacks) all.1)
  All-update_key P f {a} (Memᴰ.tail {x} {xs = t} m) u h all =
      let miss : str_eq (key x) (key a) ≡ false =
        str_eq-false_symm (key a) (key x) (All-Memᴰ (λ b. str_eq (key b) (key x) ≡ false) m u.0) in
      rw miss (all.0, All-update_key P f m u.1 h all.1)

  update-key :
      (p : A → Bool) (f : A → A) (a : A)
      → ((b : A) → key (f b) ≡ key b)
      → key (if p a then f a else a) ≡ key a
  update-key p f a same = elim (Bool-cases (p a)) [ inl hit ↦ rw hit (same a) | inr miss ↦ rw miss ]

  pub Unique-update :
      (p : A → Bool) (f : A → A) (t : List A)
      → ((a : A) → key (f a) ≡ key a)
      → Unique t
      → Unique (update_where p f t)
  Unique-update p f [] same u = tt
  Unique-update p f (a ∷ t) same u = (
    rw (update-key p f a same) (
        All-map (λ b. str_eq (key b) (key a) ≡ false) (λ b. if p b then f b else b) t
          (λ b h. rw (update-key p f b same) h) u.0),
    Unique-update p f t same u.1,
  )

  Lacks-Memᴰ : {a : A} {t : List A} (k : String) → Memᴰ a t → Lacks k t → str_eq (key a) k ≡ false
  Lacks-Memᴰ k m l = All-Memᴰ (λ b. str_eq (key b) k ≡ false) m l

  -- Two rows with one key are one row.
  pub Unique-eq : {a b : A} {t : List A} → Unique t → Memᴰ a t → Memᴰ b t → key a ≡ key b → a ≡ b
  Unique-eq u (Memᴰ.head p) (Memᴰ.head q) k = p ∙ sym q
  Unique-eq {a} {b} u (Memᴰ.head p) (Memᴰ.tail n) k =
      let miss : str_eq (key b) (key a) ≡ false = rw p (Lacks-Memᴰ _ n u.0) in
      absurd (let c : true ≡ false = sym (eq_refl (key b)) ∙ (rw k at miss) in cc)
  Unique-eq {a} {b} u (Memᴰ.tail m) (Memᴰ.head q) k =
      let miss : str_eq (key a) (key b) ≡ false = rw q (Lacks-Memᴰ _ m u.0) in
      absurd (let c : true ≡ false = sym (eq_refl (key b)) ∙ (rw k at miss) in cc)
  Unique-eq u (Memᴰ.tail m) (Memᴰ.tail n) k = Unique-eq u.1 m n k

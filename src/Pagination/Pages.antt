-- ===== src/Pagination/Pages.antt =====
-- That following the cursors of a list request shows every row once, in order.
use mathlib.Core.Path.{subst}
use invokr.Base.{
  ℕ, zero, suc, ◌+◌, ◌-◌, ◌≤◌, ◌<◌, min, ◌≡◌, refl, sym, ap, ◌∙◌, ◌⊎◌, inl, inr, String, Bool,
  Option, none, some, List, [], ◌∷◌, ◌++◌, take, drop, length, ltb, take-drop, take-all, take-take,
  length-take, length-drop, arith, Bool-cases,
}
use mathlib.Core.Option as Option
use invokr.Base.Int.{ℤ, pos, negsuc}
use invokr.Base.Rows.{Unique}
use invokr.Pagination.{
  Base64, effective_limit, ordered, after, list, last_name, respond, list_page, decode_cursor,
}
use invokr.Pagination.Order.{
  IsOrder, Sorted, ordered-Sorted, AtMost, earlier, after-after, after-last, after-head,
}

-- A page has at least one row and at most 200, whatever is asked for.
pub effective_limit_bounds :
    (limit : ℤ) → (1 ≤ effective_limit limit) × (effective_limit limit ≤ 200)
unfolding effective_limit
effective_limit_bounds (pos n) = ground arith
effective_limit_bounds (negsuc n) = ground arith

-- One request, and what its cursor leads to.
abbrev and_next :
    {A : Type 0} → (String → Option (List A)) → List A × Option String → Option (List A)
and_next next (shown, none) = some shown
and_next next (shown, some cursor) = Option.map (λ rest. shown ++ rest) (next cursor)

-- A client that follows the cursors, with `fuel` requests at most; `none` if there is a cursor left.
unfoldable pub pages_from :
    {A : Type 0}
    → (A → String)
    → (String → String → Bool)
    → Base64
    → ℤ
    → List A
    → ℕ
    → Option String
    → Option (List A)
pages_from name before base64 limit t zero cursor = none
pages_from name before base64 limit t (suc fuel) cursor =
    and_next (λ c. pages_from name before base64 limit t fuel (some c))
      (list_page name before base64 cursor limit t)

module _ {A : Type 0} (name : A → String) (before : String → String → Bool) (o : IsOrder before)
    (base64 : Base64) (decodes : (s : String) → base64.decode (base64.encode s) ≡ some s) where
  last_name-some : (a : A) (t : List A) → (l : String) × (last_name name before (a ∷ t) ≡ some l)
  last_name-some a [] = (name a, refl)
  last_name-some a (b ∷ t) = last_name-some b t

  uncons : (rest : List A) → 0 < length rest → (a : A) × (u : List A) × (rest ≡ a ∷ u)
  uncons [] h = absurd (omega (arith, h))
  uncons (a ∷ u) h = (a, u, refl)

  Sorted-drop : (n : ℕ) (u : List A) → Sorted name before o u → Sorted name before o (drop n u)
  Sorted-drop zero u h = h
  Sorted-drop (suc n) [] h = h
  Sorted-drop (suc n) (a ∷ u) h = Sorted-drop n u h.1

  -- The answer for the rows that are left: all of them, or a page with the cursor of the next.
  respond-cases :
      (m : ℕ) (rest : List A)
      → let r = respond name before base64 (suc m) (take (suc m + 1) rest) in
        ((length rest ≤ suc m) × (r ≡ (rest, none)))
        ⊎ ((a : A) × ((u : List A) × ((l : String) × (rest ≡ a ∷ u)
                × (suc m < length rest)
                × (last_name name before (take (suc m) (a ∷ u)) ≡ some l)
                × (r ≡ (take (suc m) (a ∷ u), some (base64.encode l))))))
  respond-cases m rest =
      let size : length (take (suc m + 1) rest) ≡ min (suc m + 1) (length rest) =
        length-take (suc m + 1) rest in
      let one : suc m + 1 ≡ suc (suc m) = omega arith in
      let page : take (suc m) (take (suc m + 1) rest) ≡ take (suc m) rest =
        ap (λ k. take (suc m) (take k rest)) one ∙ take-take (suc m) rest in
      elim (Bool-cases (ltb (suc m) (length (take (suc m + 1) rest)))) [
        | inl more ↦
            let (a, u, same) = uncons rest (ground (arith, size, more)) in
            let (l, last) = last_name-some a (take m u) in
            let shown : take (suc m) (take (suc m + 1) rest) ≡ a ∷ take m u =
              page ∙ ap (take (suc m)) same in
            inr (
              a,
              (
                u,
                (
                  l,
                  same,
                  ground (arith, size, more),
                  last,
                  rw more (
                      ap (λ v. (v, Option.map base64.encode (last_name name before v))) shown
                      ∙ ap (λ k. (a ∷ take m u, Option.map base64.encode k)) last),
                ),
              ),
            )
        | inr fits ↦
            let few : length rest ≤ suc m = ground (arith, size, fits) in
            inl (few, rw fits (ap (λ v. (v, none)) (page ∙ take-all (suc m) rest few)))
      ]

  -- The rows that a request with the name of a cursor is to list.
  abbrev rows_after : Option String → List A → List A
  rows_after none t = ordered name before t
  rows_after (some c) t = after name before c (ordered name before t)

  list-take :
      (c : Option String) (n : ℕ) (t : List A) → list name before c n t ≡ take n (rows_after c t)
  unfolding list
  list-take none n t = refl
  list-take (some c) n t = refl

  -- A later cursor leads to the rows after it among those that are left.
  rows_after-later :
      (c : Option String) (t : List A) (a : A) (u : List A) (l : String)
      → rows_after c t ≡ a ∷ u
      → AtMost name before o (name a) l
      → after name before l (ordered name before t) ≡ after name before l (a ∷ u)
  rows_after-later none t a u l same reach = ap (after name before l) same
  rows_after-later (some c) t a u l same reach =
      sym (
        after-after name before o c l (ordered name before t) (
          earlier name before o c (name a) l
            (after-head name before o c (ordered name before t) a u same) reach))
      ∙ ap (after name before l) same

  abbrev Covers : ℤ → List A → ℕ → Option String → Type 0
  Covers limit t fuel cursor =
      Sorted name before o (rows_after (decode_cursor base64 cursor) t)
      → length (rows_after (decode_cursor base64 cursor) t) ≤ suc fuel
      → pages_from name before base64 limit t (suc fuel) cursor
        ≡ some (rows_after (decode_cursor base64 cursor) t)

  -- A page, and the pages of its cursor.
  page-Covers :
      (limit : ℤ) (t : List A) (fuel m : ℕ) (c : Option String)
      → ((cursor : Option String) (less : ℕ) → suc less ≤ fuel → Covers limit t less cursor)
      → Sorted name before o (rows_after c t)
      → length (rows_after c t) ≤ suc fuel
      → and_next
          (λ k. pages_from name before base64 limit t fuel (some k))
          (respond name before base64 (suc m) (take (suc m + 1) (rows_after c t)))
        ≡ some (rows_after c t)
  page-Covers limit t zero m c covers sorted size = elim (respond-cases m (rows_after c t)) [
    | inl (few, shown) ↦
        ap (and_next (λ k. pages_from name before base64 limit t zero (some k))) shown
    | inr (a, (u, (l, same, more, last, shown))) ↦ absurd (omega (arith, more, size))
  ]
  page-Covers limit t (suc fuel) m c covers sorted size = elim (respond-cases m (rows_after c t)) [
    | inl (few, shown) ↦
        ap (and_next (λ k. pages_from name before base64 limit t (suc fuel) (some k))) shown
    | inr (a, (u, (l, same, more, last, shown))) ↦
        let (rest, reach) =
          after-last name before o m a u l (subst (Sorted name before o) same sorted) last in
        let left : rows_after (decode_cursor base64 (some (base64.encode l))) t ≡ drop m u =
          ap (λ d. rows_after d t) (decodes l) ∙ rows_after-later c t a u l same reach ∙ rest in
        let sorted_left : Sorted name before o (drop m u) =
          Sorted-drop m u (subst (Sorted name before o) same sorted).1 in
        let long : suc (length u) ≤ suc (suc fuel) =
          subst (λ v. length v ≤ suc (suc fuel)) same size in
        let fits : length (drop m u) ≤ suc fuel = omega (arith, length-drop m u, long) in
        let later =
          covers (some (base64.encode l)) fuel (omega arith)
            (subst (Sorted name before o) (sym left) sorted_left)
            (subst (λ v. length v ≤ suc fuel) (sym left) fits) in
        ap (and_next (λ k. pages_from name before base64 limit t (suc fuel) (some k))) shown
        ∙ ap (Option.map (λ v. take (suc m) (a ∷ u) ++ v)) (later ∙ ap some left)
        ∙ ap some (take-drop (suc m) (a ∷ u))
        ∙ ap some (sym same)
  ]

  Covers-step :
      (limit : ℤ) (t : List A) (fuel : ℕ) (cursor : Option String)
      → ((c : Option String) (less : ℕ) → suc less ≤ fuel → Covers limit t less c)
      → Covers limit t fuel cursor
  unfolding pages_from list_page
  Covers-step limit t fuel cursor covers sorted size =
      let n = effective_limit limit in
      let m = n - 1 in
      let e : n ≡ suc m = omega (arith, (effective_limit_bounds limit).0) in
      let page : list_page name before base64 cursor limit t
          ≡ respond name before base64 (suc m)
              (take (suc m + 1) (rows_after (decode_cursor base64 cursor) t)) =
        ap
          (λ k.
            respond name before base64 k (list name before (decode_cursor base64 cursor) (k + 1) t))
          e
        ∙ ap (respond name before base64 (suc m))
            (list-take (decode_cursor base64 cursor) (suc m + 1) t) in
      ap (and_next (λ k. pages_from name before base64 limit t fuel (some k))) page
      ∙ page-Covers limit t fuel m (decode_cursor base64 cursor) covers sorted size

  Covers-below :
      (limit : ℤ) (t : List A) (fuel : ℕ) (c : Option String) (less : ℕ)
      → suc less ≤ fuel
      → Covers limit t less c
  Covers-below limit t zero c less h = absurd (omega (arith, h))
  Covers-below limit t (suc fuel) c less h =
      Covers-step limit t less c
        (λ d k small. Covers-below limit t fuel d k (omega (arith, h, small)))

  -- A client that asks for the first page and follows the cursors comes to a page without a cursor
  -- after as many requests as there are rows at most, or after one if there are none, and has then
  -- seen every row of the table once, in the order of the names, whatever limit it gives. The names
  -- are distinct and in a strict order, the coding of a cursor is undone by its decoding, and the
  -- table does not change meanwhile.
  pub pages_cover :
      (limit : ℤ) (t : List A) (fuel : ℕ)
      → Unique name t
      → length (ordered name before t) ≤ suc fuel
      → pages_from name before base64 limit t (suc fuel) none ≡ some (ordered name before t)
  pages_cover limit t fuel unique size =
      Covers-below limit t (suc fuel) none fuel (omega arith)
        (ordered-Sorted name before o t unique) size

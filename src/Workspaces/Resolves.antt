-- ===== src/Workspaces/Resolves.antt =====
-- Which workspace the references of a request reach (crates/common/src/db/workspaces.rs).
use mathlib.Core.List.{Memᴰ}
use mathlib.Core.Option as Option
use invokr.Base.{
  ◌≡◌, refl, sym, inl, inr, String, Bool, true, ◌&&◌, Option, none, some, Bool-cases, List, [], ◌∷◌,
  map, All, All-append, find?, keep, head?, or_else, arith, eq_iff,
}
use invokr.Base.Rows.{All-Memᴰ, Memᴰ-find?}
use invokr.Tenant.Registry.{Workspace, is_active}
use invokr.Public.{Organization, Database}
use invokr.Organizations.{best, has_org_id, answers_to}
use invokr.Workspaces.{join, pick, is_reachable, resolved, has_workspace_id, answers_to_ref}

module _ {A : Type 0} (P : A → Type 0) where
  All-head : (t : List A) (a : A) → All P t → head? t ≡ some a → P a
  All-head [] a all h = absurd cc
  All-head (b ∷ t) a all h = let e : b ≡ a = cc in rw (← e) all.0

  or_else-P :
      (o u : Option A)
      → ((a : A) → o ≡ some a → P a)
      → ((a : A) → u ≡ some a → P a)
      → (a : A) → or_else o u ≡ some a
      → P a
  or_else-P (some b) u f g a h = f a h
  or_else-P none u f g a h = g a h

  found-P : (p : A → Bool) (t : List A) (a : A) → All P t → find? p t ≡ some a → P a
  found-P p t a all h = All-Memᴰ P (Memᴰ-find? p t a h).0 all

  All-best : (p q : A → Bool) (t : List A) (a : A) → All P t → best p q t ≡ some a → P a
  All-best p q t a all h =
      or_else-P (find? (λ b. p b && q b) t) _ (λ b. found-P (λ b. p b && q b) t b all)
        (or_else-P (find? p t) _ (λ b. found-P p t b all)
          (or_else-P (find? q t) _ (λ b. found-P q t b all) (λ b. All-head t b all)))
        a h

-- A row of the join, of workspaces among `ws` and organizations among `os`.
abbrev Joined : List Workspace → List Organization → Workspace × Organization → Type 0
Joined ws os row = Memᴰ row.0 ws × Memᴰ row.1 os × (has_org_id row.0.org_id row.1 ≡ true)

paired :
    (w : Workspace) (ws : List Workspace) (all part : List Organization)
    → Memᴰ w ws
    → ((o : Organization) → Memᴰ o part → Memᴰ o all)
    → All (Joined ws all) (map (λ o. (w, o)) (keep (has_org_id w.org_id) part))
paired w ws all [] m inside = tt
paired w ws all (o ∷ part) m inside = elim (Bool-cases (has_org_id w.org_id o)) [
  | inl mine ↦
      rw mine (
        (m, inside o (Memᴰ.head refl), mine),
        paired w ws all part m (λ x k. inside x (Memᴰ.tail k)),
      )
  | inr other ↦ rw other (paired w ws all part m (λ x k. inside x (Memᴰ.tail k)))
]

join-Joined :
    (ws part : List Workspace) (os : List Organization)
    → ((w : Workspace) → Memᴰ w part → Memᴰ w ws)
    → All (Joined ws os) (join part os)
unfolding join
join-Joined ws [] os inside = tt
join-Joined ws (w ∷ part) os inside =
    All-append (Joined ws os) (map (λ o. (w, o)) (keep (has_org_id w.org_id) os)) (join part os)
      (paired w ws os os (inside w (Memᴰ.head refl)) (λ o m. m))
      (join-Joined ws part os (λ x m. inside x (Memᴰ.tail m)))

-- What is kept of a table satisfies the test.
kept :
    {A : Type 0} (P : A → Type 0) (p : A → Bool) (t : List A)
    → All P t
    → All (λ a. P a × (p a ≡ true)) (keep p t)
kept P p [] all = tt
kept P p (a ∷ t) all = elim (Bool-cases (p a)) [
  | inl hit ↦ rw hit ((all.0, hit), kept P p t all.1)
  | inr miss ↦ rw miss (kept P p t all.1)
]

-- The schema that a request reaches is that of an ACTIVE workspace, whose organization answers to
-- the one reference by its id or its slug, as the workspace does to the other.
abbrev pub Reaches : String → String → Database → String → Type 0
Reaches org_ref workspace_ref db name =
    (w : Workspace) × ((o : Organization) × Memᴰ w db.workspaces
      × Memᴰ o db.organizations
      × (w.org_id ≡ o.org_id)
      × (is_active w ≡ true)
      × (answers_to org_ref o ≡ true)
      × (answers_to_ref workspace_ref w ≡ true)
      × (w.schema_name ≡ name))

reach :
    (org_ref workspace_ref name : String) (db : Database) (row : Workspace × Organization)
    → Joined db.workspaces db.organizations row × (is_reachable org_ref workspace_ref row ≡ true)
    → row.0.schema_name ≡ name
    → Reaches org_ref workspace_ref db name
reach org_ref workspace_ref name db (w, o) ((mw, mo, linked), test) same = (
  w,
  (
    o,
    mw,
    mo,
    sym ((eq_iff o.org_id w.org_id).0 linked),
    ground arith,
    ground arith,
    ground arith,
    same,
  ),
)

pub resolved-Reaches :
    (org_ref workspace_ref name : String) (db : Database)
    → resolved org_ref workspace_ref db ≡ some name
    → Reaches org_ref workspace_ref db name
unfolding resolved
resolved-Reaches org_ref workspace_ref name db h = go (pick org_ref workspace_ref rows) refl h
  where
    rows : List (Workspace × Organization)
    rows = keep (is_reachable org_ref workspace_ref) (join db.workspaces db.organizations)

    go :
        (found : Option (Workspace × Organization))
        → pick org_ref workspace_ref rows ≡ found
        → Option.map (λ (row : Workspace × Organization). row.0.schema_name) found ≡ some name
        → Reaches org_ref workspace_ref db name
    go none e k = absurd cc
    go (some row) e k =
        reach org_ref workspace_ref name db row
          (All-best
            (λ r.
              Joined db.workspaces db.organizations r
              × (is_reachable org_ref workspace_ref r ≡ true))
            (λ r. has_org_id org_ref r.1) (λ r. has_workspace_id workspace_ref r.0) rows row
            (kept (Joined db.workspaces db.organizations) (is_reachable org_ref workspace_ref)
              (join db.workspaces db.organizations)
              (join-Joined db.workspaces db.workspaces db.organizations (λ w m. m)))
            e)
          (let q : row.0.schema_name ≡ name = cc in q)

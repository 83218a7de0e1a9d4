-- ===== src/Organizations.antt =====
-- crates/common/src/db/organizations.rs. Ids, which PostgreSQL makes by `gen_random_uuid()`, are
-- arguments. Of rows that an order leaves equal PostgreSQL may take any; here it is the first.
use invokr.Base.{
  ℕ, String, Bool, ◌&&◌, ◌||◌, Option, none, some, List, ◌∷◌, str_eq, find?, keep, head?, is_some,
  or_else, if◌then◌else◌,
}
use invokr.Base.Rows.{update_where}
use invokr.Base.Result.{ok, err}
use invokr.Store.Conn.{unique_violation}
use invokr.Public.{Organization, Database, Ask, ask}

-- `ORDER BY first DESC, second DESC LIMIT 1`.
abbrev pub best : {A : Type 0} → (A → Bool) → (A → Bool) → List A → Option A
best first second t =
    or_else (find? (λ a. first a && second a) t)
      (or_else (find? first t) (or_else (find? second t) (head? t)))

abbrev pub has_org_id : String → Organization → Bool
has_org_id id o = str_eq o.org_id id

-- `org_id = $1 OR slug = $1`.
abbrev pub answers_to : String → Organization → Bool
answers_to ref o = has_org_id ref o || str_eq o.slug ref

abbrev pub is_active_org : Organization → Bool
is_active_org o = str_eq o.status "ACTIVE"

unfoldable pub create : ℕ → String → String → String → Ask Organization
create now id name slug =
    let o : Organization = record {
      org_id = id;
      name = name;
      slug = slug;
      status = "ACTIVE";
      created_at = now;
      updated_at = now;
    } in
    ask (λ db.
      if is_some (find? (has_org_id id) db.organizations)
      then err (unique_violation "pk_organizations")
      else if is_some (find? (λ (x : Organization). str_eq x.slug slug) db.organizations)
      then err (unique_violation "organizations_slug_key")
      else ok (o, record db { organizations = o ∷ db.organizations }))

abbrev pub resolve : String → List Organization → Option Organization
resolve ref t = best (has_org_id ref) (has_org_id ref) (keep (answers_to ref) t)

unfoldable pub get : String → Ask (Option Organization)
get ref = ask (λ db. ok (resolve ref db.organizations, db))

abbrev pub renamed : ℕ → String → Organization → Organization
renamed now name o = record o { name = name; updated_at = now }

abbrev pub update_found :
    ℕ → String → Database → Option Organization → Option Organization × Database
update_found now name db none = (none, db)
update_found now name db (some o) = (
  some (renamed now name o),
  record db {
    organizations = update_where (has_org_id o.org_id) (renamed now name) db.organizations;
  },
)

-- The row is chosen among the ACTIVE ones.
unfoldable pub update : ℕ → String → String → Ask (Option Organization)
update now ref name =
    ask (λ db. ok (update_found now name db (resolve ref (keep is_active_org db.organizations))))

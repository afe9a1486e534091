-- ===== src/Grants/Search.antt =====
-- Which collections a role may search, and how grants change that.
use pgvector_ragindexer.Base.{
  ℕ, ◌+◌, ◌≤◌, String, ◌≡◌, inl, inr, refl, ◌∙◌, Bool, true, false, ◌||◌, Option, none, some, List,
  [], ◌∷◌, ◌++◌, ◌==◌, ==_refl, nat_eq, contains, string_eq, strip, ltb, if◌then◌else◌, arith,
  Bool-cases,
}
use pgvector_ragindexer.Sql.{up, down, select, delete, count}
use pgvector_ragindexer.Sql.Laws.{count-append}
use pgvector_ragindexer.Users.{User, get_user_by_api_key}
use pgvector_ragindexer.Roles.{Config, get_valid_roles}
use pgvector_ragindexer.Visibility.{Answer, returned, raised}
use pgvector_ragindexer.Grants.{
  Grant, is_grant, of_role, insert_grant, grant_collection, revoke_collection, namespaces_of,
  unless_unrestricted, allowed_namespaces_for_role, search_allowed_namespaces_for_key_record,
}

-- Whether documents of a collection are left in the results.
abbrev pub permits : Answer (Option (List String)) → String → Bool
permits raised n = false
permits (returned none) n = true
permits (returned (some ns)) n = contains ns n

abbrev pub is_granted : String → String → List Grant → Bool
is_granted role n rows = ltb 0 (count (is_grant role n) rows)

contains-namespaces :
    (role n : String) (rows : List Grant)
    → contains (namespaces_of (select (of_role role) rows)) n ≡ is_granted role n rows
unfolding namespaces_of select count
contains-namespaces role n [] = refl
contains-namespaces role n (g ∷ gs) = ground (arith, contains-namespaces role n gs)

abbrev is_empty : List String → Bool
is_empty [] = true
is_empty (n ∷ ns) = false

namespaces-is_empty :
    (role : String) (rows : List Grant)
    → is_empty (namespaces_of (select (of_role role) rows)) ≡ (count (of_role role) rows == 0)
unfolding namespaces_of select count
namespaces-is_empty role [] = ground arith
namespaces-is_empty role (g ∷ gs) = ground (arith, namespaces-is_empty role gs)

permits-list :
    (ns : List String) (n : String)
    → permits (returned (unless_unrestricted ns)) n
      ≡ (is_empty ns || contains ns "*" || contains ns n)
permits-list [] n = refl
permits-list (m ∷ ms) n = elim (Bool-cases (contains (m ∷ ms) "*")) [
  | inl y ↦ rw y refl
  | inr z ↦ rw z refl
]

-- A role may search a collection exactly if it has no grant at all, a grant of '*', or a grant of that
-- collection.
pub allowed_namespaces-permits :
    (role n : String) (rows : List Grant)
    → (role == "") ≡ false
    → permits (allowed_namespaces_for_role up role rows) n
      ≡ (count (of_role role) rows == 0 || is_granted role "*" rows || is_granted role n rows)
unfolding allowed_namespaces_for_role
allowed_namespaces-permits role n rows h = rw h (
    permits-list (namespaces_of (select (of_role role) rows)) n
    ∙ rw
        (
          namespaces-is_empty role rows,
          contains-namespaces role "*" rows,
          contains-namespaces role n rows,
        )
        refl)

count-is_grant_le :
    (role m : String) (rows : List Grant) → count (is_grant role m) rows ≤ count (of_role role) rows
unfolding count
count-is_grant_le role m [] = omega arith
count-is_grant_le role m (g ∷ gs) = ground (arith, count-is_grant_le role m gs)

count-revoked :
    (role m : String) (rows : List Grant)
    → count (of_role role) (delete (is_grant role m) rows) + count (is_grant role m) rows
      ≡ count (of_role role) rows
unfolding count delete
count-revoked role m [] = omega arith
count-revoked role m (g ∷ gs) = ground (arith, count-revoked role m gs)

abbrev only_grant : String → String → List Grant
only_grant role m = record { role = role; namespace = m } ∷ []

only_grant-is_granted :
    (role m n : String) → count (is_grant role n) (only_grant role m) ≡ (if n == m then 1 else 0)
unfolding count
only_grant-is_granted role m n = ground (arith, ==_refl role)

first-is_granted :
    (role m n : String) (rows : List Grant)
    → count (of_role role) rows ≡ 0
    → is_granted role n (rows ++ only_grant role m) ≡ (n == m)
first-is_granted role m n rows z =
    let le = count-is_grant_le role n rows in
    let nothing : count (is_grant role n) rows ≡ 0 = omega (arith, le, z) in
    rw
      (
        count-append (is_grant role n) rows (only_grant role m),
        nothing,
        only_grant-is_granted role m n,
      )
      (ground arith)

first-of_role :
    (role m : String) (rows : List Grant)
    → (count (of_role role) (rows ++ only_grant role m) == 0) ≡ false
unfolding count
first-of_role role m rows =
    rw (count-append (of_role role) rows (only_grant role m)) (ground (arith, ==_refl role))

insert_grant-first :
    (role m : String) (rows : List Grant)
    → count (of_role role) rows ≡ 0
    → insert_grant role m rows ≡ rows ++ only_grant role m
insert_grant-first role m rows z =
    let le = count-is_grant_le role m rows in
    let nothing : count (is_grant role m) rows ≡ 0 = omega (arith, le, z) in rw nothing refl

-- The first grant of a role restricts it: of all the collections that it could search before, it is left
-- with that one, unless the grant is of '*'.
pub grant_collection-restricts :
    (c : Config) (role namespace n : String) (rows : List Grant)
    → (role == "") ≡ false
    → contains (get_valid_roles c) role ≡ true
    → (strip namespace == "") ≡ false
    → count (of_role role) rows ≡ 0
    → permits (allowed_namespaces_for_role up role (grant_collection up c role namespace rows).1) n
      ≡ ("*" == strip namespace || n == strip namespace)
unfolding grant_collection
grant_collection-restricts c role namespace n rows r v s z =
    rw (v, s, insert_grant-first role (strip namespace) rows z)
      (allowed_namespaces-permits role n (rows ++ only_grant role (strip namespace)) r
        ∙ rw
            (
              first-of_role role (strip namespace) rows,
              first-is_granted role (strip namespace) "*" rows z,
              first-is_granted role (strip namespace) n rows z,
            )
            refl)

-- Revoking the last grant of a role lets it search every collection again.
pub revoke_collection-last :
    (role namespace n : String) (rows : List Grant)
    → (role == "") ≡ false
    → count (of_role role) rows ≡ count (is_grant role namespace) rows
    → permits (allowed_namespaces_for_role up role (revoke_collection up role namespace rows).1) n
      ≡ true
unfolding revoke_collection
revoke_collection-last role namespace n rows r only =
    let rest = count-revoked role namespace rows in
    let nothing : count (of_role role) (delete (is_grant role namespace) rows) ≡ 0 =
      omega (arith, rest, only) in
    allowed_namespaces-permits role n (delete (is_grant role namespace) rows) r
    ∙ rw nothing (ground arith)

-- If the user of the key cannot be read, nothing is restricted, whatever role that user has and whatever
-- grants there are.
pub search_allowed_namespaces-fails_open :
    (c : Config) (users : List User) (key : Option ℕ) (rows : List Grant) (n : String)
    → permits (search_allowed_namespaces_for_key_record down c users key rows) n ≡ true
unfolding search_allowed_namespaces_for_key_record get_user_by_api_key
search_allowed_namespaces-fails_open c users none rows n = refl
search_allowed_namespaces-fails_open c users (some key) rows n = refl

-- ===== src/Grants.antt =====
-- collection_grants.py: the collections that a role may search. `created_at` is not read, and
-- list_grants only prints the rows.
pub mod Search
mod Examples
use pgvector_ragindexer.Base.{
  ℕ, suc, String, Bool, true, false, not, ◌&&◌, ◌||◌, Option, none, some, List, [], ◌∷◌, ◌++◌, ◌==◌,
  contains, string_eq, strip, ltb, if◌then◌else◌,
}
use pgvector_ragindexer.Sql.{Truth, Link, up, down, of_bool, ◌and◌, select, delete, count}
use pgvector_ragindexer.Users.{User, get_user_by_api_key}
use pgvector_ragindexer.Roles.{Config, get_valid_roles, has_permission, system_admin}
use pgvector_ragindexer.Visibility.{Answer, returned, raised}

pub record Grant : Type 0 where
  pub role : String
  pub namespace : String

abbrev pub is_grant : String → String → Grant → Truth
is_grant role namespace g = of_bool (g.role == role) and of_bool (g.namespace == namespace)

abbrev pub of_role : String → Grant → Truth
of_role role g = of_bool (g.role == role)

-- INSERT … ON CONFLICT (role, namespace) DO NOTHING
abbrev pub insert_grant : String → String → List Grant → List Grant
insert_grant role namespace rows =
    if ltb 0 (count (is_grant role namespace) rows)
    then rows
    else rows ++ (record { role = role; namespace = namespace } ∷ [])

abbrev pub inserted : Link → String → String → List Grant → Answer Bool × List Grant
inserted down role namespace rows = (raised, rows)
inserted up role namespace rows = (returned true, insert_grant role namespace rows)

-- `raised` stands for the ValueError of an empty namespace too.
unfoldable pub grant_collection :
    Link → Config → String → String → List Grant → Answer Bool × List Grant
grant_collection k c role namespace rows =
    if not (contains (get_valid_roles c) role)
    then (returned false, rows)
    else if strip namespace == ""
    then (raised, rows)
    else inserted k role (strip namespace) rows

unfoldable pub revoke_collection : Link → String → String → List Grant → Answer ℕ × List Grant
revoke_collection down role namespace rows = (raised, rows)
revoke_collection up role namespace rows =
    (returned (count (is_grant role namespace) rows), delete (is_grant role namespace) rows)

unfoldable pub namespaces_of : List Grant → List String
namespaces_of [] = []
namespaces_of (g ∷ gs) = g.namespace ∷ namespaces_of gs

-- `if not namespaces or "*" in namespaces`
abbrev pub unless_unrestricted : List String → Option (List String)
unless_unrestricted [] = none
unless_unrestricted (n ∷ ns) = if contains (n ∷ ns) "*" then none else some (n ∷ ns)

abbrev pub read_role : Link → String → List Grant → Answer (Option (List String))
read_role down role rows = raised
read_role up role rows = returned (unless_unrestricted (namespaces_of (select (of_role role) rows)))

-- An empty role is no role context; `returned none` means that nothing is restricted.
unfoldable pub allowed_namespaces_for_role :
    Link → String → List Grant → Answer (Option (List String))
unfolding namespaces_of
allowed_namespaces_for_role k role rows =
    if role == "" then returned none else read_role k role rows

abbrev pub for_user : Link → Config → Option User → List Grant → Answer (Option (List String))
for_user k c none rows = returned none
for_user k c (some u) rows =
    if has_permission c u.role system_admin
    then returned none
    else allowed_namespaces_for_role k u.role rows

-- `none`: authentication is off, and there is no record of a key.
unfoldable pub search_allowed_namespaces_for_key_record :
    Link → Config → List User → Option ℕ → List Grant → Answer (Option (List String))
unfolding allowed_namespaces_for_role
search_allowed_namespaces_for_key_record k c users none rows = returned none
search_allowed_namespaces_for_key_record k c users (some key) rows =
    for_user k c (get_user_by_api_key k key users) rows

-- ===== src/Roles/Admin.antt =====
-- What the admin role and the permission system.admin give.
use pgvector_ragindexer.Base.{
  String, ◌≡◌, refl, true, false, none, some, List, [], ◌∷◌, ◌==◌, string_eq, arith, Bool-cases,
  inl, inr,
}
use pgvector_ragindexer.Sql.{Link, up, down, of_bool, select}
use pgvector_ragindexer.Roles.{
  RoleDef, RoleRow, Config, ConfigFile, contents, missing, unreadable, not_a_dict, Store,
  all_permissions, builtin_roles, lookup, guard_admin, defs_of_rows, load_from_db, load_from_file,
  read_config, or_file, load_role_config, get_role_permissions, has_permission, named,
}

-- The configuration has a role of this name.
abbrev pub Defines : String → Config → Type 0
Defines name c = (d : RoleDef) × (lookup name c ≡ some d)

-- If there is an admin role, it has every permission.
abbrev pub AdminIsFull : Config → Type 0
AdminIsFull c = (d : RoleDef) → lookup "admin" c ≡ some d → d.permissions ≡ all_permissions

guard_admin-full : (c : Config) → AdminIsFull (guard_admin c)
unfolding guard_admin lookup
guard_admin-full [] d h = cc
guard_admin-full ((n, e) ∷ c) d h = elim (Bool-cases (n == "admin")) [
  | inl y ↦ ground arith
  | inr n' ↦ guard_admin-full c d (ground arith)
]

builtin-full : AdminIsFull builtin_roles
unfolding lookup string_eq
builtin-full d h = ground arith

file-full : (f : ConfigFile) → AdminIsFull (load_from_file f)
file-full (contents c) = guard_admin-full c
file-full missing = builtin-full
file-full unreadable = builtin-full
file-full not_a_dict = builtin-full

read_config-full : (k : Link) (s : Store) → AdminIsFull (read_config k s)
unfolding read_config load_from_db
read_config-full down s = file-full s.file
read_config-full up s = rows_full s.rows s.file
  where
    rows_full :
        (rows : List RoleRow) (f : ConfigFile) → AdminIsFull (or_file (load_from_db up rows) f)
    rows_full [] f = file-full f
    rows_full (r ∷ rs) f = guard_admin-full (defs_of_rows (r ∷ rs))

has_permission-full :
    (c : Config) (role p : String) (d : RoleDef)
    → lookup role c ≡ some d
    → d.permissions ≡ all_permissions
    → has_permission c role p ≡ true
unfolding has_permission string_eq
has_permission-full c role p d found full = rw (found, get_role_permissions, full)

-- Whichever source a fresh load takes (table, file or built-in roles), and whether the database
-- answers or not, an admin role that the configuration defines is granted every permission.
pub load-admin-has_permission :
    (k : Link) (s : Store) (p : String)
    → Defines "admin" (load_role_config k true s).0
    → has_permission (load_role_config k true s).0 "admin" p ≡ true
unfolding load_role_config
load-admin-has_permission k s p (d, found) =
    has_permission-full (read_config k s) "admin" p d found (read_config-full k s d found)

lookup-guard_admin-none :
    (rs : List RoleRow)
    → select (λ r. of_bool (named "admin" r)) rs ≡ []
    → lookup "admin" (guard_admin (defs_of_rows rs)) ≡ none
unfolding select lookup guard_admin defs_of_rows
lookup-guard_admin-none [] h = refl
lookup-guard_admin-none (r ∷ rs) h = ground (arith, lookup-guard_admin-none rs)

-- If the table has roles but none is called admin, the admin role has no permission at all: the
-- load neither adds it nor falls back on the file or the built-in roles.
pub load-no_admin :
    (s : Store) (r : RoleRow) (rs : List RoleRow) (p : String)
    → s.rows ≡ r ∷ rs
    → select (λ x. of_bool (named "admin" x)) (r ∷ rs) ≡ []
    → has_permission (load_role_config up true s).0 "admin" p ≡ false
unfolding load_role_config read_config load_from_db has_permission get_role_permissions
load-no_admin s r rs p e none_named =
    rw (e, load_from_db, lookup-guard_admin-none (r ∷ rs) none_named)

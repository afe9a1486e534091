-- ===== src/Roles.antt =====
-- role_permissions.py: roles as named lists of permissions, kept in the table `roles`, with a JSON
-- file and the built-in roles behind it, and a cache of the configuration in memory.
pub mod Admin
pub mod Edits
pub mod Creation
mod Examples
use pgvector_ragindexer.Base.{
  String, Bool, true, false, not, ◌&&◌, ◌||◌, Option, none, some, List, [], ◌∷◌, map, ◌==◌,
  contains, string_eq, first, strip, sorted, ltb, if◌then◌else◌,
}
use pgvector_ragindexer.Sql.{Link, up, down, of_bool, ◌and◌, select, delete, update, count}

abbrev pub system_admin : String
system_admin = "system.admin"

-- sorted(ALL_PERMISSIONS)
abbrev pub all_permissions : List String
all_permissions =
    "audit.view" ∷ "documents.delete" ∷ "documents.read" ∷ "documents.visibility"
    ∷ "documents.visibility.all" ∷ "documents.write" ∷ "health.view" ∷ "keys.manage"
    ∷ "system.admin" ∷ "users.manage" ∷ []

pub record RoleDef : Type 0 where
  pub description : String
  pub permissions : List String
  pub is_system : Bool

abbrev pub Config : Type 0
Config = List (String × RoleDef)

abbrev pub builtin_roles : Config
builtin_roles =
    (
      "admin",
      record {
        description = "Full system access";
        permissions = all_permissions;
        is_system = true;
      },
    )
    ∷ (
      "user",
      record {
        description = "Standard user — index and search documents";
        permissions = "documents.read" ∷ "documents.write" ∷ "documents.visibility" ∷ [];
        is_system = true;
      },
    )
    ∷ (
      "researcher",
      record {
        description = "Read-heavy role — search and index, manage own visibility";
        permissions = "documents.read" ∷ "documents.write" ∷ "documents.visibility" ∷ [];
        is_system = false;
      },
    )
    ∷ (
      "sre",
      record {
        description = "Operations role — full document access, health monitoring, audit";
        permissions =
            "documents.read" ∷ "documents.write" ∷ "documents.delete" ∷ "documents.visibility"
            ∷ "documents.visibility.all" ∷ "health.view" ∷ "audit.view" ∷ [];
        is_system = false;
      },
    )
    ∷ (
      "support",
      record {
        description = "Support role — read-only access with health and audit visibility";
        permissions = "documents.read" ∷ "health.view" ∷ "audit.view" ∷ [];
        is_system = false;
      },
    )
    ∷ []

-- A row of the table; `permissions` is `none` where the JSONB value is no list.
pub record RoleRow : Type 0 where
  pub name : String
  pub description : String
  pub permissions : Option (List String)
  pub is_system : Bool

-- What `open` and `json.load` make of role_permissions.json.
pub data ConfigFile : Type 0 where
  missing unreadable not_a_dict : ConfigFile
  contents : Config → ConfigFile

pub record Store : Type 0 where
  pub rows : List RoleRow
  pub file : ConfigFile
  pub cache : Option Config

unfoldable pub lookup : String → Config → Option RoleDef
lookup name [] = none
lookup name ((n, d) ∷ c) = if n == name then some d else lookup name c

abbrev pub or_no_list : Option (List String) → List String
or_no_list none = []
or_no_list (some l) = l

abbrev pub def_of_row : RoleRow → String × RoleDef
def_of_row r = (
  r.name,
  record {
    description = r.description;
    permissions = or_no_list r.permissions;
    is_system = r.is_system;
  },
)

-- if "admin" in config: config["admin"]["permissions"] = …; config["admin"]["is_system"] = True
unfoldable pub guard_admin : Config → Config
guard_admin [] = []
guard_admin ((n, d) ∷ c) =
    (if n == "admin"
      then (n, record d { permissions = all_permissions; is_system = true })
      else (n, d))
    ∷ guard_admin c

unfoldable pub defs_of_rows : List RoleRow → Config
defs_of_rows [] = []
defs_of_rows (r ∷ rs) = def_of_row r ∷ defs_of_rows rs

unfoldable pub load_from_db : Link → List RoleRow → Option Config
load_from_db down rows = none
load_from_db up [] = none
load_from_db up (r ∷ rs) = some (guard_admin (defs_of_rows (r ∷ rs)))

abbrev pub load_from_file : ConfigFile → Config
load_from_file (contents c) = guard_admin c
load_from_file missing = builtin_roles
load_from_file unreadable = builtin_roles
load_from_file not_a_dict = builtin_roles

abbrev pub or_file : Option Config → ConfigFile → Config
or_file (some c) f = c
or_file none f = load_from_file f

-- The configuration that a load with no cache reads.
unfoldable pub read_config : Link → Store → Config
read_config k s = or_file (load_from_db k s.rows) s.file

load_cached : Link → Option Config → Store → Config × Store
load_cached k (some c) s = (c, s)
load_cached k none s = let c = read_config k s in (c, record s { cache = some c })

unfoldable pub load_role_config : Link → Bool → Store → Config × Store
unfolding load_cached
load_role_config k true s = load_cached k none s
load_role_config k false s = load_cached k s.cache s

unfoldable pub get_valid_roles : Config → List String
get_valid_roles [] = []
get_valid_roles ((n, d) ∷ c) = n ∷ get_valid_roles c

-- The queries below take the configuration that `load_role_config()` returns.
abbrev pub permissions_of : Option RoleDef → List String
permissions_of none = []
permissions_of (some d) = d.permissions

unfoldable pub get_role_permissions : Config → String → List String
get_role_permissions c role = permissions_of (lookup role c)

unfoldable pub has_permission : Config → String → String → Bool
unfolding get_role_permissions
has_permission c role permission =
    let perms = get_role_permissions c role in
    if contains perms system_admin then true else contains perms permission

unfoldable pub is_valid_role : Config → String → Bool
is_valid_role c role = contains (get_valid_roles c) role

-- What a call that may raise gives.
pub data Outcome {ℓ} (A : Type ℓ) : Type ℓ where
  returned : A → Outcome A
  -- ValueError
  invalid : Outcome A
  -- the exception of the connection, raised again
  db_error : Outcome A

-- `set(ps) - known` is empty
unfoldable pub subset : List String → List String → Bool
subset known [] = true
subset known (p ∷ ps) = contains known p && subset known ps

abbrev pub all_known : List String → Bool
all_known = subset all_permissions

abbrev pub named : String → RoleRow → Bool
named name r = r.name == name

-- INSERT INTO roles: the primary key on `name` makes a second row of a name raise, which the
-- function turns into a ValueError.
insert_beside : RoleRow → Option RoleRow → Store → Outcome RoleRow × Store
insert_beside row (some r) s = (invalid, s)
insert_beside row none s = (returned row, record s { rows = row ∷ s.rows; cache = none })

insert_role : Link → RoleRow → Store → Outcome RoleRow × Store
unfolding insert_beside
insert_role down row s = (db_error, s)
insert_role up row s = insert_beside row (first (select (λ r. of_bool (named row.name r)) s.rows)) s

abbrev pub new_row : String → String → List String → RoleRow
new_row name description perms = record {
  name = strip name;
  description = description;
  permissions = some (sorted perms);
  is_system = false;
}

unfoldable pub create_role : Link → String → String → List String → Store → Outcome RoleRow × Store
unfolding insert_role
create_role k name description perms s =
    if strip name == ""
    then (invalid, s)
    else if all_known perms
    then insert_role k (new_row name description perms) s
    else (invalid, s)

abbrev pub given {ℓ} : {A : Type ℓ} → Option A → A → A
given none a = a
given (some b) a = b

-- The SET list that update_role builds.
abbrev pub set_role : Option String → Option (List String) → RoleRow → RoleRow
set_role description none r = record r { description = given description r.description }
set_role description (some ps) r = record r {
  description = given description r.description;
  permissions = some (sorted ps);
}

-- `admin` is silently given all permissions.
abbrev pub enforce_admin : String → Option (List String) → Option (List String)
enforce_admin name none = none
enforce_admin name (some ps) = if name == "admin" then some all_permissions else some ps

updated : List RoleRow → Option RoleRow → Store → Outcome (Option RoleRow) × Store
updated rows none s = (returned none, s)
updated rows (some r) s = (returned (some r), record s { rows = rows; cache = none })

update_rows :
    Link → String → Option String → Option (List String) → Store → Outcome (Option RoleRow) × Store
unfolding updated
update_rows down name description perms s = (db_error, s)
update_rows up name description perms s =
    let here = λ (r : RoleRow). of_bool (named name r) in
    let rows = update here (set_role description perms) s.rows in
    updated rows (first (select here rows)) s

-- get_role_info
abbrev pub info_of : String → Option RoleDef → Option RoleRow
info_of name none = none
info_of name (some d) = some (record {
  name = name;
  description = d.description;
  permissions = some d.permissions;
  is_system = d.is_system;
})

unfoldable pub get_role_info : Link → String → Store → Option RoleRow × Store
get_role_info k name s =
    let (c, s') = load_role_config k false s in (info_of name (lookup name c), s')

-- `if not sets: return get_role_info(name)`, inside the connection
update_nothing : Link → String → Store → Outcome (Option RoleRow) × Store
update_nothing down name s = (db_error, s)
update_nothing up name s = let (r, s') = get_role_info up name s in (returned r, s')

update_given :
    Link → String → Option String → Option (List String) → Store → Outcome (Option RoleRow) × Store
update_given k name none none s = update_nothing k name s
update_given k name (some d) none s = update_rows k name (some d) none s
update_given k name description (some ps) s =
    if all_known ps then update_rows k name description (some ps) s else (invalid, s)

unfoldable pub update_role :
    Link → String → Option String → Option (List String) → Store → Outcome (Option RoleRow) × Store
unfolding update_rows update_nothing update_given
update_role k name description perms s =
    update_given k name description (enforce_admin name perms) s

-- The ValueError for a system role is raised inside the connection, and get_connection turns what is
-- raised there into its own ConnectionPoolError.
delete_found : String → Option RoleRow → Store → Outcome Bool × Store
delete_found name none s = (returned false, s)
delete_found name (some r) s =
    if r.is_system
    then (db_error, s)
    else let custom = λ (x : RoleRow). of_bool (named name x) and of_bool (not x.is_system) in
      let deleted = ltb 0 (count custom s.rows) in
      (
        returned deleted,
        record s { rows = delete custom s.rows; cache = if deleted then none else s.cache },
      )

unfoldable pub delete_role : Link → String → Store → Outcome Bool × Store
unfolding delete_found
delete_role down name s = (db_error, s)
delete_role up name s = delete_found name (first (select (λ r. of_bool (named name r)) s.rows)) s

-- ===== src/Roles/Examples.antt =====
-- Runs of the role functions, and the theorems at concrete stores.
use pgvector_ragindexer.Base.{◌≡◌, refl, true, none, some, [], ◌∷◌, string_eq, strip, sorted}
use pgvector_ragindexer.Sql.{up, select}
use pgvector_ragindexer.Roles.{
  db_error, invalid, RoleRow, missing, Store, returned, subset, load_role_config, has_permission,
  new_row, create_role, update_role, delete_role,
}
use pgvector_ragindexer.Roles.Edits.{IsSound, here, next, updates, Reach-IsSound, Reach-admin}

abbrev admin_row : RoleRow
admin_row = record {
  name = "admin";
  description = "Full system access";
  permissions = some ("system.admin" ∷ []);
  is_system = true;
}

abbrev seeded : Store
seeded = record { rows = admin_row ∷ []; file = missing; cache = none }

abbrev with_auditor : Store
with_auditor = record {
  rows = new_row "auditor" "" ("audit.view" ∷ []) ∷ admin_row ∷ [];
  file = missing;
  cache = none;
}

create_auditor :
    create_role up " auditor " "" ("audit.view" ∷ []) seeded
    ≡ (returned (new_row " auditor " "" ("audit.view" ∷ [])), with_auditor)
unfolding create_role subset select strip sorted string_eq
create_auditor = refl

unknown_permission : create_role up "auditor" "" ("audit.all" ∷ []) seeded ≡ (invalid, seeded)
unfolding create_role subset strip string_eq
unknown_permission = refl

delete_admin : delete_role up "admin" seeded ≡ (db_error, seeded)
unfolding delete_role select string_eq
delete_admin = refl

abbrev no_admin : Store
no_admin = record { rows = new_row "auditor" "" [] ∷ []; file = missing; cache = none }

seeded-IsSound : IsSound seeded
unfolding subset string_eq
seeded-IsSound = record { admin = refl; known = (refl, tt) }

Reach-IsSound_example : IsSound (update_role up "admin" none (some []) seeded).1
Reach-IsSound_example =
    Reach-IsSound seeded-IsSound (next here (updates up "admin" none (some []) seeded))

Reach-admin_example :
    has_permission
      (load_role_config up true (update_role up "admin" none (some []) seeded).1).0
      "admin"
      "keys.manage"
    ≡ true
Reach-admin_example =
    Reach-admin "keys.manage" seeded-IsSound (next here (updates up "admin" none (some []) seeded))

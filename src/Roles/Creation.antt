-- ===== src/Roles/Creation.antt =====
-- A role that was created is what the next load reads.
use pgvector_ragindexer.Base.{
  String, ◌≡◌, refl, ◌∙◌, Bool, true, false, ◌||◌, Option, none, some, List, ◌∷◌, ◌==◌, ==_refl,
  contains, string_eq, first, strip, sorted, contains-sorted, if◌then◌else◌, Bool-cases, inl, inr,
}
use pgvector_ragindexer.Sql.{up, of_bool, select}
use pgvector_ragindexer.Roles.{
  RoleRow, Store, Outcome, returned, invalid, system_admin, all_permissions, subset, lookup,
  guard_admin, defs_of_rows, load_from_db, read_config, load_cached, load_role_config,
  get_role_permissions, has_permission, named, insert_beside, insert_role, new_row, create_role,
}

if_or : (a b : Bool) → (if a then true else b) ≡ (a || b)
if_or true b = refl
if_or false b = refl

has_permission-new_row :
    (name d p : String) (ps : List String) (s : Store)
    → (strip name == "admin") ≡ false
    → has_permission
        (load_role_config up false (record s { rows = new_row name d ps ∷ s.rows; cache = none })).0
        (strip name)
        p
      ≡ (contains ps system_admin || contains ps p)
unfolding load_role_config load_cached read_config load_from_db guard_admin defs_of_rows lookup
    has_permission
has_permission-new_row name d p ps s other =
    rw (other, ==_refl (strip name), get_role_permissions)
      (if_or (contains (sorted ps) system_admin) _
        ∙ rw (contains-sorted system_admin ps, contains-sorted p ps))

insert_role-inserts :
    (row : RoleRow) (s : Store)
    → (insert_role up row s).0 ≡ returned row
    → (insert_role up row s).1 ≡ record s { rows = row ∷ s.rows; cache = none }
unfolding insert_role
insert_role-inserts row s h = beside (first (select (λ r. of_bool (named row.name r)) s.rows)) h
  where
    beside :
        (o : Option RoleRow)
        → (insert_beside row o s).0 ≡ returned row
        → (insert_beside row o s).1 ≡ record s { rows = row ∷ s.rows; cache = none }
    beside (some r) e = cc
    beside none e = refl

unreturned : {row : RoleRow} → ◌≡◌ {A = Outcome RoleRow} invalid (returned row) → ⊥
unreturned h = cc

-- A successful create_role with a name other than admin drops the cache: the next load, without
-- being forced, gives the new role the permissions of the call and no others, where system.admin
-- stands for all of them.
pub create_role-has_permission :
    (name d p : String) (ps : List String) (s : Store)
    → (strip name == "admin") ≡ false
    → (create_role up name d ps s).0 ≡ returned (new_row name d ps)
    → has_permission (load_role_config up false (create_role up name d ps s).1).0 (strip name) p
      ≡ (contains ps system_admin || contains ps p)
unfolding create_role
create_role-has_permission name d p ps s other ok = elim (Bool-cases (strip name == "")) [
  | inl y ↦ absurd (unreturned (rw y at ok))
  | inr n ↦ elim (Bool-cases (subset all_permissions ps)) [
    | inl known ↦
        rw (n, known, insert_role-inserts (new_row name d ps) s (rw (n, known) at ok))
          (has_permission-new_row name d p ps s other)
    | inr unknown ↦ absurd (unreturned (rw (n, unknown) at ok))
  ]
]

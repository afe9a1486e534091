-- ===== src/Roles/Edits.antt =====
-- What create_role, update_role and delete_role keep, and what a load reads after them.
use pgvector_ragindexer.Base.{
  String, ◌≡◌, refl, ◌∙◌, Bool, true, false, not, ◌||◌, Option, none, some, List, [], ◌∷◌, ◌==◌,
  ==_sound, ==_refl, All, contains, string_eq, arith, first, strip, sorted, contains-sorted,
  if◌then◌else◌, Bool-cases, inl, inr,
}
use pgvector_ragindexer.Sql.{Truth, Link, up, down, of_bool, is_true, ◌and◌, select, delete, update}
use pgvector_ragindexer.Roles.{
  RoleRow, Config, Store, all_permissions, subset, or_no_list, lookup, guard_admin, defs_of_rows,
  load_from_db, read_config, or_file, ConfigFile, load_cached, load_role_config, get_role_info,
  has_permission, named, set_role, enforce_admin, insert_beside, insert_role, new_row, updated,
  create_role, update_rows, update_nothing, update_given, update_role, delete_found, delete_role,
}
use pgvector_ragindexer.Roles.Admin.{Defines, load-admin-has_permission}

abbrev pub named_where : String → RoleRow → Truth
named_where name r = of_bool (named name r)

or_true : (b : Bool) → (b || true) ≡ true
or_true true = refl
or_true false = refl

-- The first row that is called admin, if there is one, is a system role.
abbrev pub has_admin : List RoleRow → Bool
has_admin [] = false
has_admin (r ∷ rs) = let rest = has_admin rs in if named "admin" r then r.is_system else rest

has_admin-insert :
    (row : RoleRow) (rs : List RoleRow)
    → first (select (named_where row.name) rs) ≡ none
    → has_admin rs ≡ true
    → has_admin (row ∷ rs) ≡ true
unfolding select
has_admin-insert row [] fresh h = cc
has_admin-insert row (r ∷ rs) fresh h = ground (arith, has_admin-insert row rs)

has_admin-update :
    (name : String) (d : Option String) (ps : Option (List String)) (rs : List RoleRow)
    → has_admin (update (named_where name) (set_role d ps) rs) ≡ has_admin rs
unfolding update
has_admin-update name d ps [] = refl
has_admin-update name d none (x ∷ rs) = ground (arith, has_admin-update name d none rs)
has_admin-update name d (some ps) (x ∷ rs) = ground (arith, has_admin-update name d (some ps) rs)

has_admin-delete :
    (name : String) (rs : List RoleRow)
    → has_admin rs ≡ true
    → has_admin (delete (λ x. of_bool (named name x) and of_bool (not x.is_system)) rs) ≡ true
unfolding delete
has_admin-delete name [] h = h
has_admin-delete name (x ∷ rs) h = ground (arith, has_admin-delete name rs)

module _ (known : List String) where
  subset-intro :
      (ps : List String)
      → ((p : String) → contains ps p ≡ true → contains known p ≡ true)
      → subset known ps ≡ true
  unfolding subset
  subset-intro [] h = refl
  subset-intro (p ∷ ps) h =
      rw (h p (rw (==_refl p)), subset-intro ps (λ q m. h q (rw m (or_true (q == p)))))

  subset-contains :
      (ps : List String) (p : String)
      → subset known ps ≡ true
      → contains ps p ≡ true
      → contains known p ≡ true
  unfolding subset
  subset-contains [] p k m = cc
  subset-contains (q ∷ ps) p k m = elim (Bool-cases (p == q)) [
    | inl same ↦ rw (==_sound p q same) (ground arith)
    | inr other ↦ subset-contains ps p (ground arith) (ground arith)
  ]

  pub subset-sorted : (ps : List String) → subset known ps ≡ true → subset known (sorted ps) ≡ true
  subset-sorted ps k =
      subset-intro (sorted ps) (λ p m. subset-contains ps p k (rw contains-sorted at m))

-- Every permission that a row lists is known.
abbrev pub AllKnown : List RoleRow → Type 0
AllKnown = All (λ r. subset all_permissions (or_no_list r.permissions) ≡ true)

AllKnown-update :
    (p : RoleRow → Truth) (d : Option String) (ps : Option (List String)) (rs : List RoleRow)
    → subset all_permissions (or_no_list ps) ≡ true
    → AllKnown rs
    → AllKnown (update p (set_role d ps) rs)
unfolding update
AllKnown-update p d ps [] k h = tt
AllKnown-update p d none (r ∷ rs) k (h, hs) = elim (Bool-cases (is_true (p r))) [
  | inl y ↦ rw y (h, AllKnown-update p d none rs k hs)
  | inr n ↦ rw n (h, AllKnown-update p d none rs k hs)
]
AllKnown-update p d (some ps) (r ∷ rs) k (h, hs) = elim (Bool-cases (is_true (p r))) [
  | inl y ↦ rw y (subset-sorted all_permissions ps k, AllKnown-update p d (some ps) rs k hs)
  | inr n ↦ rw n (h, AllKnown-update p d (some ps) rs k hs)
]

AllKnown-delete : (p : RoleRow → Truth) (rs : List RoleRow) → AllKnown rs → AllKnown (delete p rs)
unfolding delete
AllKnown-delete p [] h = tt
AllKnown-delete p (r ∷ rs) (h, hs) = elim (Bool-cases (is_true (p r))) [
  | inl y ↦ rw y (AllKnown-delete p rs hs)
  | inr n ↦ rw n (h, AllKnown-delete p rs hs)
]

pub record IsSound (s : Store) : Type 0 where
  pub admin : has_admin s.rows ≡ true
  pub known : AllKnown s.rows

insert_role-IsSound :
    (k : Link) (row : RoleRow) (s : Store)
    → subset all_permissions (or_no_list row.permissions) ≡ true
    → IsSound s
    → IsSound (insert_role k row s).1
unfolding insert_role
insert_role-IsSound down row s known h = h
insert_role-IsSound up row s known h = beside (first (select (named_where row.name) s.rows)) refl
  where
    beside :
        (o : Option RoleRow)
        → first (select (named_where row.name) s.rows) ≡ o
        → IsSound (insert_beside row o s).1
    beside (some r) e = h
    beside none fresh = record {
      admin = has_admin-insert row s.rows fresh h.admin;
      known = (known, h.known);
    }

create_role-IsSound :
    (k : Link) (name d : String) (ps : List String) (s : Store)
    → IsSound s
    → IsSound (create_role k name d ps s).1
unfolding create_role
create_role-IsSound k name d ps s h = elim (Bool-cases (strip name == "")) [
  | inl y ↦ rw y h
  | inr n ↦ elim (Bool-cases (subset all_permissions ps)) [
    | inl known ↦
        rw (n, known)
          (insert_role-IsSound k (new_row name d ps) s (subset-sorted all_permissions ps known) h)
    | inr unknown ↦ rw (n, unknown) h
  ]
]

update_rows-IsSound :
    (k : Link) (name : String) (d : Option String) (ps : Option (List String)) (s : Store)
    → subset all_permissions (or_no_list ps) ≡ true
    → IsSound s
    → IsSound (update_rows k name d ps s).1
unfolding update_rows
update_rows-IsSound down name d ps s known h = h
update_rows-IsSound up name d ps s known h = found (first (select (named_where name) rows))
  where
    rows : List RoleRow
    rows = update (named_where name) (set_role d ps) s.rows

    found : (o : Option RoleRow) → IsSound (updated rows o s).1
    found none = h
    found (some r) = record {
      admin = has_admin-update name d ps s.rows ∙ h.admin;
      known = AllKnown-update (named_where name) d ps s.rows known h.known;
    }

cached-IsSound :
    (k : Link) (o : Option Config) (s : Store) → IsSound s → IsSound (load_cached k o s).1
unfolding load_cached
cached-IsSound k (some c) s h = h
cached-IsSound k none s h = record { admin = h.admin; known = h.known }

load-IsSound : (k : Link) (b : Bool) (s : Store) → IsSound s → IsSound (load_role_config k b s).1
unfolding load_role_config
load-IsSound k true s h = cached-IsSound k none s h
load-IsSound k false s h = cached-IsSound k s.cache s h

update_given-IsSound :
    (k : Link) (name : String) (d : Option String) (ps : Option (List String)) (s : Store)
    → IsSound s
    → IsSound (update_given k name d ps s).1
unfolding update_given update_nothing get_role_info
update_given-IsSound up name none none s h = load-IsSound up false s h
update_given-IsSound down name none none s h = h
update_given-IsSound k name (some d) none s h =
    update_rows-IsSound k name (some d) none s (unfold subset in refl) h
update_given-IsSound k name d (some ps) s h = elim (Bool-cases (subset all_permissions ps)) [
  | inl known ↦ rw known (update_rows-IsSound k name d (some ps) s known h)
  | inr unknown ↦ rw unknown h
]

delete_found-IsSound :
    (name : String) (o : Option RoleRow) (s : Store) → IsSound s → IsSound (delete_found name o s).1
unfolding delete_found
delete_found-IsSound name none s h = h
delete_found-IsSound name (some r) s h = elim (Bool-cases r.is_system) [
  | inl y ↦ rw y h
  | inr n ↦ rw n (record {
    admin = has_admin-delete name s.rows h.admin;
    known = AllKnown-delete _ s.rows h.known;
  })
]

-- One call of the module, whatever its arguments and whether the database answers.
pub data Step : Store → Store → Type 0 where
  creates :
      (k : Link) (name d : String) (ps : List String) (s : Store)
      → Step s (create_role k name d ps s).1
  updates :
      (k : Link) (name : String) (d : Option String) (ps : Option (List String)) (s : Store)
      → Step s (update_role k name d ps s).1
  deletes : (k : Link) (name : String) (s : Store) → Step s (delete_role k name s).1
  loads : (k : Link) (force : Bool) (s : Store) → Step s (load_role_config k force s).1

pub data Reach (s : Store) : Store → Type 0 where
  here : Reach s s
  next : {t u : Store} → Reach s t → Step t u → Reach s u

Step-IsSound : {s t : Store} → Step s t → IsSound s → IsSound t
unfolding delete_role update_role
Step-IsSound (creates k name d ps s) h = create_role-IsSound k name d ps s h
Step-IsSound (updates k name d ps s) h = update_given-IsSound k name d (enforce_admin name ps) s h
Step-IsSound (deletes up name s) h = delete_found-IsSound name _ s h
Step-IsSound (deletes down name s) h = h
Step-IsSound (loads k b s) h = load-IsSound k b s h

-- From a table whose first admin row is a system role and whose permissions are all known, no
-- sequence of calls removes that row, makes it an ordinary role or stores an unknown permission.
pub Reach-IsSound : {s t : Store} → IsSound s → Reach s t → IsSound t
Reach-IsSound h here = h
Reach-IsSound h (next r st) = Step-IsSound st (Reach-IsSound h r)

has_admin-Defines :
    (rs : List RoleRow) → has_admin rs ≡ true → Defines "admin" (guard_admin (defs_of_rows rs))
unfolding lookup guard_admin defs_of_rows
has_admin-Defines [] h = cc
has_admin-Defines (r ∷ rs) h = elim (Bool-cases (r.name == "admin")) [
  | inl y ↦ (
    record { description = r.description; permissions = all_permissions; is_system = true },
    ground arith,
  )
  | inr n ↦ let (d, found) = has_admin-Defines rs (ground arith) in (d, ground arith)
]

rows-Defines :
    (rs : List RoleRow) (f : ConfigFile)
    → has_admin rs ≡ true
    → Defines "admin" (or_file (load_from_db up rs) f)
unfolding load_from_db
rows-Defines [] f h = cc
rows-Defines (r ∷ rs) f h = has_admin-Defines (r ∷ rs) h

-- However the roles were edited from such a table, a load that reaches the database grants the
-- admin role every permission.
pub Reach-admin :
    {s t : Store} (p : String)
    → IsSound s
    → Reach s t
    → has_permission (load_role_config up true t).0 "admin" p ≡ true
Reach-admin {t = t} p h r = load-admin-has_permission up t p (
    unfold load_role_config load_cached read_config in
    rows-Defines t.rows t.file (Reach-IsSound h r).admin)

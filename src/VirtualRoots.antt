-- ===== src/VirtualRoots.antt =====
-- virtual_roots.py: names of roots, which each client maps to a path of its own. The columns that
-- are only shown, created_at and updated_at, are left out; the id of a new row is an
-- argument. A client that is not registered makes an INSERT raise, as a `down` link does.
pub mod Mapping
mod Examples
use Prim.Native.Char.{Char}
use pgvector_ragindexer.Base.{
  String, Bool, true, false, ◌&&◌, ◌||◌, Option, none, some, List, [], ◌∷◌, ◌==◌, string_eq, append,
  has_prefix, has_suffix, after_prefix, first, if◌then◌else◌, ltb, map, contains, ℕ, nat_eq,
}
use pgvector_ragindexer.Sql.{Truth, Link, up, down, of_bool, select, delete, count}
use pgvector_ragindexer.CanonicalIdentity.{split_first}

pub record VirtualRoot : Type 0 where
  pub id : String
  pub name : String
  pub client_id : String
  pub local_path : String

abbrev pub is_at : String → String → VirtualRoot → Bool
is_at name client r = r.name == name && r.client_id == client

-- INSERT … ON CONFLICT (name, client_id) DO UPDATE … RETURNING
unfoldable pub upsert : VirtualRoot → List VirtualRoot → VirtualRoot × List VirtualRoot
upsert new [] = (new, new ∷ [])
upsert new (r ∷ rs) =
    let rest = upsert new rs in
    if is_at new.name new.client_id r
    then (record r { local_path = new.local_path }, record r { local_path = new.local_path } ∷ rs)
    else (rest.0, r ∷ rest.1)

unfoldable pub add_root :
    Link
    → String
    → String
    → String
    → String
    → List VirtualRoot
    → Option VirtualRoot × List VirtualRoot
unfolding upsert
add_root down new_id name client_id local_path rows = (none, rows)
add_root up new_id name client_id local_path rows =
    let done =
      upsert (record { id = new_id; name = name; client_id = client_id; local_path = local_path })
        rows in
    (some done.0, done.1)

abbrev pub delete_where : Link → (VirtualRoot → Truth) → List VirtualRoot → Bool × List VirtualRoot
delete_where down p rows = (false, rows)
delete_where up p rows = (ltb 0 (count p rows), delete p rows)

unfoldable pub remove_root : Link → String → List VirtualRoot → Bool × List VirtualRoot
remove_root k root_id rows = delete_where k (λ r. of_bool (r.id == root_id)) rows

unfoldable pub remove_root_by_name :
    Link → String → String → List VirtualRoot → Bool × List VirtualRoot
remove_root_by_name k name client rows = delete_where k (λ r. of_bool (is_at name client r)) rows

unfoldable pub get_root : Link → String → List VirtualRoot → Option VirtualRoot
get_root down root_id rows = none
get_root up root_id rows = first (select (λ r. of_bool (r.id == root_id)) rows)

abbrev pub of_client : Option String → VirtualRoot → Bool
of_client none r = true
of_client (some c) r = if c == "" then true else r.client_id == c

unfoldable pub list_roots : Link → Option String → List VirtualRoot → List VirtualRoot
list_roots down client rows = []
list_roots up client rows = select (λ r. of_bool (of_client client r)) rows

-- os.path.join on a POSIX system
abbrev pub join : String → String → String
join path rest =
    if has_prefix "/" rest
    then rest
    else if path == "" || has_suffix "/" path
    then append path rest
    else append path (append "/" rest)

abbrev pub resolved : String → Option VirtualRoot → Option String
resolved remainder none = none
resolved remainder (some r) =
    if remainder == "" then some r.local_path else some (join r.local_path remainder)

-- the name of the root and the remainder
abbrev pub parts_of : String → Option (String × String) → String × String
parts_of path none = (path, "")
parts_of path (some parts) = parts

abbrev pub row_at : String → String → List VirtualRoot → Option VirtualRoot
row_at name client rows = first (select (λ r. of_bool (is_at name client r)) rows)

unfoldable pub resolve_path : Link → String → String → List VirtualRoot → Option String
unfolding split_first
resolve_path down virtual_path client rows = none
resolve_path up virtual_path client rows =
    let parts = parts_of virtual_path (split_first "/" virtual_path) in
    resolved parts.1 (row_at parts.0 client rows)

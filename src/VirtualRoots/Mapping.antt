-- ===== src/VirtualRoots/Mapping.antt =====
-- What a path resolves to after the mappings were changed.
use Prim.Native.Char.{Char}
use pgvector_ragindexer.Base.{
  String, ◌≡◌, refl, subst, ap, ◌∙◌, true, false, ◌&&◌, Option, none, some, List, [], ◌∷◌, ◌==◌,
  string_eq, ==_sound, ==_refl, append, has_prefix, has_suffix, after_prefix, same_char,
  if◌then◌else◌, arith, Bool-cases, inl, inr,
}
use pgvector_ragindexer.Sql.{up, of_bool, select, delete}
use pgvector_ragindexer.Paths.Under.{without}
use pgvector_ragindexer.CanonicalIdentity.{split_first}
use pgvector_ragindexer.VirtualRoots.{
  VirtualRoot, is_at, upsert, add_root, remove_root_by_name, join, resolved, parts_of, row_at,
  resolve_path,
}

abbrev pub path_of : Option VirtualRoot → Option String
path_of none = none
path_of (some r) = some r.local_path

-- The path that a client maps a name to.
abbrev pub mapping : String → String → List VirtualRoot → Option String
mapping name client rows = path_of (row_at name client rows)

row_at-upsert :
    (name client : String) (new : VirtualRoot) (rows : List VirtualRoot)
    → path_of (row_at name client (upsert new rows).1)
      ≡ (if is_at name client new then some new.local_path else path_of (row_at name client rows))
unfolding upsert select
row_at-upsert name client new [] = ground arith
row_at-upsert name client new (r ∷ rs) = ground (arith, row_at-upsert name client new rs)

split_first-cons :
    (c : Char) (a t : String)
    → without c a ≡ true
    → split_first c (append a (String.◌∷◌ c t)) ≡ some (a, t)
unfolding split_first append without
split_first-cons c String.[] t w = ground arith
split_first-cons c (String.◌∷◌ d a) t w =
    let ih = split_first-cons c a t (ground arith) in
    let other : same_char c d ≡ false = ground arith in rw (other, ih) refl

row_at-delete :
    (name client n c : String) (rows : List VirtualRoot)
    → path_of (row_at n c (delete (λ r. of_bool (is_at name client r)) rows))
      ≡ (if n == name && c == client then none else path_of (row_at n c rows))
unfolding delete select
row_at-delete name client n c [] = ground arith
row_at-delete name client n c (r ∷ rs) = ground (arith, row_at-delete name client n c rs)

-- The table is a map from names and clients to paths: adding a root sets the path of its name and
-- client, removing by name clears it, and both leave every other mapping as it was.
pub mapping-changes :
    (new_id name client path n c : String) (rows : List VirtualRoot)
    → (mapping n c (add_root up new_id name client path rows).1
        ≡ (if name == n && client == c then some path else mapping n c rows))
      × (mapping n c (remove_root_by_name up name client rows).1
          ≡ (if n == name && c == client then none else mapping n c rows))
unfolding add_root remove_root_by_name
mapping-changes new_id name client path n c rows = (
  row_at-upsert n c (record { id = new_id; name = name; client_id = client; local_path = path })
      rows,
  row_at-delete name client n c rows,
)

resolved-path_of :
    (rest : String) (o : Option VirtualRoot) {path : String}
    → (rest == "") ≡ false
    → path_of o ≡ some path
    → resolved rest o ≡ some (join path rest)
resolved-path_of rest none n h = cc
resolved-path_of rest (some r) {path} n h =
    let same : r.local_path ≡ path = cc in rw n (ap (λ p. some (join p rest)) same)

resolve_path-mapped :
    (name rest client : String) (rows : List VirtualRoot) {path : String}
    → without "/" name ≡ true
    → (rest == "") ≡ false
    → mapping name client rows ≡ some path
    → resolve_path up (append name (append "/" rest)) client rows ≡ some (join path rest)
unfolding resolve_path append
resolve_path-mapped name rest client rows w n h =
    ap
      (λ o.
        let parts = parts_of (append name (append "/" rest)) o in
        resolved parts.1 (row_at parts.0 client rows))
      (split_first-cons "/" name rest w)
    ∙ resolved-path_of rest (row_at name client rows) n h

mapped :
    (new_id name client path : String) (rows : List VirtualRoot)
    → mapping name client (add_root up new_id name client path rows).1 ≡ some path
mapped new_id name client path rows =
    (mapping-changes new_id name client path name client rows).0
    ∙ (let p = ==_refl name in let q = ==_refl client in ground arith)

-- After a client maps a name without a slash to a path that is not empty and does not end in a
-- slash, a virtual path below that name resolves for the client to the same path below the local
-- one, if what follows the name is neither empty nor begins with a slash.
pub resolve_path-joins :
    (new_id name client path rest : String) (rows : List VirtualRoot)
    → without "/" name ≡ true
    → (rest == "") ≡ false
    → has_prefix "/" rest ≡ false
    → (path == "") ≡ false
    → has_suffix "/" path ≡ false
    → resolve_path up
        (append name (append "/" rest))
        client
        (add_root up new_id name client path rows).1
      ≡ some (append path (append "/" rest))
resolve_path-joins new_id name client path rest rows w n a e s =
    resolve_path-mapped name rest client (add_root up new_id name client path rows).1 w n
      (mapped new_id name client path rows)
    ∙ rw (a, e, s) refl

prefixed : (s : String) → has_prefix "/" s ≡ true → (s == "") ≡ false
unfolding after_prefix
prefixed s p = elim (Bool-cases (s == "")) [
  | inl y ↦ let e = subst (λ t. has_prefix "/" t ≡ true) (==_sound s String.[] y) p in cc
  | inr n ↦ n
]

-- If what follows the name begins with a slash, as in "Docs//etc/passwd", the path resolves to it
-- as it stands: the local path of the root has no part in it.
pub resolve_path-escapes :
    (name client path rest : String) (rows : List VirtualRoot)
    → without "/" name ≡ true
    → has_prefix "/" rest ≡ true
    → mapping name client rows ≡ some path
    → resolve_path up (append name (append "/" rest)) client rows ≡ some rest
resolve_path-escapes name client path rest rows w a h =
    resolve_path-mapped name rest client rows w (prefixed rest a) h ∙ rw a refl

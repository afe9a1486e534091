-- ===== src/CanonicalIdentity.antt =====
-- canonical_identity.py: the keys `scope:identity:/relative/path` of documents.
pub mod Keys
pub mod Collapse
pub mod Backfill
mod Examples
use Prim.Native.Char.{Char}
use pgvector_ragindexer.Base.{
  ℕ, zero, suc, ◌+◌, String, Bool, true, false, not, ◌&&◌, ◌||◌, Option, none, some, List, [], ◌∷◌,
  ◌==◌, contains, string_eq, nat_eq, same_char, append, after_prefix, has_prefix, rstrip, ltb,
  if◌then◌else◌,
}
use pgvector_ragindexer.Sql.{
  Truth, Link, up, down, of_bool, is_null, equals, ◌and◌, select, update, count,
}
use pgvector_ragindexer.Chunks.{Chunk, touched}
use pgvector_ragindexer.Paths.{replace, like}

unfoldable pub size : String → ℕ
size String.[] = 0
size (String.◌∷◌ c s) = suc (size s)

-- "//" in s
unfoldable pub has_double : String → Bool
has_double String.[] = false
has_double (String.◌∷◌ c s) = (same_char c "/" && has_prefix "/" s) || has_double s

-- s.replace("//", "/"); the Boolean says that a slash was read and not yet written.
unfoldable pub halve : Bool → String → String
halve false String.[] = String.[]
halve true String.[] = "/"
halve false (String.◌∷◌ c s) =
    let kept = halve true s in
    let rest = halve false s in if same_char c "/" then kept else String.◌∷◌ c rest
halve true (String.◌∷◌ c s) =
    let rest = halve false s in
    if same_char c "/" then String.◌∷◌ "/" rest else String.◌∷◌ "/" (String.◌∷◌ c rest)

-- while "//" in p: p = p.replace("//", "/")
unfoldable pub collapse : ℕ → String → String
collapse zero p = p
collapse (suc fuel) p = let rest = collapse fuel (halve false p) in if has_double p then rest else p

abbrev pub with_slash : String → String
with_slash p = if not (p == "") && not (has_prefix "/" p) then String.◌∷◌ "/" p else p

unfoldable pub normalize_relative : String → String
unfolding collapse has_double size
normalize_relative path =
    let p = replace "\\" "/" path in
    let q = with_slash (collapse (size p) p) in if ltb 1 (size q) then rstrip "/" q else q

unfoldable pub build_canonical_key : String → String → String → String
unfolding normalize_relative
build_canonical_key scope identity relative_path =
    append scope (append ":" (append identity (append ":" (normalize_relative relative_path))))

-- s.split(c, 1), where there is a `c`
unfoldable pub split_first : Char → String → Option (String × String)
split_first c String.[] = none
split_first c (String.◌∷◌ d s) =
    let rest = split_first c s in
    if same_char c d
    then some (String.[], s)
    else elim rest [ none ↦ none | some (a, b) ↦ some (String.◌∷◌ d a, b) ]

pub record CanonicalKey : Type 0 where
  pub scope : String
  pub identity : String
  pub relative_path : String

abbrev pub scopes : List String
scopes = "client" ∷ "server" ∷ []

abbrev pub with_rest : String → Option (String × String) → Option CanonicalKey
with_rest scope none = none
with_rest scope (some (identity, rel)) =
    if contains scopes scope
    then some (record { scope = scope; identity = identity; relative_path = rel })
    else none

abbrev pub with_scope : Option (String × String) → Option CanonicalKey
with_scope none = none
with_scope (some (scope, rest)) = with_rest scope (split_first ":" rest)

-- key.split(":", 2), where there are three parts
unfoldable pub resolve_canonical_key : String → Option CanonicalKey
unfolding split_first
resolve_canonical_key key = if key == "" then none else with_scope (split_first ":" key)

-- abspath[len(root):]
abbrev pub below : String → String → Option String → String
below root abspath none = if abspath == root then "/" else abspath
below root abspath (some rest) =
    if has_prefix "/" rest then rest else if abspath == root then "/" else abspath

unfoldable pub extract_relative_path : String → String → String
unfolding normalize_relative
extract_relative_path folder_root absolute_path =
    let root = rstrip "/" (replace "\\" "/" folder_root) in
    let abspath = replace "\\" "/" absolute_path in
    normalize_relative (below root abspath (after_prefix root abspath))

abbrev pub with_id : ℕ → Chunk → Truth
with_id id c = of_bool (c.chunk_id == id)

-- What it raises is logged.
unfoldable pub set_canonical_key : Link → ℕ → String → ℕ → List Chunk → Bool × List Chunk
set_canonical_key down id key now rows = (false, rows)
set_canonical_key up id key now rows = (
  ltb 0 (count (with_id id) rows),
  update (with_id id) (λ c. touched now (record c { canonical_source_key = some key })) rows,
)

-- source_uri LIKE root_prefix || '%' AND canonical_source_key IS NULL; the folder's name is not
-- escaped.
abbrev pub pending : String → Chunk → Truth
pending folder_path c =
    of_bool
      (like c.source_uri (append (append (rstrip "/" (replace "\\" "/" folder_path)) "/") "%"))
    and is_null c.canonical_source_key

abbrev pub key_for : String → String → String → Chunk → String
key_for folder_path scope identity c =
    build_canonical_key scope identity (extract_relative_path folder_path c.source_uri)

-- The loop over the rows that the SELECT gave.
unfoldable pub set_keys : String → String → String → ℕ → List Chunk → List Chunk → ℕ × List Chunk
set_keys folder_path scope identity now [] rows = (0, rows)
set_keys folder_path scope identity now (c ∷ cs) rows =
    let key = key_for folder_path scope identity c in
    let rest = set_keys folder_path scope identity now cs (
      update (with_id c.chunk_id) (λ r. touched now (record r { canonical_source_key = some key }))
        rows) in
    (count (with_id c.chunk_id) rows + rest.0, rest.1)

unfoldable pub bulk_set_canonical_keys :
    Link → String → String → String → ℕ → List Chunk → ℕ × List Chunk
unfolding set_keys
bulk_set_canonical_keys down folder_path scope identity now rows = (0, rows)
bulk_set_canonical_keys up folder_path scope identity now rows =
    set_keys folder_path scope identity now (select (pending folder_path) rows) rows

-- ORDER BY chunk_index orders the answer.
unfoldable pub find_by_canonical_key : Link → String → List Chunk → List Chunk
find_by_canonical_key down key rows = []
find_by_canonical_key up key rows = select (λ c. equals c.canonical_source_key key) rows

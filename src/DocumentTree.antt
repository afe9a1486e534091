-- ===== src/DocumentTree.antt =====
-- document_tree.py: one level of the folder tree that the paths of the documents form. Names are
-- ordered by their lower case, which is an argument.
pub mod Totals
pub mod Expansion
mod Placing
pub mod Rows
mod Examples
use Prim.Native.Char.{Char}
use Prim.Native.String.{compare}
use text.Mathlib.Text.{is_le}
use pgvector_ragindexer.Base.{
  ℕ, zero, suc, ◌+◌, String, Bool, true, false, not, ◌&&◌, ◌||◌, Option, none, some, List, [], ◌∷◌,
  ◌++◌, map, ◌==◌, contains, string_eq, nat_eq, leb, max, min, length, same_char, append, rstrip,
  after_prefix, has_prefix, if◌then◌else◌,
}
use pgvector_ragindexer.Sql.{Truth, Link, up, down, of_bool, ◌and◌, select, count}
use pgvector_ragindexer.Chunks.{Chunk}
use pgvector_ragindexer.DocumentTree.Rows.{later_time, TreeRow, tree_rows, filter_hidden_docs}
use pgvector_ragindexer.Paths.{normalize_path, folder_prefix_like_pattern, like}
use pgvector_ragindexer.CanonicalIdentity.{split_first}

-- s.lstrip("/")
unfoldable pub lstrip : String → String
lstrip String.[] = String.[]
lstrip (String.◌∷◌ c s) = let rest = lstrip s in if same_char "/" c then rest else String.◌∷◌ c s

pub data Placement : Type 0 where
  -- a file of this name
  direct_child : String → Placement
  -- below a folder of this name and path
  in_folder : String → String → Placement

-- the first part of the relative path, if there are several; `prefix` comes before its name
abbrev pub placed : String → String → Option (String × String) → Placement
placed prefix relative none = direct_child relative
placed prefix relative (some (name, rest)) = in_folder name (append prefix name)

abbrev pub place_below : String → Option String → Option Placement
place_below parent none = none
place_below parent (some relative) =
    some (placed (append parent "/") relative (split_first "/" relative))

abbrev pub place_at_root : String → Placement
place_at_root uri =
    if has_prefix "/" uri
    then placed "/" (lstrip uri) (split_first "/" (lstrip uri))
    else placed "" uri (split_first "/" uri)

-- Where a row stands in the level below `parent`; `none` if it is not below it.
unfoldable pub place : String → String → Option Placement
unfolding lstrip
place parent uri =
    if parent == ""
    then some (place_at_root uri)
    else place_below parent (after_prefix (append parent "/") uri)

pub record TreeFolder : Type 0 where
  pub name : String
  pub path : String
  pub document_count : ℕ
  pub latest_indexed_at : Option ℕ

pub record TreeFile : Type 0 where
  pub name : String
  pub row : TreeRow

abbrev pub latest : Option ℕ → Option ℕ → Option ℕ
latest none old = old
latest (some t) old = later_time t old

abbrev pub new_folder : String → String → TreeRow → TreeFolder
new_folder name path r = record {
  name = name;
  path = path;
  document_count = 1;
  latest_indexed_at = r.indexed_at;
}

unfoldable pub add_to_folder : String → String → TreeRow → List TreeFolder → List TreeFolder
add_to_folder name path r [] = new_folder name path r ∷ []
add_to_folder name path r (f ∷ fs) =
    let rest = add_to_folder name path r fs in
    if f.name == name
    then record f {
      document_count = f.document_count + 1;
      latest_indexed_at = latest r.indexed_at f.latest_indexed_at;
    }
      ∷ fs
    else f ∷ rest

pub record Level : Type 0 where
  pub folders : List TreeFolder
  pub files : List TreeFile

abbrev pub add_placed : TreeRow → Option Placement → Level → Level
add_placed r none l = l
add_placed r (some (direct_child name)) l = record l {
  files = l.files ++ record { name = name; row = r } ∷ [];
}
add_placed r (some (in_folder name path)) l = record l {
  folders = add_to_folder name path r l.folders;
}

unfoldable pub build_level : String → List TreeRow → Level → Level
unfolding place add_to_folder
build_level parent [] l = l
build_level parent (r ∷ rs) l = build_level parent rs (add_placed r (place parent r.norm_uri) l)

abbrev pub empty_level : Level
empty_level = record { folders = []; files = [] }

abbrev pub documents_below : List TreeFolder → ℕ
documents_below [] = 0
documents_below (f ∷ fs) = f.document_count + documents_below fs

-- The documents that a level shows: its files, and those that its folders count.
abbrev pub documents : Level → ℕ
documents l = documents_below l.folders + length l.files

-- folders.get(name)
abbrev pub folder_named : String → List TreeFolder → Option TreeFolder
folder_named name [] = none
folder_named name (f ∷ fs) =
    let rest = folder_named name fs in if f.name == name then some f else rest

abbrev pub is_below : String → TreeRow → Bool
is_below parent r = parent == "" || has_prefix (append parent "/") r.norm_uri

pub data Item : Type 0 where
  folder : TreeFolder → Item
  file : TreeFile → Item

-- sorted(…, key=…), which keeps the order of equal keys
module _ {A : Type 0} (key : A → String) where
  insert_by : A → List A → List A
  insert_by a [] = a ∷ []
  insert_by a (b ∷ bs) = if is_le (compare (key a) (key b)) then a ∷ b ∷ bs else b ∷ insert_by a bs

  unfoldable pub sort_by : List A → List A
  unfolding insert_by
  sort_by [] = []
  sort_by (a ∷ as') = insert_by a (sort_by as')

unfoldable pub skip : ℕ → List Item → List Item
skip zero xs = xs
skip (suc n) [] = []
skip (suc n) (x ∷ xs) = skip n xs

unfoldable pub upto : ℕ → List Item → List Item
upto zero xs = []
upto (suc n) [] = []
upto (suc n) (x ∷ xs) = x ∷ upto n xs

pub record Page : Type 0 where
  pub children : List Item
  pub total_folders : ℕ
  pub total_files : ℕ

module _ (lower : String → String) where
  abbrev pub all_items : Level → List Item
  all_items l =
      map folder (sort_by (λ (f : TreeFolder). lower f.name) l.folders)
      ++ map file (sort_by (λ (f : TreeFile). lower f.name) l.files)

  -- all_items[offset:offset + limit]
  abbrev pub page : ℕ → ℕ → Level → Page
  page limit offset l = record {
    children = upto limit (skip offset (all_items l));
    total_folders = length l.folders;
    total_files = length l.files;
  }

  abbrev pub no_page : Page
  no_page = record { children = []; total_folders = 0; total_files = 0 }

  -- The source 'postgres'.
  unfoldable pub get_tree_children :
      Link → String → ℕ → ℕ → Option (Chunk → Truth) → List Chunk → Page
  unfolding build_level tree_rows sort_by skip upto
  get_tree_children down parent_path limit offset visibility rows = no_page
  get_tree_children up parent_path limit offset visibility rows =
      let parent = rstrip "/" (normalize_path parent_path) in
      page limit offset (build_level parent (tree_rows parent visibility rows) empty_level)

  -- The source 'lancedb', with what the adapter lists.
  unfoldable pub get_lancedb_children : String → ℕ → ℕ → List String → List TreeRow → Page
  unfolding build_level filter_hidden_docs sort_by skip upto
  get_lancedb_children parent_path limit offset hidden docs =
      let parent = rstrip "/" (normalize_path parent_path) in
      page limit offset (build_level parent (filter_hidden_docs hidden docs) empty_level)

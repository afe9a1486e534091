-- ===== src/DocumentTree/Totals.antt =====
-- The numbers of documents that one level of the tree shows.
use pgvector_ragindexer.Base.{
  ℕ, suc, ◌+◌, String, ◌≡◌, refl, ap, true, false, Option, none, some, List, [], ◌∷◌, ◌++◌, ◌==◌,
  string_eq, length, append, after_prefix, arith, Bool-cases, inl, inr, if◌then◌else◌,
}
use pgvector_ragindexer.Sql.{of_bool, count}
use pgvector_ragindexer.DocumentTree.Rows.{TreeRow}
use pgvector_ragindexer.DocumentTree.{
  Placement, direct_child, in_folder, place_below, place, TreeFolder, TreeFile, add_to_folder,
  Level, add_placed, build_level, empty_level, documents_below, documents, is_below,
}

documents_below-add :
    (name path : String) (r : TreeRow) (fs : List TreeFolder)
    → documents_below (add_to_folder name path r fs) ≡ suc (documents_below fs)
unfolding add_to_folder
documents_below-add name path r [] = refl
documents_below-add name path r (f ∷ fs) = ground (arith, documents_below-add name path r fs)

length-snoc : (fs : List TreeFile) (f : TreeFile) → length (fs ++ f ∷ []) ≡ suc (length fs)
length-snoc [] f = refl
length-snoc (g ∷ fs) f = ap suc (length-snoc fs f)

abbrev one_if : Option Placement → ℕ
one_if none = 0
one_if (some p) = 1

documents-add :
    (r : TreeRow) (p : Option Placement) (l : Level)
    → documents (add_placed r p l) ≡ one_if p + documents l
documents-add r none l = ground arith
documents-add r (some (direct_child name)) l =
    let e = length-snoc l.files (record { name = name; row = r }) in ground arith
documents-add r (some (in_folder name path)) l =
    let e = documents_below-add name path r l.folders in ground arith

one_if-below :
    (parent : String) (o : Option String)
    → one_if (place_below parent o) ≡ (if elim o [ none ↦ false | some s ↦ true ] then 1 else 0)
one_if-below parent none = refl
one_if-below parent (some s) = refl

place-is_below :
    (parent : String) (r : TreeRow)
    → one_if (place parent r.norm_uri) ≡ (if is_below parent r then 1 else 0)
unfolding place
place-is_below parent r = elim (Bool-cases (parent == "")) [
  | inl y ↦ rw y refl
  | inr n ↦ rw n (one_if-below parent (after_prefix (append parent "/") r.norm_uri))
]

documents-onto :
    (parent : String) (rows : List TreeRow) (l : Level)
    → documents (build_level parent rows l)
      ≡ count (λ r. of_bool (is_below parent r)) rows + documents l
unfolding build_level count
documents-onto parent [] l = ground arith
documents-onto parent (r ∷ rs) l =
    let ih = documents-onto parent rs (add_placed r (place parent r.norm_uri) l) in
    let here = documents-add r (place parent r.norm_uri) l in
    let one = place-is_below parent r in ground arith

-- One level of the tree shows each row below its folder exactly once, as a file or in the count of
-- one folder: its documents are as many as the rows whose path begins with the folder and a slash,
-- or as all rows at the root.
pub build_level-documents :
    (parent : String) (rows : List TreeRow)
    → documents (build_level parent rows empty_level)
      ≡ count (λ r. of_bool (is_below parent r)) rows
build_level-documents parent rows = let e = documents-onto parent rows empty_level in ground arith

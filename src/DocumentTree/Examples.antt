-- ===== src/DocumentTree/Examples.antt =====
-- The tree of a few documents.
use pgvector_ragindexer.Base.{
  String, ◌≡◌, refl, none, some, List, [], ◌∷◌, after_prefix, append, ℕ_discrete, string_eq,
}
use pgvector_ragindexer.Sql.{count, of_bool}
use pgvector_ragindexer.CanonicalIdentity.{split_first}
use pgvector_ragindexer.DocumentTree.Rows.{TreeRow}
use pgvector_ragindexer.DocumentTree.{
  TreeFolder, in_folder, place, build_level, empty_level, documents, is_below, lstrip,
}
use pgvector_ragindexer.DocumentTree.Totals.{build_level-documents}

abbrev row_of : String → String → TreeRow
row_of uri doc = record {
  norm_uri = uri;
  document_id = doc;
  chunk_count = 2;
  indexed_at = some 7;
  last_updated = some 9;
}

abbrev home : String
home = "/home"

abbrev rows : List TreeRow
rows =
    row_of "/home/u/a.txt" "a"
    ∷ row_of "/home/u/b.txt" "b"
    ∷ row_of "/home/v/c.txt" "c"
    ∷ row_of "/home/d.txt" "d"
    ∷ row_of "/opt/e.txt" "e"
    ∷ []

abbrev folder_u : TreeFolder
folder_u = record { name = "u"; path = "/home/u"; document_count = 2; latest_indexed_at = some 7 }

-- The root shows the folder of a share's server by a path that is not the beginning of the share's.
server_folder : place "" "//server/share/f.txt" ≡ some (in_folder "server" "/server")
unfolding place lstrip split_first append after_prefix string_eq ℕ_discrete
server_folder = refl

server_folder_empty : place "/server" "//server/share/f.txt" ≡ none
unfolding place after_prefix append string_eq ℕ_discrete
server_folder_empty = refl

build_level-documents_example :
    documents (build_level "/home" rows empty_level)
    ≡ count (λ r. of_bool (is_below "/home" r)) rows
build_level-documents_example = build_level-documents "/home" rows

shows_four : count (λ r. of_bool (is_below "/home" r)) rows ≡ 4
unfolding count append after_prefix string_eq ℕ_discrete
shows_four = refl

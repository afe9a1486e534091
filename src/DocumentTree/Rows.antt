-- ===== src/DocumentTree/Rows.antt =====
-- document_tree.py: the rows that the tree is built from, of PostgreSQL and of LanceDB.
use pgvector_ragindexer.Base.{
  ℕ, ◌+◌, String, Bool, true, ◌&&◌, Option, none, some, List, [], ◌∷◌, ◌==◌, contains, string_eq,
  nat_eq, max, min, if◌then◌else◌,
}
use pgvector_ragindexer.Sql.{Truth, of_bool, ◌and◌, select}
use pgvector_ragindexer.Chunks.{Chunk}
use pgvector_ragindexer.Paths.{normalize_path, folder_prefix_like_pattern, like}

-- A row of the query, or a document that the LanceDB adapter lists. The latter has one time.
pub record TreeRow : Type 0 where
  pub norm_uri : String
  pub document_id : String
  pub chunk_count : ℕ
  pub indexed_at : Option ℕ
  pub last_updated : Option ℕ

abbrev pub same_group : String → String → TreeRow → Bool
same_group uri doc r = r.norm_uri == uri && r.document_id == doc

abbrev pub earlier_time : ℕ → Option ℕ → Option ℕ
earlier_time t none = some t
earlier_time t (some u) = some (min t u)

abbrev pub later_time : ℕ → Option ℕ → Option ℕ
later_time t none = some t
later_time t (some u) = some (max t u)

abbrev pub single : Chunk → TreeRow
single c = record {
  norm_uri = normalize_path c.source_uri;
  document_id = c.document_id;
  chunk_count = 1;
  indexed_at = some c.indexed_at;
  last_updated = some c.indexed_at;
}

abbrev pub joined : Chunk → TreeRow → TreeRow
joined c r = record r {
  chunk_count = r.chunk_count + 1;
  indexed_at = earlier_time c.indexed_at r.indexed_at;
  last_updated = later_time c.indexed_at r.last_updated;
}

unfoldable pub into_group : Chunk → List TreeRow → List TreeRow
into_group c [] = single c ∷ []
into_group c (r ∷ rs) =
    let rest = into_group c rs in
    if same_group (normalize_path c.source_uri) c.document_id r then joined c r ∷ rs else r ∷ rest

-- GROUP BY norm_uri, document_id; the order is by norm_uri, which the sorting below makes idle but
-- for names that differ only in case.
unfoldable pub group_chunks : List Chunk → List TreeRow
unfolding into_group
group_chunks [] = []
group_chunks (c ∷ cs) = into_group c (group_chunks cs)

abbrev pub or_any : Option String → String
or_any none = "%"
or_any (some p) = p

abbrev pub visible_to : Option (Chunk → Truth) → Chunk → Truth
visible_to none c = of_bool true
visible_to (some p) c = p c

-- `visibility`: the condition of the caller, if there is one
unfoldable pub tree_rows : String → Option (Chunk → Truth) → List Chunk → List TreeRow
unfolding group_chunks
tree_rows parent visibility rows =
    let pattern = if parent == "" then "%" else or_any (folder_prefix_like_pattern parent) in
    group_chunks (
      select (λ c. of_bool (like (normalize_path c.source_uri) pattern) and visible_to visibility c)
        rows)

-- Hidden documents are dropped from what LanceDB lists.
unfoldable pub filter_hidden_docs : List String → List TreeRow → List TreeRow
filter_hidden_docs hidden [] = []
filter_hidden_docs hidden (d ∷ ds) =
    let rest = filter_hidden_docs hidden ds in
    if contains hidden d.document_id then rest else d ∷ rest

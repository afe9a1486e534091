-- ===== src/Quarantine/Examples.antt =====
-- The lifecycle at a table of two sources.
use pgvector_ragindexer.Base.{ℕ, String, ◌≡◌, refl, none, some, List, [], ◌∷◌, string_eq}
use pgvector_ragindexer.Sql.{up, count, update}
use pgvector_ragindexer.Chunks.{Chunk, touched}
use pgvector_ragindexer.Quarantine.{at_uri, quarantine_chunks, restore_chunks}
use pgvector_ragindexer.Quarantine.Lifecycle.{restore-quarantine}

abbrev chunk : ℕ → String → Chunk
chunk i uri = record {
  chunk_id = i;
  document_id = uri;
  chunk_index = i;
  text_content = "text";
  source_uri = uri;
  embedding = "[0,1]";
  metadata = "{}";
  indexed_at = 5;
  updated_at = 5;
  owner_id = none;
  visibility = some "shared";
  canonical_source_key = none;
  quarantined_at = none;
  quarantine_reason = none;
}

abbrev table : List Chunk
table = chunk 0 "/a" ∷ chunk 1 "/a" ∷ chunk 0 "/b" ∷ []

abbrev in_quarantine : List Chunk
in_quarantine = (quarantine_chunks up "/a" "source_file_missing" 100 table).1

two_are_marked : (quarantine_chunks up "/a" "source_file_missing" 100 table).0 ≡ 2
unfolding quarantine_chunks count string_eq
two_are_marked = refl

restore-quarantine_example :
    (restore_chunks up "/a" 200 in_quarantine).1 ≡ update (at_uri "/a") (touched 200) table
restore-quarantine_example =
    restore-quarantine "/a" "source_file_missing" 100 200 table
      (λ _. (refl, refl), (λ _. (refl, refl), (λ _. (refl, refl), tt)))

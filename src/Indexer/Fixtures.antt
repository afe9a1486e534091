-- ===== src/Indexer/Fixtures.antt =====
-- A small store, and services whose processor reads one file only, for the tests.
use pgvector_ragindexer.Base.{
  ℕ, String, true, Option, none, some, List, [], ◌∷◌, ◌==◌, string_eq, if◌then◌else◌,
}
use pgvector_ragindexer.Sql.{up}
use pgvector_ragindexer.Chunks.{Chunk}
use pgvector_ragindexer.Readiness.{initial}
use pgvector_ragindexer.Writes.{World, Adapter, answered}
use pgvector_ragindexer.Indexer.{ProcessedDocument, processed, unprocessable, Services, Conditions}

abbrev pub doc : ProcessedDocument
doc = record {
  document_id = "a";
  source_uri = "/docs/a";
  chunks = record { page_content = "new"; metadata = some "h2" } ∷ [];
  metadata = "{}";
  file_hash = some "h2";
}

abbrev pub adapter : Adapter (List String)
adapter = record {
  upsert_document = λ id uri chunks metadata i. (true, id ∷ i);
  rebuild_fts_index = λ i. (true, i);
  remove_document = λ id i. (true, []);
}

-- The hash of a chunk is its metadata; every file but /docs/a cannot be read.
abbrev pub services : Services (List String)
services = record {
  process = λ uri. if uri == "/docs/a" then processed doc else unprocessable;
  encode_batch = λ texts. some texts;
  file_hash_of = λ m. some m;
  adapter = adapter;
  lancedb_enabled = true;
}

abbrev pub old_chunk : String → Option ℕ → Chunk
old_chunk uri quarantined = record {
  chunk_id = 1;
  document_id = uri;
  chunk_index = 0;
  text_content = "old";
  source_uri = uri;
  embedding = "old";
  metadata = "h1";
  indexed_at = 5;
  updated_at = 5;
  owner_id = none;
  visibility = some "shared";
  canonical_source_key = none;
  quarantined_at = quarantined;
  quarantine_reason = none;
}

abbrev pub world : List Chunk → World (List String)
world rows = record { table = record { rows = rows; next_id = 2 }; index = []; globals = initial }

abbrev pub conditions : Conditions
conditions = record {
  at_lookup = up;
  at_write = record {
    at_backup = up;
    at_delete = up;
    at_insert = answered;
    at_undo_delete = up;
    at_undo_insert = answered;
  };
  now = 9;
}

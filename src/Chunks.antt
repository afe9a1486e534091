-- ===== src/Chunks.antt =====
-- The table `document_chunks` (database.py and the migrations 001, 012, 014 and 015), which the
-- indexer, the quarantine, the visibility rules and the canonical keys share. Embeddings and
-- metadata are only carried, as the texts that the database stores; metadata is not NULL, since
-- insert_chunks writes '{}' where there is none. Times are seconds.
use pgvector_ragindexer.Base.{ℕ, String, Option}

pub record Chunk : Type 0 where
  pub chunk_id : ℕ
  pub document_id : String
  pub chunk_index : ℕ
  pub text_content : String
  pub source_uri : String
  pub embedding : String
  pub metadata : String
  pub indexed_at : ℕ
  pub updated_at : ℕ
  pub owner_id : Option String
  pub visibility : Option String
  pub canonical_source_key : Option String
  pub quarantined_at : Option ℕ
  pub quarantine_reason : Option String

-- The trigger that runs before each UPDATE of a row.
abbrev pub touched : ℕ → Chunk → Chunk
touched now c = record c { updated_at = now }

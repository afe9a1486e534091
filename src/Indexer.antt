-- ===== src/Indexer.antt =====
-- indexer_v2.py: DocumentIndexer decides whether a document is skipped, refused, replaced or new,
-- and hands its chunks to the write transaction. The processor of files, the embedding service and
-- the JSON of a chunk's metadata are arguments.
pub mod Outcomes
pub mod Fixtures
mod Examples
use pgvector_ragindexer.Base.{
  ℕ, suc, String, Bool, true, false, not, ◌&&◌, Option, none, some, List, [], ◌∷◌, ◌==◌, string_eq,
  leb, ltb, first, length, map, if◌then◌else◌,
}
use pgvector_ragindexer.Sql.{Truth, Link, up, down, of_bool, ◌and◌, select, count}
use pgvector_ragindexer.Chunks.{Chunk}
use pgvector_ragindexer.Visibility.{of_document}
use pgvector_ragindexer.Readiness.{
  invalidate_lancedb_cache, begin_lancedb_mutation, end_lancedb_mutation,
}
use pgvector_ragindexer.Writes
use pgvector_ragindexer.Writes.{
  ChunkTuple, Adapter, World, Links, Request, with_globals, with_index, with_table,
  write_indexed_document,
}

-- A chunk of the splitter: its text, and its metadata as the JSON text that is stored.
pub record Piece : Type 0 where
  pub page_content : String
  pub metadata : Option String

pub record ProcessedDocument : Type 0 where
  pub document_id : String
  pub source_uri : String
  pub chunks : List Piece
  pub metadata : String
  pub file_hash : Option String

-- What `processor.process` does: it returns, or it raises EncryptedPDFError, another
-- DocumentProcessingError, or anything else.
pub data Processing : Type 0 where
  processed : ProcessedDocument → Processing
  encrypted unprocessable crashes : Processing

pub record Services (Index : Type 0) : Type 0 where
  pub process : String → Processing
  -- `none` if it raises
  pub encode_batch : List String → Option (List String)
  -- metadata.get('file_hash') of the stored JSON
  pub file_hash_of : String → Option String
  pub adapter : Adapter Index
  pub lancedb_enabled : Bool

-- What happens around one call: whether the lookup answers, how the write goes, and the time.
pub record Conditions : Type 0 where
  pub at_lookup : Link
  pub at_write : Links
  pub now : ℕ

pub record Options : Type 0 where
  pub force_reindex : Bool
  pub rebuild_fts : Bool
  pub may_replace : Option (String → Bool)

pub data ErrorType : Type 0 where
  encrypted_pdf processing_error unknown_error : ErrorType

pub data IndexResult : Type 0 where
  success : String → ℕ → IndexResult
  skipped : String → IndexResult
  error : ErrorType → IndexResult
  -- ReplacementNotAuthorizedError
  denied : IndexResult

abbrev pub earlier_of : Chunk → Option Chunk → Option Chunk
earlier_of c none = some c
earlier_of c (some d) = if leb c.indexed_at d.indexed_at then some c else some d

-- (array_agg(metadata ORDER BY indexed_at ASC))[1]
unfoldable pub earliest : List Chunk → Option Chunk
earliest [] = none
earliest (c ∷ cs) = earlier_of c (earliest cs)

abbrev pub metadata_of : Option Chunk → Option String
metadata_of none = none
metadata_of (some c) = some c.metadata

-- The rows are grouped by document and path, and the first group is read.
abbrev pub first_group : String → Option Chunk → List Chunk → Option String
first_group doc none rows = none
first_group doc (some c) rows =
    metadata_of
      (earliest (select (λ d. of_document doc d and of_bool (d.source_uri == c.source_uri)) rows))

-- `none` if it raises, `some none` if there is no such document.
unfoldable pub get_document_by_id : Link → String → List Chunk → Option (Option String)
unfolding earliest
get_document_by_id down doc rows = none
get_document_by_id up doc rows = some (first_group doc (first (select (of_document doc) rows)) rows)

-- new_hash and existing_hash and new_hash == existing_hash
abbrev pub same_hash : Option String → Option String → Bool
same_hash (some a) (some b) = not (a == "") && not (b == "") && a == b
same_hash (some a) none = false
same_hash none b = false

abbrev pub allowed : Option (String → Bool) → String → Bool
allowed none doc = true
allowed (some may) doc = may doc

-- enumerate(zip(chunks, embeddings)), from the index `i` on
unfoldable pub chunk_tuples : ProcessedDocument → ℕ → List Piece → List String → List ChunkTuple
chunk_tuples d i (p ∷ ps) (e ∷ es) =
    record {
      document_id = d.document_id;
      chunk_index = i;
      text = p.page_content;
      source_uri = d.source_uri;
      embedding = e;
      metadata = p.metadata;
    }
    ∷ chunk_tuples d (suc i) ps es
chunk_tuples d i [] es = []
chunk_tuples d i (p ∷ ps) [] = []

abbrev pub page_content_of : Piece → String
page_content_of p = p.page_content

-- how the batch calls index_document
abbrev pub for_batch : Bool → Options
for_batch force = record { force_reindex = force; rebuild_fts = false; may_replace = none }

module _ {Index : Type 0} (s : Services Index) where
  abbrev pub request : Bool → ProcessedDocument → List ChunkTuple → Bool → Request
  request rebuild d tuples replace_existing = record {
    document_id = d.document_id;
    source_uri = d.source_uri;
    chunks = tuples;
    doc_metadata = d.metadata;
    replace_existing = replace_existing;
    lancedb_enabled = s.lancedb_enabled;
    rebuild_fts = rebuild;
  }

  abbrev pub after_write :
      ProcessedDocument → List ChunkTuple → Bool × World Index → IndexResult × World Index
  after_write d tuples (true, w) = (success d.document_id (length tuples), w)
  after_write d tuples (false, w) = (error unknown_error, w)

  abbrev pub write_embedded :
      Conditions
      → Options
      → ProcessedDocument
      → Bool
      → World Index
      → Option (List String)
      → IndexResult × World Index
  write_embedded k o d replace_existing w none = (error unknown_error, w)
  write_embedded k o d replace_existing w (some embeddings) =
      let tuples = chunk_tuples d 0 d.chunks embeddings in
      after_write d tuples (
        write_indexed_document s.adapter k.at_write k.now
          (request o.rebuild_fts d tuples replace_existing) w)

  abbrev pub embed_and_write :
      Conditions → Options → ProcessedDocument → Bool → World Index → IndexResult × World Index
  embed_and_write k o d replace_existing w =
      write_embedded k o d replace_existing w (s.encode_batch (map page_content_of d.chunks))

  unfoldable pub index_found :
      Conditions
      → Options
      → ProcessedDocument
      → World Index
      → Option (Option String)
      → IndexResult × World Index
  unfolding chunk_tuples
  index_found k o d w none = (error unknown_error, w)
  index_found k o d w (some none) = embed_and_write k o d false w
  index_found k o d w (some (some stored)) =
      if not o.force_reindex && same_hash d.file_hash (s.file_hash_of stored)
      then (skipped d.document_id, w)
      else if allowed o.may_replace d.document_id
      then embed_and_write k o d true w
      else (denied, w)

  abbrev pub index_processed :
      Conditions → Options → World Index → Processing → IndexResult × World Index
  index_processed k o w encrypted = (error encrypted_pdf, w)
  index_processed k o w unprocessable = (error processing_error, w)
  index_processed k o w crashes = (error unknown_error, w)
  index_processed k o w (processed d) =
      index_found k o d w (get_document_by_id k.at_lookup d.document_id w.table.rows)

  unfoldable pub index_document :
      Conditions → Options → String → World Index → IndexResult × World Index
  unfolding index_found get_document_by_id
  index_document k o uri w = index_processed k o w (s.process uri)

  unfoldable pub index_each :
      Bool → List (String × Conditions) → World Index → List IndexResult × World Index
  unfolding index_document
  index_each force [] w = ([], w)
  index_each force ((uri, k) ∷ rest) w =
      let one = index_document k (for_batch force) uri w in
      let others = index_each force rest one.1 in (one.0 ∷ others.0, others.1)

  -- The index is rebuilt at the end; what that raises is logged.
  abbrev pub rebuild_at_end : World Index → World Index
  rebuild_at_end w =
      if s.lancedb_enabled then with_index (s.adapter.rebuild_fts_index w.index).1 w else w

  unfoldable pub index_batch :
      Bool → List (String × Conditions) → World Index → List IndexResult × World Index
  unfolding index_each
  index_batch force sources w =
      let done = index_each force sources w in (done.0, rebuild_at_end done.1)

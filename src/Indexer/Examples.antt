-- ===== src/Indexer/Examples.antt =====
-- A document that is replaced, skipped or refused.
use pgvector_ragindexer.Base.{◌≢◌, ◌≡◌, refl, true, false, none, some, [], ◌∷◌, string_eq}
use pgvector_ragindexer.Sql.{select}
use pgvector_ragindexer.Writes.{
  Insertion, answered, refused, analyze_fails, insert_chunks, delete_document,
  get_document_chunks_for_reinsert, remove_existing, store_chunks, index_chunks,
  write_indexed_document,
}
use pgvector_ragindexer.Indexer.{
  Options, success, skipped, denied, for_batch, chunk_tuples, earliest, index_found,
  get_document_by_id, index_document,
}
use pgvector_ragindexer.Indexer.Fixtures.{services, old_chunk, world, conditions}
use pgvector_ragindexer.Indexer.Outcomes.{Fate, index_document-Fate}

not_analyze : ◌≢◌ {A = Insertion} answered analyze_fails
not_analyze e = cc

not_refused : ◌≢◌ {A = Insertion} answered refused
not_refused e = cc

index_document-Fate_example :
    let r =
      index_document services conditions
        (for_batch false)
        "/docs/a"
        (world (old_chunk "a" none ∷ [])) in
    Fate services "/docs/a" (world (old_chunk "a" none ∷ [])) r.0 r.1
index_document-Fate_example =
    index_document-Fate services "/docs/a" conditions (for_batch false)
      (world (old_chunk "a" none ∷ [])) not_analyze refl not_refused

replaces :
    (index_document services conditions
      (for_batch false)
      "/docs/a"
      (world (old_chunk "a" none ∷ []))).0
    ≡ success "a" 1
unfolding index_document index_found get_document_by_id earliest chunk_tuples select string_eq
    write_indexed_document remove_existing store_chunks index_chunks insert_chunks delete_document
    get_document_chunks_for_reinsert
replaces = refl

abbrev refusing : Options
refusing = record { force_reindex = false; rebuild_fts = true; may_replace = some (λ id. false) }

refuses :
    (index_document services conditions refusing "/docs/a" (world (old_chunk "a" none ∷ []))).0
    ≡ denied
unfolding index_document index_found get_document_by_id earliest select string_eq
refuses = refl

-- An unchanged document is skipped, whoever may not replace it.
skips :
    (index_document services conditions refusing "/docs/a"
      (world (record (old_chunk "a" none) { metadata = "h2" } ∷ []))).0
    ≡ skipped "a"
unfolding index_document index_found get_document_by_id earliest select string_eq
skips = refl

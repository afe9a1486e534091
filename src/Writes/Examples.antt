-- ===== src/Writes/Examples.antt =====
-- A private document of two chunks that is replaced by one chunk, with an index that is the list of
-- its document ids.
use pgvector_ragindexer.Base.{
  ◌≢◌, ℕ, String, ◌≡◌, refl, inl, Bool, true, false, none, some, List, [], ◌∷◌, map, All, string_eq,
}
use pgvector_ragindexer.Sql.{count, up, delete}
use pgvector_ragindexer.Chunks.{Chunk}
use pgvector_ragindexer.Visibility.{of_document, unlinked}
use pgvector_ragindexer.Visibility.Agreement.{AllShown}
use pgvector_ragindexer.Readiness.{initial}
use pgvector_ragindexer.Writes.{
  Insertion, answered, refused, analyze_fails, ChunkTuple, World, Adapter, Links, Request,
  document_chunks, order_by_index, insert_chunks, delete_document, get_document_chunks_for_reinsert,
  remove_existing, store_chunks, index_chunks, write_indexed_document,
}
use pgvector_ragindexer.Writes.Tuples.{OfDocument, stored}
use pgvector_ragindexer.Writes.Rollback.{
  IsRestored, write_indexed_document-rolls_back, write_indexed_document-leaves,
  write_indexed_document-replaces,
}
use pgvector_ragindexer.Writes.Effects.{write_indexed_document-opens}
use pgvector_ragindexer.Writes.Success.{write_indexed_document-returns}

abbrev old_chunk : ℕ → Chunk
old_chunk i = record {
  chunk_id = i;
  document_id = "a";
  chunk_index = i;
  text_content = "old";
  source_uri = "/a";
  embedding = "[0,1]";
  metadata = "{}";
  indexed_at = 5;
  updated_at = 5;
  owner_id = some "ann";
  visibility = some "private";
  canonical_source_key = none;
  quarantined_at = none;
  quarantine_reason = none;
}

abbrev new_chunk : ChunkTuple
new_chunk = record {
  document_id = "a";
  chunk_index = 0;
  text = "new";
  source_uri = "/a";
  embedding = "[1,0]";
  metadata = none;
}

abbrev adapter : Bool → Adapter (List String)
adapter works = record {
  upsert_document = λ doc uri chunks metadata i. (works, doc ∷ i);
  rebuild_fts_index = λ i. (works, i);
  remove_document = λ doc i. (true, []);
}

abbrev links : Links
links = record {
  at_backup = up;
  at_delete = up;
  at_insert = answered;
  at_undo_delete = up;
  at_undo_insert = answered;
}

abbrev request : Request
request = record {
  document_id = "a";
  source_uri = "/a";
  chunks = new_chunk ∷ [];
  doc_metadata = "{}";
  replace_existing = true;
  lancedb_enabled = true;
  rebuild_fts = true;
}

abbrev world : World (List String)
world = record {
  table = record { rows = old_chunk 1 ∷ old_chunk 0 ∷ []; next_id = 2 };
  index = "a" ∷ [];
  globals = initial;
}

of_the_document : All (OfDocument "a") (new_chunk ∷ [])
unfolding string_eq
of_the_document = (refl, tt)

index_fails : (write_indexed_document (adapter false) links 9 request world).0 ≡ false
unfolding write_indexed_document remove_existing store_chunks index_chunks insert_chunks
    delete_document get_document_chunks_for_reinsert
index_fails = refl

it_answers : ◌≢◌ {A = Insertion} answered refused
it_answers e = cc

write_indexed_document-rolls_back_example :
    IsRestored "a" world.table.rows
      (write_indexed_document (adapter false) links 9 request world).1.table.rows
write_indexed_document-rolls_back_example =
    write_indexed_document-rolls_back (adapter false) links 9 request world of_the_document
      (inl refl) (inl refl) refl it_answers index_fails

write_indexed_document-returns_example :
    let done = write_indexed_document (adapter true) links 9 request world in
    (done.0 ≡ true)
    × (document_chunks "a" done.1.table.rows ≡ order_by_index (map stored (new_chunk ∷ [])))
    × (delete (of_document "a") done.1.table.rows ≡ delete (of_document "a") world.table.rows)
write_indexed_document-returns_example =
    write_indexed_document-returns (adapter true) links 9 request world of_the_document (inl refl)
      refl refl refl (λ _ _ _ _ _. refl, λ _. refl)

index_works : (write_indexed_document (adapter true) links 9 request world).0 ≡ true
unfolding write_indexed_document remove_existing store_chunks index_chunks insert_chunks
    delete_document get_document_chunks_for_reinsert
index_works = refl

write_indexed_document-replaces_example :
    let rows = (write_indexed_document (adapter true) links 9 request world).1.table.rows in
    (document_chunks "a" rows ≡ order_by_index (map stored (new_chunk ∷ [])))
    × (delete (of_document "a") rows ≡ delete (of_document "a") world.table.rows)
write_indexed_document-replaces_example =
    write_indexed_document-replaces (adapter true) links 9 request world of_the_document (inl refl)
      index_works

write_indexed_document-opens_example :
    AllShown "a" unlinked (write_indexed_document (adapter true) links 9 request world).1.table.rows
write_indexed_document-opens_example =
    write_indexed_document-opens (adapter true) links 9 request world unlinked of_the_document
      (inl refl) index_works

abbrev failing_links : Links
failing_links = record links { at_insert = analyze_fails }

abbrev first_request : Request
first_request = record request { replace_existing = false }

abbrev empty_world : World (List String)
empty_world = record world { table = record { rows = []; next_id = 0 } }

nothing_yet : count (of_document "a") [] ≡ 0
unfolding count
nothing_yet = refl

write_indexed_document-leaves_example :
    ((write_indexed_document (adapter true) failing_links 9 first_request empty_world).0 ≡ false)
    × (document_chunks "a"
          (write_indexed_document
            (adapter true)
            failing_links
            9
            first_request
            empty_world).1.table.rows
        ≡ order_by_index (map stored (new_chunk ∷ [])))
write_indexed_document-leaves_example =
    write_indexed_document-leaves (adapter true) failing_links 9 first_request empty_world
      of_the_document refl nothing_yet refl

-- ===== src/Indexer/Outcomes.antt =====
-- What each result of index_document says of the store.
use pgvector_ragindexer.Base.{
  ℕ, suc, String, ◌≡◌, ◌≢◌, refl, sym, ap, ◌∙◌, subst, ◌⊎◌, inl, inr, Bool, true, false, not, ◌&&◌,
  Option, none, some, List, [], ◌∷◌, ◌==◌, string_eq, arith, All, first, length, map, Bool-cases,
  ==_refl,
}
use pgvector_ragindexer.Sql.{Truth, Link, up, down, is_true, of_bool, ◌and◌, select, delete, count}
use pgvector_ragindexer.Sql.Laws.{select-first-holds}
use pgvector_ragindexer.Chunks.{Chunk}
use pgvector_ragindexer.Visibility.{of_document}
use pgvector_ragindexer.Writes.{
  refused, analyze_fails, ChunkTuple, World, order_by_index, document_chunks,
  write_indexed_document,
}
use pgvector_ragindexer.Writes.Tuples.{OfDocument, stored}
use pgvector_ragindexer.Writes.Steps.{IsFresh}
use pgvector_ragindexer.Writes.Rollback.{
  IsRestored, write_indexed_document-rolls_back, write_indexed_document-replaces,
}
use pgvector_ragindexer.Indexer.{
  Piece, ProcessedDocument, Processing, processed, encrypted, unprocessable, crashes, Services,
  Conditions, Options, IndexResult, success, skipped, error, denied, earlier_of, earliest,
  metadata_of, first_group, get_document_by_id, same_hash, allowed, chunk_tuples, page_content_of,
  request, after_write, write_embedded, index_found, index_processed, index_document,
}

chunk_tuples-OfDocument :
    (d : ProcessedDocument) (i : ℕ) (ps : List Piece) (es : List String)
    → All (OfDocument d.document_id) (chunk_tuples d i ps es)
unfolding chunk_tuples
chunk_tuples-OfDocument d i [] es = tt
chunk_tuples-OfDocument d i (p ∷ ps) [] = tt
chunk_tuples-OfDocument d i (p ∷ ps) (e ∷ es) =
    (==_refl d.document_id, chunk_tuples-OfDocument d (suc i) ps es)

earlier_of-some : (c : Chunk) (o : Option Chunk) → metadata_of (earlier_of c o) ≢ none
earlier_of-some c none h = cc
earlier_of-some c (some d) h = ground arith

-- A query that selects a row has an earliest row.
earliest-some :
    (p q : Chunk → Truth) (rs : List Chunk) (c : Chunk)
    → first (select p rs) ≡ some c
    → is_true (q c) ≡ true
    → metadata_of (earliest (select q rs)) ≢ none
unfolding select earliest
earliest-some p q [] c h y = cc
earliest-some p q (r ∷ rs) c h y = elim (Bool-cases (is_true (q r))) [
  | inl here ↦ rw here (earlier_of-some r (earliest (select q rs)))
  | inr away ↦ rw away (earliest-some p q rs c (ground arith) y)
]

count_of_none : (p : Chunk → Truth) (rs : List Chunk) → first (select p rs) ≡ none → count p rs ≡ 0
unfolding select count
count_of_none p [] h = refl
count_of_none p (r ∷ rs) h = ground (arith, count_of_none p rs)

-- A lookup that finds no document finds no chunk of it.
not_found-count :
    (doc : String) (rows : List Chunk) (o : Option Chunk)
    → first (select (of_document doc) rows) ≡ o
    → first_group doc o rows ≡ none
    → count (of_document doc) rows ≡ 0
not_found-count doc rows none e h = count_of_none (of_document doc) rows e
not_found-count doc rows (some c) e h =
    let own : is_true (of_document doc c and of_bool (c.source_uri == c.source_uri)) ≡ true =
      ground (arith, select-first-holds (of_document doc) rows e, ==_refl c.source_uri) in
    absurd (
      earliest-some (of_document doc)
        (λ d. of_document doc d and of_bool (d.source_uri == c.source_uri)) rows c e own h)

module _ {Index : Type 0} (s : Services Index) (uri : String) where
  abbrev tuples_for : ProcessedDocument → List String → List ChunkTuple
  tuples_for d es = chunk_tuples d 0 d.chunks es

  -- What a result says of the store before and after the call.
  abbrev pub Fate : World Index → IndexResult → World Index → Type 0
  Fate w (success doc n) w' =
      (d : ProcessedDocument) × (es : List String) × (s.process uri ≡ processed d)
      × (s.encode_batch (map page_content_of d.chunks) ≡ some es)
      × ((doc ≡ d.document_id)
          × (n ≡ length (tuples_for d es))
          × (document_chunks doc w'.table.rows ≡ order_by_index (map stored (tuples_for d es)))
          × (delete (of_document doc) w'.table.rows ≡ delete (of_document doc) w.table.rows))
  Fate w (skipped doc) w' = w' ≡ w
  Fate w denied w' = w' ≡ w
  Fate w (error e) w' =
      (w' ≡ w)
      ⊎ ((d : ProcessedDocument) × (s.process uri ≡ processed d)
          × IsRestored d.document_id w.table.rows w'.table.rows)

  module _ (k : Conditions) (o : Options) (w : World Index)
      (goes_on : k.at_write.at_insert ≢ analyze_fails) (undo : k.at_write.at_undo_delete ≡ up)
      (redo : k.at_write.at_undo_insert ≢ refused) where
    abbrev Done : IndexResult × World Index → Type 0
    Done r = Fate w r.0 r.1

    after_write-Fate :
        (d : ProcessedDocument) (es : List String) (replace_existing : Bool)
        → s.process uri ≡ processed d
        → s.encode_batch (map page_content_of d.chunks) ≡ some es
        → IsFresh (request s o.rebuild_fts d (tuples_for d es) replace_existing) w.table.rows
        → (r : Bool × World Index)
        → r
          ≡ write_indexed_document s.adapter k.at_write k.now
              (request s o.rebuild_fts d (tuples_for d es) replace_existing)
              w
        → Done (after_write s d (tuples_for d es) r)
    after_write-Fate d es re p e fresh (true, w') h =
        let q =
          write_indexed_document-replaces s.adapter k.at_write k.now
            (request s o.rebuild_fts d (tuples_for d es) re) w
            (chunk_tuples-OfDocument d 0 d.chunks es) fresh (sym (ap (λ x. x.0) h)) in
        (
          d,
          es,
          p,
          e,
          (
            refl,
            refl,
            ap (λ x. document_chunks d.document_id x.1.table.rows) h ∙ q.0,
            ap (λ x. delete (of_document d.document_id) x.1.table.rows) h ∙ q.1,
          ),
        )
    after_write-Fate d es re p e fresh (false, w') h = inr (
      d,
      p,
      subst (λ (x : Bool × World Index). IsRestored d.document_id w.table.rows x.1.table.rows)
          (sym h)
          (write_indexed_document-rolls_back s.adapter k.at_write k.now
            (request s o.rebuild_fts d (tuples_for d es) re) w
            (chunk_tuples-OfDocument d 0 d.chunks es) fresh (inr goes_on) undo redo
            (sym (ap (λ x. x.0) h))),
    )

    embed_and_write-Fate :
        (d : ProcessedDocument) (re : Bool) (es : Option (List String))
        → s.process uri ≡ processed d
        → ((re ≡ true) ⊎ (count (of_document d.document_id) w.table.rows ≡ 0))
        → s.encode_batch (map page_content_of d.chunks) ≡ es
        → Done (write_embedded s k o d re w es)
    embed_and_write-Fate d re none p fresh e = inl refl
    embed_and_write-Fate d re (some es) p fresh e = after_write-Fate d es re p e fresh _ refl

    index_found-Fate :
        (d : ProcessedDocument) (found : Option (Option String))
        → s.process uri ≡ processed d
        → (found ≡ some none → count (of_document d.document_id) w.table.rows ≡ 0)
        → Done (index_found s k o d w found)
    unfolding index_found
    index_found-Fate d none p fresh = inl refl
    index_found-Fate d (some none) p fresh =
        embed_and_write-Fate d false _ p (inr (fresh refl)) refl
    index_found-Fate d (some (some m)) p fresh =
        elim (Bool-cases (not o.force_reindex && same_hash d.file_hash (s.file_hash_of m))) [
          | inl y ↦ rw y refl
          | inr n ↦ elim (Bool-cases (allowed o.may_replace d.document_id)) [
            | inl may ↦ rw (n, may) (embed_and_write-Fate d true _ p (inl refl) refl)
            | inr denies ↦ rw (n, denies) refl
          ]
        ]

    lookup-count :
        (l : Link) (doc : String)
        → get_document_by_id l doc w.table.rows ≡ some none
        → count (of_document doc) w.table.rows ≡ 0
    unfolding get_document_by_id
    lookup-count down doc h = cc
    lookup-count up doc h = not_found-count doc w.table.rows _ refl (ground arith)

    index_processed-Fate : (r : Processing) → s.process uri ≡ r → Done (index_processed s k o w r)
    index_processed-Fate encrypted p = inl refl
    index_processed-Fate unprocessable p = inl refl
    index_processed-Fate crashes p = inl refl
    index_processed-Fate (processed d) p =
        index_found-Fate d _ p (lookup-count k.at_lookup d.document_id)

    -- Every call of index_document ends in one of these ways. Success: the chunks of the document
    -- are exactly those that were split and embedded, with their metadata. Skipped or refused:
    -- nothing changed. An error: nothing changed, or the chunks of the document are restored. In all
    -- cases the rows of other documents are as before. Conditions: the ANALYZE after the insertion
    -- does not fail, and a rollback is not refused.
    pub index_document-Fate : Done (index_document s k o uri w)
    unfolding index_document
    index_document-Fate = index_processed-Fate (s.process uri) refl
